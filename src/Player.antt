-- ===== src/Player.antt =====
-- src/arch/mb_le/services/sb_service.c: the service that plays a sound file, and its command.
pub mod Service
pub mod Total
pub mod Chunks
pub mod Hear
pub mod Round
pub mod Refill
pub mod Table
pub mod Plays
pub mod Playback
pub mod Start
pub mod Command
pub mod Play
mod Tests
