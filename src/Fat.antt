-- ===== src/Fat.antt =====
-- src/fatfs/fat.c: the table of open files in front of the FatFs library.
pub mod Interface
pub mod Table
pub mod Slots
pub mod Laws
pub mod Calls
pub mod Dir
pub mod Open
pub mod Times
pub mod Fixture
mod Tests
