-- ===== src/Board.antt =====
-- The MicroBlaze board: the interrupt controller, the cache, and the start of the drivers.
pub mod Intc
pub mod Cache
pub mod Boot
mod Tests
