-- ===== src/Monitor.antt =====
-- The monitors of the MicroBlaze target: the temperature and the words of the memory.
pub mod Temp
pub mod Mem
mod Tests
