-- ===== src/Dma.antt =====
-- src/arch/mb_le/sys/xdma.c, the driver of the three AXI DMA engines: scatter-gather rings for the
-- Ethernet and the sound blaster, and direct transfers for the SD card.
pub mod Fixture
pub mod Registers
pub mod Bd
pub mod State
pub mod Engine
pub mod Rx
pub mod Tx
pub mod Sound
pub mod Card
pub mod Counters
