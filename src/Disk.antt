-- ===== src/Disk.antt =====
-- Block devices: src/arch/x86_64/pata.c, src/arch/mb_le/storage.c over src/arch/mb_le/sys/rsdcard.c,
-- and src/fatfs/diskio.c, which gives either of them to FatFs.
pub mod Driver
pub mod Ide
pub mod Rsdcard
pub mod Storage
pub mod Diskio
pub mod Info
mod Tests
