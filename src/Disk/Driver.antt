-- ===== src/Disk/Driver.antt =====
-- The interface of a block driver, which pata.c and storage.c implement and diskio.c calls.
use rpv_platforms_evt_driven.Base.{ℕ, List}

-- The status codes of the kernel's disk.h.
pub data DiskStatus : Type 0 where
  disk_io_ok disk_io_err disk_invalid disk_not_ready disk_write_protect : DiskStatus

-- `disk_t`
pub record Disk : Type 0 where
  pub did : ℕ
  pub letter : ℕ
  pub volume : ℕ
  pub num_blocks : ℕ
  pub block_size : ℕ

-- `get_disk` gets the record it may write. A read gives the bytes for the caller's buffer, which is
-- not NULL.
pub record DiskDriver : Type 1 where
  pub State : Type 0
  pub get_disk : (did : ℕ) → State → Disk → Disk
  pub read_disk : (did blck blocks : ℕ) → State → DiskStatus × List ℕ × State
  pub write_disk : (bytes : List ℕ) (did blck blocks : ℕ) → State → DiskStatus × State
  pub flush_disk : (did : ℕ) → State → DiskStatus × State
