-- ===== src/Disk/Storage.antt =====
-- src/arch/mb_le/storage.c: the SD card as the one disk of the MicroBlaze target.
use rpv_platforms_evt_driven.Base.{ℕ, ◌==◌, leb, ◌||◌, if◌then◌else◌, List, [], none, some}
use rpv_platforms_evt_driven.Disk.Driver.{DiskStatus, disk_io_ok, disk_io_err, disk_invalid, Disk}
use rpv_platforms_evt_driven.Disk.Rsdcard.{CardRun, Card, rsdcard_read, rsdcard_write}

-- MAX_DISKS and MAX_BLOCK_SIZE
abbrev pub max_disks : ℕ
max_disks = 1

abbrev pub max_block_size : ℕ
max_block_size = 512

-- `get_disk`, for a record that is there.
unfoldable pub get_disk : (did : ℕ) → Disk → Disk
get_disk did disk = if leb max_disks did then disk else record {
  did = did;
  letter = b'C';
  volume = 0;
  num_blocks = 0;
  block_size = max_block_size;
}

-- `flush_disk`
unfoldable pub flush_disk : (did : ℕ) → DiskStatus
flush_disk did = if did == 0 then disk_io_ok else disk_invalid

-- `read_disk`, into a buffer at `mem`, which is 0 for NULL.
unfoldable pub read_disk : CardRun → (mem did blck blocks : ℕ) → Card → DiskStatus × List ℕ × Card
read_disk run mem did blck blocks c =
    if (mem == 0) || leb max_disks did
    then (disk_invalid, [], c)
    else let (bytes, c') = rsdcard_read run mem blck blocks c in
      elim bytes [ none ↦ (disk_io_err, [], c') | some bs ↦ (disk_io_ok, bs, c') ]

-- `write_disk`
unfoldable pub write_disk :
    CardRun → (mem : ℕ) (bytes : List ℕ) (did blck blocks : ℕ) → Card → DiskStatus × Card
write_disk run mem bytes did blck blocks c =
    if (mem == 0) || leb max_disks did
    then (disk_invalid, c)
    else let (is_ok, c') = rsdcard_write run mem bytes blck blocks c in
      (if is_ok then disk_io_ok else disk_io_err, c')
