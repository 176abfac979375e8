-- ===== src/Disk/Diskio.antt =====
-- src/fatfs/diskio.c: the disk functions that FatFs calls, over either block driver.
pub mod Access
use rpv_platforms_evt_driven.Base.{ℕ, ◌/◌, ◌%◌, ◌^◌, ◌==◌, if◌then◌else◌, Bool, not, List, []}
use rpv_platforms_evt_driven.Disk.Driver.{
  DiskStatus, disk_io_ok, disk_io_err, disk_invalid, disk_not_ready, disk_write_protect, Disk,
  DiskDriver,
}

-- `DRESULT` of FatFs.
pub data DResult : Type 0 where
  res_ok res_error res_wrprt res_notrdy res_parerr : DResult

-- `from_diskioStatus`
abbrev pub from_diskio_status : DiskStatus → DResult
from_diskio_status disk_io_ok = res_ok
from_diskio_status disk_io_err = res_error
from_diskio_status disk_invalid = res_parerr
from_diskio_status disk_not_ready = res_notrdy
from_diskio_status disk_write_protect = res_wrprt

-- The commands of `disk_ioctl`.
pub data Command : Type 0 where
  get_sector_count get_sector_size ctrl_sync : Command
  other_command : ℕ → Command

-- `stack` is what the local record holds before `get_disk`, which may not write it.
module _ (drv : DiskDriver) (stack : Disk) where
  -- `check_diskReady`
  unfoldable pub check_disk_ready : (pdrv : ℕ) → drv.State → Bool
  check_disk_ready pdrv s = not ((drv.get_disk pdrv s stack).letter == 0)

  -- `disk_status`: true for STA_NODISK.
  unfoldable pub disk_status : (pdrv : ℕ) → drv.State → Bool
  disk_status pdrv s = not (check_disk_ready pdrv s)

  -- `disk_initialize`
  unfoldable pub disk_initialize : (pdrv : ℕ) → drv.State → Bool
  disk_initialize pdrv s = disk_status pdrv s

  -- `disk_read`
  unfoldable pub disk_read : (pdrv sector count : ℕ) → drv.State → DResult × List ℕ × drv.State
  disk_read pdrv sector count s =
      if check_disk_ready pdrv s
      then (let (status, bytes, s') = drv.read_disk pdrv sector count s in
          (from_diskio_status status, bytes, s'))
      else (res_notrdy, [], s)

  -- `disk_write`
  unfoldable pub disk_write :
      (bytes : List ℕ) (pdrv sector count : ℕ) → drv.State → DResult × drv.State
  disk_write bytes pdrv sector count s =
      if check_disk_ready pdrv s
      then (let (status, s') = drv.write_disk bytes pdrv sector count s in
          (from_diskio_status status, s'))
      else (res_notrdy, s)

  -- `disk_ioctl`: the answer, the number it stores, 0 for none, and the state. LBA_t is 64 bits
  -- wide, WORD 16. A block size of 0 divides by zero in C; a driver gives it to unknown devices only.
  unfoldable pub disk_ioctl : (pdrv : ℕ) → Command → drv.State → DResult × ℕ × drv.State
  disk_ioctl pdrv cmd s =
      let disk = drv.get_disk pdrv s stack in
      if disk.letter == 0 then (res_notrdy, 0, s) else command disk cmd
    where
      command : Disk → Command → DResult × ℕ × drv.State
      command disk get_sector_count = (res_ok, disk.volume / disk.block_size % 2 ^ 64, s)
      command disk get_sector_size = (res_ok, disk.block_size % 2 ^ 16, s)
      command disk ctrl_sync =
          let (status, s') = drv.flush_disk disk.did s in
          (elim status [ disk_io_ok ↦ res_ok | _ ↦ res_error ], 0, s')
      command disk (other_command n) = (res_parerr, 0, s)
