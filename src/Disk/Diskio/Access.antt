-- ===== src/Disk/Diskio/Access.antt =====
-- src/fatfs/diskio.c over src/arch/x86_64/pata.c: what FatFs gets from the detected devices.
use rpv_platforms_evt_driven.Base.{
  ℕ, ◌/◌, ◌%◌, ◌<◌, ◌≡◌, ◌≢◌, ap₂, ◌∙◌, arith, if◌then◌else◌, Bool-cases, inl, inr, List, [],
}
use rpv_platforms_evt_driven.Disk.Driver.{Disk}
use rpv_platforms_evt_driven.Disk.Ide.{
  IdeBus, Ide, ide_no_device, ide_dev_letters, get_disk, read_disk, disk_io, ide_driver,
}
use rpv_platforms_evt_driven.Disk.Ide.Letters.{present, disk_io_lem}
use rpv_platforms_evt_driven.Disk.Diskio.{
  DResult, res_ok, res_error, res_notrdy, check_disk_ready, disk_read,
}

module _ (bus : IdeBus) (stack : Disk) where
  read_present :
      (t : Ide bus) (pdrv sector count : ℕ)
      → pdrv < ide_dev_letters
      → (t.devs pdrv).letter ≢ 0
      → (t.devs pdrv).ata_detect ≢ ide_no_device
      → let (is_ok, bytes, disks) =
          bus.device_read (t.devs pdrv).ide_bus (t.devs pdrv).bus_dev sector count t.disks in
        disk_read (ide_driver bus) stack pdrv sector count t
        ≡ (if is_ok then res_ok else res_error, bytes, record t { disks = disks })
  unfolding disk_read check_disk_ready get_disk read_disk
  read_present t pdrv sector count b lettered found = ground arith

  read_absent :
      (t : Ide bus) (pdrv sector count : ℕ)
      → pdrv < ide_dev_letters
      → (t.devs pdrv).letter ≡ 0
      → disk_read (ide_driver bus) stack pdrv sector count t ≡ (res_notrdy, [], t)
  unfolding disk_read check_disk_ready get_disk
  read_absent t pdrv sector count b no_letter = ground arith

  -- After the detection, a read of one of the four disks goes to the device at its bus and number
  -- and reports what that answers, if a device answers there, else that it is not ready.
  pub disk_read-disk_io :
      (s : Ide bus) (pdrv sector count : ℕ)
      → pdrv < ide_dev_letters
      → disk_read (ide_driver bus) stack pdrv sector count (disk_io bus s) ≡ (
          if present bus pdrv
          then (let (is_ok, bytes, disks) =
                bus.device_read (pdrv / 2) (pdrv % 2) sector count s.disks in
              (
                if is_ok then res_ok else res_error,
                bytes,
                record (disk_io bus s) { disks = disks },
              ))
          else (res_notrdy, [], disk_io bus s))
  unfolding disk_io
  disk_read-disk_io s pdrv sector count b =
      let d = disk_io_lem bus s pdrv b in
      elim (Bool-cases (present bus pdrv)) [
        | inl found ↦ rw found (
            read_present (disk_io bus s) pdrv sector count b
              (λ e. absurd (ground (arith, d.0, found, e)))
              (λ e. absurd (ground (arith, d.2, found, e)))
            ∙ ap₂ answer d.1.0 d.1.1)
        | inr absent ↦
            rw absent
              (read_absent (disk_io bus s) pdrv sector count b (d.0 ∙ ground (arith, absent)))
      ]
    where
      answer : ℕ → ℕ → DResult × List ℕ × Ide bus
      answer x y =
          let (is_ok, bytes, disks) = bus.device_read x y sector count s.disks in
          (if is_ok then res_ok else res_error, bytes, record (disk_io bus s) { disks = disks })
