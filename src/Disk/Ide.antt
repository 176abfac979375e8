-- ===== src/Disk/Ide.antt =====
-- src/arch/x86_64/pata.c: the four IDE devices.
pub mod Letters
pub mod Capacity
use rpv_platforms_evt_driven.Base.{
  ℕ, ◌+◌, ◌-◌, ◌*◌, ◌%◌, ◌^◌, ◌==◌, ltb, leb, if◌then◌else◌, Bool, true, false, not, List, [], ◌∷◌,
  get_or,
}
use rpv_platforms_evt_driven.Base.Loop.{count_up}
use rpv_platforms_evt_driven.Disk.Driver.{
  DiskStatus, disk_io_ok, disk_io_err, disk_invalid, disk_not_ready, Disk, DiskDriver,
}

-- IDE_DEV_BUSES, IDE_BUS_DEVICES and IDE_DEV_LETTERS
abbrev pub ide_dev_buses : ℕ
ide_dev_buses = 2

abbrev pub ide_bus_devices : ℕ
ide_bus_devices = 2

abbrev pub ide_dev_letters : ℕ
ide_dev_letters = 4

-- IDE_NO_DEVICE, IDE_ATA_DEVICE and IDE_ATAPI_DEVICE
abbrev pub ide_no_device : ℕ
ide_no_device = 0

abbrev pub ide_ata_device : ℕ
ide_ata_device = 1

abbrev pub ide_atapi_device : ℕ
ide_atapi_device = 2

-- `ide_dev_t`
pub record IdeDev : Type 0 where
  pub letter : ℕ
  pub ide_bus : ℕ
  pub bus_dev : ℕ
  pub ata_detect : ℕ
  pub capacity : ℕ
  pub identity_block : ℕ → ℕ

-- The assembly routines on the bus: the detection with the identity words, and what a transfer
-- answers on the disks.
pub record IdeBus : Type 1 where
  pub Disks : Type 0
  pub detect : (ide_bus ide_device : ℕ) → ℕ × (ℕ → ℕ)
  pub device_flush : (ide_bus ide_device : ℕ) → Disks → Bool × Disks
  pub device_read : (ide_bus ide_device lba_sector sectors : ℕ) → Disks → Bool × List ℕ × Disks
  pub device_write :
      (ide_bus ide_device : ℕ) (bytes : List ℕ) (lba_sector sectors : ℕ) → Disks → Bool × Disks

-- `cap_sectors`: the high word is shifted as a signed 32-bit number, and its sign fills the upper
-- half of a `size_t`.
unfoldable pub cap_sectors : (hi lo : ℕ) → ℕ
cap_sectors hi lo =
    let word = hi * 2 ^ 16 + lo in if ltb word (2 ^ 31) then word else 2 ^ 64 - 2 ^ 32 + word

-- `letters`
abbrev pub letters : List ℕ
letters = b'C' ∷ b'D' ∷ b'E' ∷ b'F' ∷ []

module _ (bus : IdeBus) where
  -- `ide_dev`, and the disks.
  pub record Ide : Type 0 where
    pub devs : ℕ → IdeDev
    pub disks : bus.Disks

  -- The round of `disk_io` for one device: the table, and `dev_letter`.
  unfoldable pub detect_dev : (ide_bus bus_dev : ℕ) → (ℕ → IdeDev) × ℕ → (ℕ → IdeDev) × ℕ
  detect_dev ide_bus bus_dev (devs, dev_letter) =
      let (ata_detect, identity) = bus.detect ide_bus bus_dev in
      let found = not (ata_detect == ide_no_device) in
      let dev : IdeDev = record {
        letter = if found then get_or letters dev_letter 0 else 0;
        ide_bus = ide_bus;
        bus_dev = bus_dev;
        ata_detect = ata_detect;
        capacity = if found then cap_sectors (identity 61) (identity 60) * 512 % 2 ^ 64 else 0;
        identity_block = identity;
      } in
      (
        λ i. if i == ide_bus * ide_bus_devices + bus_dev then dev else devs i,
        if found then dev_letter + 1 else dev_letter,
      )

  -- `disk_io`
  unfoldable pub disk_io : Ide → Ide
  disk_io s =
      let scanned =
        count_up ide_dev_buses 0 (λ ide_bus. count_up ide_bus_devices 0 (detect_dev ide_bus))
          (s.devs, 0) in
      record s { devs = scanned.0 }

  -- `get_disk`
  unfoldable pub get_disk : (did : ℕ) → Ide → Disk → Disk
  get_disk did s disk =
      if leb ide_dev_letters did
      then disk
      else let dev = s.devs did in
        record disk {
          did = did;
          letter = dev.letter;
          volume = dev.capacity;
          block_size =
              if dev.ata_detect == ide_ata_device
              then 512
              else if dev.ata_detect == ide_atapi_device
              then 2048
              else 0;
        }

  abbrev status_of_bus : Bool → DiskStatus
  status_of_bus true = disk_io_ok
  status_of_bus false = disk_io_err

  -- `flush_disk`
  unfoldable pub flush_disk : (did : ℕ) → Ide → DiskStatus × Ide
  flush_disk did s =
      let dev = s.devs did in
      if leb ide_dev_letters did
      then (disk_invalid, s)
      else if dev.ata_detect == ide_no_device
      then (disk_not_ready, s)
      else let (is_ok, disks) = bus.device_flush dev.ide_bus dev.bus_dev s.disks in
        (status_of_bus is_ok, record s { disks = disks })

  -- `read_disk`
  unfoldable pub read_disk : (did blck blocks : ℕ) → Ide → DiskStatus × List ℕ × Ide
  read_disk did blck blocks s =
      let dev = s.devs did in
      if leb ide_dev_letters did
      then (disk_invalid, [], s)
      else if dev.ata_detect == ide_no_device
      then (disk_not_ready, [], s)
      else let (is_ok, bytes, disks) =
          bus.device_read dev.ide_bus dev.bus_dev blck blocks s.disks in
        (status_of_bus is_ok, bytes, record s { disks = disks })

  -- `write_disk`
  unfoldable pub write_disk : (bytes : List ℕ) (did blck blocks : ℕ) → Ide → DiskStatus × Ide
  write_disk bytes did blck blocks s =
      let dev = s.devs did in
      if leb ide_dev_letters did
      then (disk_invalid, s)
      else if dev.ata_detect == ide_no_device
      then (disk_not_ready, s)
      else let (is_ok, disks) =
          bus.device_write dev.ide_bus dev.bus_dev bytes blck blocks s.disks in
        (status_of_bus is_ok, record s { disks = disks })

  -- pata.c as a block driver.
  abbrev pub ide_driver : DiskDriver
  ide_driver = record {
    State = Ide;
    get_disk = get_disk;
    read_disk = read_disk;
    write_disk = write_disk;
    flush_disk = flush_disk;
  }
