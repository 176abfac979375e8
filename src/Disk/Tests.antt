-- ===== src/Disk/Tests.antt =====
-- Two IDE buses with two devices, an SD card, and uses of the theorems on both.
use rpv_platforms_evt_driven.Base.{
  ltb, none, length, ◌≤◌, ℕ, ◌+◌, ◌%◌, ◌≡◌, refl, sym, arith, true, false, ◌&&◌, ◌==◌,
  if◌then◌else◌, List, [], ◌∷◌, replicate, some,
}
use rpv_platforms_evt_driven.Base.Loop.{count_up}
use rpv_platforms_evt_driven.Dma.Registers.{status_of}
use rpv_platforms_evt_driven.Dma.Card.{transfer_ongoing}
use rpv_platforms_evt_driven.Dma.Fixture.{fresh}
use rpv_platforms_evt_driven.Disk.Driver.{Disk}
use rpv_platforms_evt_driven.Disk.Ide.{IdeDev, IdeBus, Ide, detect_dev, disk_io, ide_driver}
use rpv_platforms_evt_driven.Disk.Ide.Letters.{disk_io_lem}
use rpv_platforms_evt_driven.Disk.Diskio.{res_ok, disk_read}
use rpv_platforms_evt_driven.Disk.Diskio.Access.{disk_read-disk_io}
use rpv_platforms_evt_driven.Disk.Info.{ide_info, card_info, IsInt, info-length}
use rpv_platforms_evt_driven.Disk.Rsdcard.{CardRun, Card, rsdcard_read, rsdcard_write}
use rpv_platforms_evt_driven.Disk.Rsdcard.Transfer.{
  IsShort, rsdcard_write_lem, rsdcard_read-rsdcard_write,
}

-- The slave of the first bus does not answer. A read gives the number of the sector.
abbrev buses : IdeBus
buses = record {
  Disks = ℕ;
  detect = λ b d. (if (b == 0) && (d == 1) then 0 else 1, λ i. i);
  device_flush = λ b d s. (true, s);
  device_read = λ b d lba n s. (true, lba ∷ [], s + 1);
  device_write = λ b d bytes lba n s. (true, s + 1);
}

abbrev no_dev : IdeDev
no_dev = record {
  letter = 0;
  ide_bus = 0;
  bus_dev = 0;
  ata_detect = 0;
  capacity = 0;
  identity_block = λ i. 0;
}

abbrev idle_ide : Ide buses
idle_ide = record { devs = λ i. no_dev; disks = 0 }

abbrev garbage : Disk
garbage = record { did = 9; letter = 9; volume = 9; num_blocks = 9; block_size = 9 }

second_letter : ((disk_io buses idle_ide).devs 2).letter ≡ b'D'
unfolding disk_io detect_dev count_up
second_letter = refl

disk_io_lem_example :
    (((disk_io buses idle_ide).devs 2).letter ≡ b'D')
    × ((((disk_io buses idle_ide).devs 2).ide_bus ≡ 1)
        × (((disk_io buses idle_ide).devs 2).bus_dev ≡ 0))
    × (((disk_io buses idle_ide).devs 2).ata_detect ≡ 1)
disk_io_lem_example = disk_io_lem buses idle_ide 2 (omega arith)

disk_read-disk_io_example :
    disk_read (ide_driver buses) garbage 2 77 1 (disk_io buses idle_ide)
    ≡ (res_ok, 77 ∷ [], record (disk_io buses idle_ide) { disks = 1 })
unfolding disk_io
disk_read-disk_io_example = disk_read-disk_io buses garbage idle_ide 2 77 1 (omega arith)

-- An idle controller on a halted channel sends one sector.
abbrev a_sector : List ℕ
a_sector = replicate 512 7

abbrev one_sector_run : CardRun
one_sector_run = record { idle = true; dma_sr = 1; ioe = false; incoming = a_sector }

abbrev new_card : Card
new_card = record { dma = fresh; ops = [] }

one-IsShort : IsShort 1
one-IsShort = record { some_sectors = omega arith; few_sectors = omega arith }

rsdcard_read-rsdcard_write_example :
    let (wrote, c1) = rsdcard_write one_sector_run 0x9000_0000 a_sector 5 1 new_card in
    let (out, c2) = rsdcard_read one_sector_run 0x9000_4000 5 1 c1 in
    (wrote ≡ true)
    × (out ≡ some a_sector)
    × (c2.ops ≡ record { addr = 5; control = 17 } ∷ record { addr = 5; control = 18 } ∷ [])
unfolding transfer_ongoing status_of
rsdcard_read-rsdcard_write_example =
    rsdcard_read-rsdcard_write one_sector_run one_sector_run 0x9000_0000 0x9000_4000 a_sector 5 5 1
      new_card refl refl refl refl refl refl (omega arith) one-IsShort refl
      (sym
        (rsdcard_write_lem one_sector_run 0x9000_0000 a_sector 5 1 new_card refl refl (omega arith)
          one-IsShort refl).1)

-- Every number has one digit here.
abbrev last_digit : ℕ → List ℕ
last_digit n = (48 + n % 10) ∷ []

last_digit-IsInt : IsInt last_digit
last_digit-IsInt = record { some_digit = λ n. omega arith; few_digits = λ n. omega arith }

info-length_example :
    (text card : List ℕ) × ((len : ℕ)
      → ide_info last_digit buses 3 0x100 len (disk_io buses idle_ide)
        ≡ (if ltb 256 len then none else some text))
    × (30 ≤ length text)
    × (length text ≤ 80)
    × ((len : ℕ) → card_info last_digit 0 0x100 len ≡ (if ltb 256 len then none else some card))
    × (19 ≤ length card)
    × (length card ≤ 39)
info-length_example =
    info-length last_digit buses 3 0x100 (disk_io buses idle_ide) last_digit-IsInt (omega arith)
      (omega arith)

-- The second device does not answer, and the text of it is written to a buffer of no bytes.
no_room :
    ide_info last_digit buses 1 0x100 0 (disk_io buses idle_ide)
    ≡ some (
        b'I' ∷ b'D' ∷ b'E' ∷ b'#' ∷ b'1' ∷ b':' ∷ b' ' ∷ b'b' ∷ b'u' ∷ b's' ∷ b' ' ∷ b'0' ∷ b','
        ∷ b' ' ∷ b'd' ∷ b'e' ∷ b'v' ∷ b'i' ∷ b'c' ∷ b'e' ∷ b' ' ∷ b'1' ∷ b',' ∷ b' ' ∷ b'n' ∷ b'o'
        ∷ b't' ∷ b' ' ∷ b'd' ∷ b'e' ∷ b't' ∷ b'e' ∷ b'c' ∷ b't' ∷ b'e' ∷ b'd' ∷ 0 ∷ [])
unfolding ide_info disk_io detect_dev count_up
no_room = refl
