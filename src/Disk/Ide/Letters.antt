-- ===== src/Disk/Ide/Letters.antt =====
-- src/arch/x86_64/pata.c: the letters that `disk_io` gives to the devices it detects.
use rpv_platforms_evt_driven.Base.{
  ℕ, zero, suc, ◌+◌, ◌/◌, ◌%◌, ◌<◌, ◌≡◌, refl, arith, Bool, not, ◌==◌, if◌then◌else◌,
}
use rpv_platforms_evt_driven.Base.Loop.{count_up}
use rpv_platforms_evt_driven.Disk.Ide.{
  IdeBus, Ide, ide_no_device, ide_dev_letters, detect_dev, disk_io,
}

module _ (bus : IdeBus) where
  -- A device answers at position `i`, bus by bus.
  abbrev pub present : ℕ → Bool
  present i = not ((bus.detect (i / 2) (i % 2)).0 == ide_no_device)

  -- How many answer before position `i`.
  abbrev pub before : ℕ → ℕ
  before zero = 0
  before (suc i) = if present i then suc (before i) else before i

  -- At each of the four positions: the letters from C on go to the devices that answer, in the order
  -- of their positions, and no other device gets one; the entry has the bus of its position, its
  -- number there, and what the detection answered.
  pub disk_io_lem :
      (s : Ide bus) (i : ℕ)
      → i < ide_dev_letters
      → let dev = (disk_io bus s).devs i in
        (dev.letter ≡ (if present i then b'C' + before i else 0))
        × ((dev.ide_bus ≡ i / 2) × (dev.bus_dev ≡ i % 2))
        × (dev.ata_detect ≡ (bus.detect (i / 2) (i % 2)).0)
  unfolding disk_io detect_dev count_up
  disk_io_lem s zero b = (ground arith, (refl, refl), refl)
  disk_io_lem s (suc zero) b = (ground arith, (refl, refl), refl)
  disk_io_lem s (suc (suc zero)) b = (ground arith, (refl, refl), refl)
  disk_io_lem s (suc (suc (suc zero))) b = (ground arith, (refl, refl), refl)
  disk_io_lem s (suc (suc (suc (suc i)))) b = absurd (omega (arith, b))
