-- ===== src/Wheels/Port.antt =====
-- src/arch/mc_avr/sys/gpio.c and src/arch/mc_avr/sys/spi.c: the pins of the AVR.
use rpv_platforms_evt_driven.Base.{ℕ, ◌%◌, ◌^◌, ◌==◌, if◌then◌else◌, Bool, false, ◌||◌, List, ◌∷◌}

-- The numbers of pins and bits that the configuration and the C library of the target give.
pub record SpiPins : Type 0 where
  pub cs : ℕ
  pub sck : ℕ
  pub miso : ℕ
  pub mosi : ℕ
  pub spe : ℕ
  pub mstr : ℕ

-- A port by its bits: what is read from the pins, what is put out, and which pins are outputs.
pub record AvrPort : Type 0 where
  pub pin : ℕ → Bool
  pub port : ℕ → Bool
  pub ddr : ℕ → Bool

-- GET_BIT, the three functions that read a pin
unfoldable pub gpio_read : (pin : ℕ) → AvrPort → Bool
gpio_read pin p = p.pin pin

-- SET_BIT, the three functions that write a pin
unfoldable pub gpio_write : (pin : ℕ) (val : Bool) → AvrPort → AvrPort
gpio_write pin val p = record p { port = λ k. if k == pin then val else p.port k }

-- The SPI: its port, the bits of SPCR, and the bytes that were sent, newest first.
pub record Spi : Type 0 where
  pub portb : AvrPort
  pub spcr : ℕ → Bool
  pub sent : List ℕ

-- The pins that the master drives.
abbrev pub is_master_pin : SpiPins → ℕ → Bool
is_master_pin s k = (k == s.sck) || ((k == s.cs) || (k == s.mosi))

-- `_spi_start`
unfoldable pub spi_start : SpiPins → Spi → Spi
spi_start s p = record p {
  portb = record p.portb {
    ddr = λ k. if k == s.miso then false else is_master_pin s k;
    port = is_master_pin s;
  };
  spcr = λ k. (p.spcr k) || ((k == s.spe) || (k == s.mstr));
}

-- `_spi_write`, with the byte that it reads after the wait for the transfer.
unfoldable pub spi_write : (val spdr : ℕ) → Spi → ℕ × Spi
spi_write val spdr p = (spdr % 2 ^ 8, record p { sent = val % 2 ^ 8 ∷ p.sent })
