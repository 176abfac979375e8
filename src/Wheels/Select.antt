-- ===== src/Wheels/Select.antt =====
-- The command on the pins of the SPI.
use rpv_platforms_evt_driven.Base.{ℕ, ◌≡◌, ◌≢◌, refl, ap, arith, Bool, true, false, List, [], ◌∷◌}
use rpv_platforms_evt_driven.Wheels.{
  Output, no_command, unknown_action, unknown_command, selected, unselected, select_pin, count_is,
  whl_command, same_text, select_command, whls_m,
}
use rpv_platforms_evt_driven.Wheels.Port.{SpiPins, Spi, gpio_write, spi_start, spi_write}

-- What an output of the command does to the pins; the counter is read by sending a 0.
unfoldable pub put_out : SpiPins → Output → Spi → Spi
put_out s no_command p = p
put_out s unknown_action p = p
put_out s unknown_command p = p
put_out s selected p = p
put_out s unselected p = p
put_out s (select_pin level) p = record p { portb = gpio_write s.cs level p.portb }
put_out s (count_is c) p = (spi_write 0 c p).1

unfoldable pub put_all : SpiPins → List Output → Spi → Spi
put_all s [] p = p
put_all s (o ∷ os) p = put_all s os (put_out s o p)

-- The commands `whls cs:0`, `whls cs:1` and `whls cnt`.
pub data Wheel : Type 0 where
  select unselect : Wheel
  count : (spdr : ℕ) → Wheel

abbrev pub argv_of : Wheel → List (List ℕ)
argv_of select = (b'c' ∷ b's' ∷ b':' ∷ b'0' ∷ []) ∷ []
argv_of unselect = (b'c' ∷ b's' ∷ b':' ∷ b'1' ∷ []) ∷ []
argv_of (count spdr) = (b'c' ∷ b'n' ∷ b't' ∷ []) ∷ []

abbrev pub count_of : Wheel → ℕ
count_of select = 0
count_of unselect = 0
count_of (count spdr) = spdr

unfoldable pub whls_calls : SpiPins → List Wheel → Spi → Spi
whls_calls s [] p = p
whls_calls s (w ∷ ws) p = whls_calls s ws (put_all s (whls_m (count_of w) (argv_of w)).1 p)

-- The level of the select pin and the bytes sent after the commands.
abbrev pub level_after : List Wheel → Bool → Bool
level_after [] level = level
level_after (select ∷ ws) level = level_after ws false
level_after (unselect ∷ ws) level = level_after ws true
level_after (count spdr ∷ ws) level = level_after ws level

abbrev pub zeros : List Wheel → List ℕ → List ℕ
zeros [] sent = sent
zeros (select ∷ ws) sent = zeros ws sent
zeros (unselect ∷ ws) sent = zeros ws sent
zeros (count spdr ∷ ws) sent = zeros ws (0 ∷ sent)

-- The pins as they are with the controller of the wheels selected or not; `mode` has the bits of SPCR
-- that were there before the start.
pub record IsWired (s : SpiPins) (level : Bool) (sent : List ℕ) (mode : ℕ → Bool) (p : Spi)
    : Type 0 where
  pub cs : p.portb.port s.cs ≡ level
  pub sck : p.portb.port s.sck ≡ true
  pub mosi : p.portb.port s.mosi ≡ true
  pub cs_out : p.portb.ddr s.cs ≡ true
  pub sck_out : p.portb.ddr s.sck ≡ true
  pub mosi_out : p.portb.ddr s.mosi ≡ true
  pub miso_in : p.portb.ddr s.miso ≡ false
  pub pins_low : (k : ℕ) → k ≢ s.cs → k ≢ s.sck → k ≢ s.mosi → p.portb.port k ≡ false
  pub pins_in : (k : ℕ) → k ≢ s.cs → k ≢ s.sck → k ≢ s.mosi → p.portb.ddr k ≡ false
  pub same_mode : (k : ℕ) → k ≢ s.spe → k ≢ s.mstr → p.spcr k ≡ mode k
  pub enabled : p.spcr s.spe ≡ true
  pub master : p.spcr s.mstr ≡ true
  pub bytes : p.sent ≡ sent

-- The pins of the SPI differ.
pub record AreApart (s : SpiPins) : Type 0 where
  pub cs_sck : s.cs ≢ s.sck
  pub cs_mosi : s.cs ≢ s.mosi
  pub miso_cs : s.miso ≢ s.cs
  pub miso_sck : s.miso ≢ s.sck
  pub miso_mosi : s.miso ≢ s.mosi

spi_start-IsWired :
    (s : SpiPins) (p : Spi) → AreApart s → IsWired s true p.sent p.spcr (spi_start s p)
unfolding spi_start
spi_start-IsWired s p v = record {
  cs = ground arith;
  sck = ground arith;
  mosi = ground arith;
  cs_out = ground arith;
  sck_out = ground arith;
  mosi_out = ground arith;
  miso_in = ground arith;
  pins_low = λ k a b c. ground arith;
  pins_in = λ k a b c. ground arith;
  same_mode = λ k a b. ground arith;
  enabled = ground arith;
  master = ground arith;
  bytes = refl;
}

gpio_write-IsWired :
    (s : SpiPins) (level : Bool) {before : Bool} {sent : List ℕ} {mode : ℕ → Bool} (p : Spi)
    → AreApart s
    → IsWired s before sent mode p
    → IsWired s level sent mode (record p { portb = gpio_write s.cs level p.portb })
unfolding gpio_write
gpio_write-IsWired s level p v w = record {
  cs = ground arith;
  sck = ground (arith, v.cs_sck, w.sck);
  mosi = ground (arith, v.cs_mosi, w.mosi);
  cs_out = w.cs_out;
  sck_out = w.sck_out;
  mosi_out = w.mosi_out;
  miso_in = w.miso_in;
  pins_low = λ k a b c. ground (arith, a, w.pins_low k a b c);
  pins_in = w.pins_in;
  same_mode = w.same_mode;
  enabled = w.enabled;
  master = w.master;
  bytes = w.bytes;
}

spi_write-IsWired :
    (s : SpiPins) (spdr : ℕ) {level : Bool} {sent : List ℕ} {mode : ℕ → Bool} (p : Spi)
    → IsWired s level sent mode p
    → IsWired s level (0 ∷ sent) mode (spi_write 0 spdr p).1
unfolding spi_write
spi_write-IsWired s spdr p w = record {
  cs = w.cs;
  sck = w.sck;
  mosi = w.mosi;
  cs_out = w.cs_out;
  sck_out = w.sck_out;
  mosi_out = w.mosi_out;
  miso_in = w.miso_in;
  pins_low = w.pins_low;
  pins_in = w.pins_in;
  same_mode = w.same_mode;
  enabled = w.enabled;
  master = w.master;
  bytes = ap (λ bytes. 0 ∷ bytes) w.bytes;
}

whls_calls-IsWired :
    (s : SpiPins) (ws : List Wheel) (level : Bool) (sent : List ℕ) {mode : ℕ → Bool} (p : Spi)
    → AreApart s
    → IsWired s level sent mode p
    → IsWired s (level_after ws level) (zeros ws sent) mode (whls_calls s ws p)
unfolding whls_calls put_all put_out whls_m whl_command same_text select_command
whls_calls-IsWired s [] level sent p v w = w
whls_calls-IsWired s (select ∷ ws) level sent p v w =
    whls_calls-IsWired s ws false sent _ v (gpio_write-IsWired s false p v w)
whls_calls-IsWired s (unselect ∷ ws) level sent p v w =
    whls_calls-IsWired s ws true sent _ v (gpio_write-IsWired s true p v w)
whls_calls-IsWired s (count spdr ∷ ws) level sent p v w =
    whls_calls-IsWired s ws level (0 ∷ sent) _ v (spi_write-IsWired s spdr p w)

-- With pins that differ, after the start of the SPI and any sequence of the commands `cs:0`, `cs:1` and
-- `cnt`, the select pin has the level of the last `cs` command, and is high if there was none; every
-- `cnt` has sent one byte 0, and nothing else was sent; the clock and the data pin of the master are
-- high, the three pins of the master are outputs and the other one an input, and the SPI is enabled as
-- master. Every other pin of the port is an input and low, and every other bit of the control register
-- of the SPI is as it was before the start.
pub whls_calls-spi_start :
    (s : SpiPins) (ws : List Wheel) (p : Spi)
    → AreApart s
    → IsWired s (level_after ws true) (zeros ws p.sent) p.spcr (whls_calls s ws (spi_start s p))
whls_calls-spi_start s ws p v =
    whls_calls-IsWired s ws true p.sent (spi_start s p) v (spi_start-IsWired s p v)
