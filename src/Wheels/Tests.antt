-- ===== src/Wheels/Tests.antt =====
-- Runs of the wheels' shell command.
use rpv_platforms_evt_driven.Base.{ℕ, ◌≡◌, refl, arith, false, List, [], ◌∷◌, pos}
use rpv_platforms_evt_driven.Wheels.{
  whl_command, same_text, select_command, selected, select_pin, whls_m,
}
use rpv_platforms_evt_driven.Wheels.Port.{SpiPins, Spi, spi_start}
use rpv_platforms_evt_driven.Wheels.Select.{
  select, unselect, count, whls_calls, IsWired, AreApart, whls_calls-spi_start,
}

-- whls cs:0
whls_select :
    whls_m 7 ((b'c' ∷ b's' ∷ b':' ∷ b'0' ∷ []) ∷ []) ≡ (pos 0, selected ∷ select_pin false ∷ [])
unfolding whls_m whl_command same_text select_command
whls_select = refl

-- A word of four letters takes five bytes.
abbrev spin : List ℕ
spin = b's' ∷ b'p' ∷ b'i' ∷ b'n' ∷ []

abbrev pins : SpiPins
pins = record { cs = 2; sck = 5; miso = 4; mosi = 3; spe = 6; mstr = 4 }

abbrev idle : Spi
idle = record {
  portb = record { pin = λ _. false; port = λ _. false; ddr = λ _. false };
  spcr = λ _. false;
  sent = [];
}

pins-AreApart : AreApart pins
pins-AreApart = record {
  cs_sck = omega arith;
  cs_mosi = omega arith;
  miso_cs = omega arith;
  miso_sck = omega arith;
  miso_mosi = omega arith;
}

-- whls cs:0, whls cnt, whls cs:1, whls cnt, whls cs:0
whls_calls-spi_start_example :
    IsWired pins false
      (0 ∷ 0 ∷ [])
      (λ _. false)
      (whls_calls pins (select ∷ count 7 ∷ unselect ∷ count 9 ∷ select ∷ []) (spi_start pins idle))
whls_calls-spi_start_example =
    whls_calls-spi_start pins (select ∷ count 7 ∷ unselect ∷ count 9 ∷ select ∷ []) idle
      pins-AreApart
