-- ===== src/Uart/Avr/Tests.antt =====
-- Runs of the AVR's service, and the theorems at concrete rings.
use rpv_platforms_evt_driven.Base.{◌≡◌, refl, arith, [], ◌∷◌, some}
use rpv_platforms_evt_driven.Base.Index.{next_index}
use rpv_platforms_evt_driven.Uart.Ring.{Ring, read_char}
use rpv_platforms_evt_driven.Uart.Ring.Refine.{IsValid}
use rpv_platforms_evt_driven.Uart.Avr.{ErrorBits, service}

-- "l!s", with its storage gone round.
abbrev typed : Ring
typed = record { buf = b's' ∷ 0 ∷ 0 ∷ 0 ∷ 0 ∷ 0 ∷ b'l' ∷ b'!' ∷ []; head = 6; tail = 1 }

-- The ATmega328p's numbers.
abbrev bits : ErrorBits
bits = record { fe0 = 4; dor0 = 3 }

typed-IsValid : IsValid typed
typed-IsValid = omega arith

service-typed : service typed ≡ some (b'l' ∷ b's' ∷ [], record typed { head = 1 })
unfolding service read_char next_index
service-typed = refl
