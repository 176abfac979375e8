-- ===== src/Base/Bits.antt =====
-- Bit fields of registers: the fields of a C bit-field struct from bit 0 upwards.
use Prim.Native.Nat.{ℕ, ◌/◌, ◌%◌, ◌^◌, ◌<◌}
use mathlib.Core.Bool.{Bool, true, false}
use mathlib.Core.Path.{◌≡◌}
use native.Mathlib.Omega.{arith}
use rpv_platforms_evt_driven.Base.Tests.{◌==◌}

-- The value of a one-bit field.
abbrev pub to_bit : Bool → ℕ
to_bit true = 1
to_bit false = 0

-- `w` bits of `reg` from bit `k` on.
abbrev pub field : (reg k w : ℕ) → ℕ
field reg k w = reg / 2 ^ k % 2 ^ w

-- Bit `k` of `reg`.
abbrev pub bit_at : (reg k : ℕ) → Bool
bit_at reg k = reg / 2 ^ k % 2 == 1

pub to_bit_lt : (b : Bool) → to_bit b < 2
to_bit_lt true = omega arith
to_bit_lt false = omega arith

-- Arithmetic on words that are put together from fields.
pub ruleset bits = (arith, to_bit_lt)

pub bit_at_of : (reg k : ℕ) (b : Bool) → reg / 2 ^ k % 2 ≡ to_bit b → bit_at reg k ≡ b
bit_at_of reg k true e = ground arith
bit_at_of reg k false e = ground arith
