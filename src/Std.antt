-- ===== src/Std.antt =====
-- src/arch/x86_64/std.c: strings to numbers.
pub mod Hex
pub mod Decimal
mod Tests
use rpv_platforms_evt_driven.Base.{
  ℕ, suc, ◌+◌, ◌-◌, ◌*◌, ◌%◌, ◌^◌, ◌==◌, ltb, leb, if◌then◌else◌, Bool, true, false, ◌&&◌, ◌||◌,
  List, [], ◌∷◌, Option, none, some, ℤ, pos, neg,
}

-- The value of a hexadecimal digit, `none` where the loop breaks off.
unfoldable pub hex_digit : ℕ → Option ℕ
hex_digit c =
    if leb b'0' c && leb c b'9'
    then some (c - b'0')
    else if leb b'a' c && leb c b'f'
    then some (c - b'a' + 10)
    else if leb b'A' c && leb c b'F'
    then some (c - b'A' + 10)
    else none

-- The `0`, and the `x` behind it, that `strtoul` skips.
unfoldable pub skip_x : List ℕ → List ℕ
skip_x [] = []
skip_x (c ∷ s) = if (c == b'x') || (c == b'X') then s else c ∷ s

unfoldable pub skip_hex_prefix : List ℕ → List ℕ
skip_hex_prefix [] = []
skip_hex_prefix (c ∷ s) = if c == b'0' then skip_x s else c ∷ s

module _ (width : ℕ) where
  -- The loop of `strtoul`, over the characters before the NUL: the number, in an `unsigned long` of
  -- `width` bits, and the text that is left.
  unfoldable pub hex_loop : (d : ℕ) → List ℕ → ℕ × List ℕ
  hex_loop d [] = (d, [])
  hex_loop d (c ∷ s) = elim (hex_digit c) [
    | none ↦ (d, c ∷ s)
    | some digit ↦ hex_loop ((d * 2 ^ 4 % 2 ^ width + digit) % 2 ^ width) s
  ]

  -- `strtoul` at a string that is there; `__endptr` is the second result.
  unfoldable pub strtoul : List ℕ → (base : ℕ) → ℕ × List ℕ
  strtoul s base = if base == 16 then hex_loop 0 (skip_hex_prefix s) else (0, s)

-- The start of `atol`.
unfoldable pub skip_blanks : List ℕ → List ℕ
skip_blanks [] = []
skip_blanks (c ∷ s) =
    let rest = skip_blanks s in if (c == b' ') || (c == 0x09) || (c == 0x0a) then rest else c ∷ s

unfoldable pub take_sign : List ℕ → Bool × List ℕ
take_sign [] = (false, [])
take_sign (c ∷ s) = if (c == b'+') || (c == b'-') then (c == b'-', s) else (false, c ∷ s)

-- `is_neg ? (-d) : d`
abbrev pub with_sign : (is_neg : Bool) → Option ℕ → Option ℤ
with_sign is_neg none = none
with_sign is_neg (some d) = some (if is_neg then neg d else pos d)

module _ (width : ℕ) where
  -- The loop, in a `long int` of `width` bits; `none` if `d *= 10` or `d += c - '0'` overflows, which C
  -- does not define.
  unfoldable pub decimal_loop : (d : ℕ) → List ℕ → Option ℕ
  decimal_loop d [] = some d
  decimal_loop d (c ∷ s) =
      let next = d * 10 + (c - b'0') in
      let rest = decimal_loop next s in
      if ltb c b'0' || ltb b'9' c
      then some d
      else if ltb (d * 10) (2 ^ (width - 1)) && ltb next (2 ^ (width - 1))
      then rest
      else none

  -- `atol` at a string that is there; `none` where its result is not defined.
  unfoldable pub atol : List ℕ → Option ℤ
  atol s =
      let (is_neg, digits) = take_sign (skip_blanks s) in with_sign is_neg (decimal_loop 0 digits)
