-- ===== src/Std/Tests.antt =====
-- Runs of the number readers and uses of their theorems.
use rpv_platforms_evt_driven.Base.{
  ◌%◌, ◌^◌, ◌≡◌, refl, arith, false, none, some, [], ◌∷◌, ◌++◌, neg,
}
use rpv_platforms_evt_driven.Std.{
  hex_digit, hex_loop, strtoul, skip_hex_prefix, skip_x, atol, decimal_loop, skip_blanks, take_sign,
}
use rpv_platforms_evt_driven.Std.Hex.{hex_text, strtoul-hex_text}
use rpv_platforms_evt_driven.Std.Hex
use rpv_platforms_evt_driven.Std.Decimal.{
  decimal_text, Sign, minus, signed_text, IsBlank, a_space, none_left, atol-decimal_text,
}
use rpv_platforms_evt_driven.Std.Decimal

-- "0xB00" without a prefix, then a colon.
strtoul_b00 : strtoul 32 (b'B' ∷ b'0' ∷ b'0' ∷ b':' ∷ []) 16 ≡ (0xb00, b':' ∷ [])
unfolding strtoul hex_loop hex_digit skip_hex_prefix skip_x
strtoul_b00 = refl

atol_negative : atol 64 (b' ' ∷ b'-' ∷ b'4' ∷ b'2' ∷ b';' ∷ []) ≡ some (neg 42)
unfolding atol decimal_loop skip_blanks take_sign
atol_negative = refl

no_digit : hex_digit b':' ≡ none
unfolding hex_digit
no_digit = refl

strtoul-hex_text_example :
    strtoul 32 (b'0' ∷ b'x' ∷ hex_text false 2 0xb0 ++ (b':' ∷ [])) 16 ≡ (0xb0 % 2 ^ 32, b':' ∷ [])
strtoul-hex_text_example =
    strtoul-hex_text 32 false 2 0xb0 (b':' ∷ []) (omega arith) (Hex.at_char no_digit)

-- 2 ^ 7 does not fit eight bits.
atol_overflow : atol 8 (b'1' ∷ b'2' ∷ b'8' ∷ []) ≡ none
unfolding atol decimal_loop skip_blanks take_sign
atol_overflow = refl

atol-decimal_text_example :
    atol 64 ((b' ' ∷ []) ++ signed_text minus (decimal_text 2 42 ++ (b';' ∷ []))) ≡ some (neg 42)
atol-decimal_text_example =
    atol-decimal_text 64 (b' ' ∷ []) minus 1 42 (b';' ∷ []) (a_space none_left) (omega arith)
      (omega arith) (Decimal.at_char refl)
