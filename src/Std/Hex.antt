-- ===== src/Std/Hex.antt =====
-- `strtoul` reads back hexadecimal numbers.
use rpv_platforms_evt_driven.Base.{
  ℕ, zero, suc, ◌+◌, ◌-◌, ◌*◌, ◌/◌, ◌%◌, ◌^◌, ◌<◌, ◌≡◌, refl, sym, ap, ◌∙◌, arith, Bool, true,
  false, ltb, if◌then◌else◌, List, [], ◌∷◌, ◌++◌, append_assoc, none, some,
}
use rpv_platforms_evt_driven.Std.{hex_digit, hex_loop, strtoul, skip_hex_prefix, skip_x}
use native.Mathlib.Nat.{
  mod-add-mod, add-mul-mod_self_left, div-add-mod, mul_assoc, zero-mod, pow-suc,
}

-- The digit of a value below 16.
abbrev pub hex_char : (upper : Bool) → ℕ → ℕ
hex_char upper v = if ltb v 10 then b'0' + v else (if upper then b'A' else b'a') + (v - 10)

-- The last `k` hexadecimal digits of `n`.
abbrev pub hex_text : (upper : Bool) (k n : ℕ) → List ℕ
hex_text upper zero n = []
hex_text upper (suc k) n = hex_text upper k (n / 16) ++ (hex_char upper (n % 16) ∷ [])

-- Text on which the loop stops.
pub data Ends : List ℕ → Type 0 where
  at_end : Ends []
  at_char : {c : ℕ} {s : List ℕ} → hex_digit c ≡ none → Ends (c ∷ s)

hex_digit-hex_char : (upper : Bool) (v : ℕ) → v < 16 → hex_digit (hex_char upper v) ≡ some v
unfolding hex_digit
hex_digit-hex_char true v b = ground arith
hex_digit-hex_char false v b = ground arith

-- One round computes modulo `m`.
shift_mod : (x v m : ℕ) → ((x % m) * 16 % m + v) % m ≡ (x * 16 + v) % m
shift_mod x v m =
    mod-add-mod (x % m * 16) m v
    ∙ (sym (add-mul-mod_self_left (x % m * 16 + v) m (x / m * 16))
        ∙ ap (λ y. y % m) {x = x % m * 16 + v + m * (x / m * 16)} {y = x * 16 + v} split)
  where
    split : x % m * 16 + v + m * (x / m * 16) ≡ x * 16 + v
    split = omega (arith, div-add-mod x m, mul_assoc m (x / m) 16)

hex_loop-digit :
    (width d c v : ℕ) (s : List ℕ)
    → hex_digit c ≡ some v
    → hex_loop width (d % 2 ^ width) (c ∷ s) ≡ hex_loop width ((d * 16 + v) % 2 ^ width) s
unfolding hex_loop
hex_loop-digit width d c v s digit = rw (digit, hex_loop) (rw (shift_mod d v (2 ^ width)) refl)

hex_loop-hex_text :
    (width : ℕ) (upper : Bool) (k n d : ℕ) (rest : List ℕ)
    → n < 16 ^ k
    → hex_loop width (d % 2 ^ width) (hex_text upper k n ++ rest)
      ≡ hex_loop width ((d * 16 ^ k + n) % 2 ^ width) rest
unfolding hex_loop
hex_loop-hex_text width upper zero n d rest b =
    ap (λ e. hex_loop width (e % 2 ^ width) rest) {x = d} {y = d * 16 ^ 0 + n} (omega (arith, b))
hex_loop-hex_text width upper (suc k) n d rest b = rw (append_assoc (hex_text upper k (n / 16))) (
    hex_loop-hex_text width upper k (n / 16) d (hex_char upper (n % 16) ∷ rest) high
    ∙ (hex_loop-digit width (d * 16 ^ k + n / 16) (hex_char upper (n % 16)) (n % 16) rest
          (hex_digit-hex_char upper (n % 16) (omega arith))
        ∙ ap (λ e. hex_loop width (e % 2 ^ width) rest) {x = (d * 16 ^ k + n / 16) * 16 + n % 16}
            {y = d * 16 ^ suc k + n}
            (omega (arith, ap (λ p. d * p) (pow-suc 16 k), mul_assoc d (16 ^ k) 16))))
  where
    high : n / 16 < 16 ^ k
    high = omega (arith, b, pow-suc 16 k)

hex_loop-Ends : (width d : ℕ) (rest : List ℕ) → Ends rest → hex_loop width d rest ≡ (d, rest)
unfolding hex_loop
hex_loop-Ends width d [] at_end = refl
hex_loop-Ends width d (c ∷ s) (at_char no_digit) = rw (no_digit, hex_loop) refl

-- `strtoul` reads `k` hexadecimal digits behind `0x`, in either case, of a number below 16 ^ k, modulo
-- the size of an `unsigned long`, and leaves the text behind them, if that begins with no digit.
pub strtoul-hex_text :
    (width : ℕ) (upper : Bool) (k n : ℕ) (rest : List ℕ)
    → n < 16 ^ k
    → Ends rest
    → strtoul width (b'0' ∷ b'x' ∷ hex_text upper k n ++ rest) 16 ≡ (n % 2 ^ width, rest)
unfolding strtoul skip_hex_prefix skip_x
strtoul-hex_text width upper k n rest b e =
    ap (λ d. hex_loop width d (hex_text upper k n ++ rest)) {x = 0} {y = 0 % 2 ^ width}
      (sym (zero-mod (2 ^ width)))
    ∙ (hex_loop-hex_text width upper k n 0 rest b
        ∙ (hex_loop-Ends width ((0 * 16 ^ k + n) % 2 ^ width) rest e
            ∙ ap (λ d. (d % 2 ^ width, rest)) {x = 0 * 16 ^ k + n} {y = n} (omega arith)))
