-- ===== src/Std/Decimal.antt =====
-- `atol` reads back decimal numbers.
use rpv_platforms_evt_driven.Base.{
  ℕ, zero, suc, ◌+◌, ◌-◌, ◌*◌, ◌/◌, ◌%◌, ◌^◌, ◌<◌, ◌≡◌, refl, ap, ◌∙◌, arith, Bool, true, false,
  ◌||◌, ltb, if◌then◌else◌, List, [], ◌∷◌, ◌++◌, append_assoc, ℤ, pos, neg, some,
}
use rpv_platforms_evt_driven.Std.{decimal_loop, skip_blanks, take_sign, with_sign, atol}
use native.Mathlib.Nat.{mul_assoc, pow-suc}

-- The last `k` decimal digits of `n`.
abbrev pub decimal_text : (k n : ℕ) → List ℕ
decimal_text zero n = []
decimal_text (suc k) n = decimal_text k (n / 10) ++ ((b'0' + n % 10) ∷ [])

-- A minus sign for a negative number, an optional plus sign for others.
pub data Sign : Type 0 where
  plus no_sign minus : Sign

abbrev pub signed_text : Sign → List ℕ → List ℕ
signed_text plus s = b'+' ∷ s
signed_text minus s = b'-' ∷ s
signed_text no_sign s = s

abbrev pub signed : Sign → ℕ → ℤ
signed minus n = neg n
signed plus n = pos n
signed no_sign n = pos n

abbrev is_minus : Sign → Bool
is_minus minus = true
is_minus plus = false
is_minus no_sign = false

-- Text on which the loop stops.
pub data Ends : List ℕ → Type 0 where
  at_end : Ends []
  at_char : {c : ℕ} {s : List ℕ} → ltb c b'0' || ltb b'9' c ≡ true → Ends (c ∷ s)

-- Blanks, tabs and line feeds.
pub data IsBlank : List ℕ → Type 0 where
  none_left : IsBlank []
  a_space : {s : List ℕ} → IsBlank s → IsBlank (b' ' ∷ s)
  a_tab : {s : List ℕ} → IsBlank s → IsBlank (0x09 ∷ s)
  a_line_feed : {s : List ℕ} → IsBlank s → IsBlank (0x0a ∷ s)

decimal_loop-Ends : (width d : ℕ) (rest : List ℕ) → Ends rest → decimal_loop width d rest ≡ some d
unfolding decimal_loop
decimal_loop-Ends width d [] at_end = refl
decimal_loop-Ends width d (c ∷ s) (at_char h) = rw (h, decimal_loop) refl

decimal_loop-digit :
    (width d v : ℕ) (s : List ℕ)
    → v < 10
    → d * 10 + v < 2 ^ (width - 1)
    → decimal_loop width d ((b'0' + v) ∷ s) ≡ decimal_loop width (d * 10 + v) s
unfolding decimal_loop
decimal_loop-digit width d v s b fits =
    ground (
      arith,
      ap (λ e. decimal_loop width (d * 10 + e) s) {x = b'0' + v - b'0'} {y = v} (omega arith),
    )

decimal_loop-decimal_text :
    (width k n d : ℕ) (rest : List ℕ)
    → n < 10 ^ k
    → d * 10 ^ k + n < 2 ^ (width - 1)
    → decimal_loop width d (decimal_text k n ++ rest) ≡ decimal_loop width (d * 10 ^ k + n) rest
decimal_loop-decimal_text width zero n d rest b fits =
    ap (λ e. decimal_loop width e rest) {x = d} {y = d * 10 ^ 0 + n} (omega (arith, b))
decimal_loop-decimal_text width (suc k) n d rest b fits =
    rw (append_assoc (decimal_text k (n / 10))) (
      decimal_loop-decimal_text width k (n / 10) d ((b'0' + n % 10) ∷ rest) high
        (omega (arith, fits, whole))
      ∙ (decimal_loop-digit width (d * 10 ^ k + n / 10) (n % 10) rest (omega arith)
            (omega (arith, fits, whole))
          ∙ ap (λ e. decimal_loop width e rest) {x = (d * 10 ^ k + n / 10) * 10 + n % 10}
              {y = d * 10 ^ suc k + n} whole))
  where
    high : n / 10 < 10 ^ k
    high = omega (arith, b, pow-suc 10 k)

    whole : (d * 10 ^ k + n / 10) * 10 + n % 10 ≡ d * 10 ^ suc k + n
    whole = omega (arith, ap (λ p. d * p) (pow-suc 10 k), mul_assoc d (10 ^ k) 10)

skip_blanks-append : (bs s : List ℕ) → IsBlank bs → skip_blanks s ≡ s → skip_blanks (bs ++ s) ≡ s
unfolding skip_blanks
skip_blanks-append [] s none_left h = h
skip_blanks-append (_ ∷ bs) s (a_space b) h = skip_blanks-append bs s b h
skip_blanks-append (_ ∷ bs) s (a_tab b) h = skip_blanks-append bs s b h
skip_blanks-append (_ ∷ bs) s (a_line_feed b) h = skip_blanks-append bs s b h

-- Text that begins with a digit.
data IsNumber : List ℕ → Type 0 where
  a_number : {v : ℕ} {s : List ℕ} → v < 10 → IsNumber ((b'0' + v) ∷ s)

append-IsNumber : {s : List ℕ} (t : List ℕ) → IsNumber s → IsNumber (s ++ t)
append-IsNumber t (a_number b) = a_number b

decimal_text-IsNumber : (k n : ℕ) → IsNumber (decimal_text (suc k) n)
decimal_text-IsNumber zero n = a_number (omega arith)
decimal_text-IsNumber (suc k) n =
    append-IsNumber ((b'0' + n % 10) ∷ []) (decimal_text-IsNumber k (n / 10))

skip_blanks-signed_text :
    (sign : Sign) {s : List ℕ} → IsNumber s → skip_blanks (signed_text sign s) ≡ signed_text sign s
unfolding skip_blanks
skip_blanks-signed_text plus h = refl
skip_blanks-signed_text minus h = refl
skip_blanks-signed_text no_sign (a_number b) = ground arith

take_sign-signed_text :
    (sign : Sign) {s : List ℕ} → IsNumber s → take_sign (signed_text sign s) ≡ (is_minus sign, s)
unfolding take_sign
take_sign-signed_text plus h = refl
take_sign-signed_text minus h = refl
take_sign-signed_text no_sign (a_number b) = ground arith

signed_lem : (sign : Sign) (n : ℕ) → (if is_minus sign then neg n else pos n) ≡ signed sign n
signed_lem plus n = refl
signed_lem no_sign n = refl
signed_lem minus n = refl

atol_value :
    (width n : ℕ) (s digits : List ℕ) (is_neg : Bool)
    → take_sign (skip_blanks s) ≡ (is_neg, digits)
    → decimal_loop width 0 digits ≡ some n
    → atol width s ≡ some (if is_neg then neg n else pos n)
unfolding atol
atol_value width n s digits is_neg signs value =
    ap (λ (p : Bool × List ℕ). with_sign p.0 (decimal_loop width 0 p.1)) signs
    ∙ ap (with_sign is_neg) value

-- For a `long int` of any width, `atol` reads blanks, a sign or none, and the digits of a number below
-- 10 ^ (k + 1) that is not above the greatest `long int` as that number, without an overflow, and
-- ignores text behind them that begins with no digit.
pub atol-decimal_text :
    (width : ℕ) (bs : List ℕ) (sign : Sign) (k n : ℕ) (rest : List ℕ)
    → IsBlank bs
    → n < 10 ^ suc k
    → n < 2 ^ (width - 1)
    → Ends rest
    → atol width (bs ++ signed_text sign (decimal_text (suc k) n ++ rest)) ≡ some (signed sign n)
atol-decimal_text width bs sign k n rest blank b fits e =
    atol_value width n (bs ++ text) (decimal_text (suc k) n ++ rest) (is_minus sign)
      (ap take_sign (skip_blanks-append bs text blank (skip_blanks-signed_text sign number))
        ∙ take_sign-signed_text sign number)
      value
    ∙ ap some (signed_lem sign n)
  where
    text : List ℕ
    text = signed_text sign (decimal_text (suc k) n ++ rest)

    number : IsNumber (decimal_text (suc k) n ++ rest)
    number = append-IsNumber rest (decimal_text-IsNumber k n)

    value : decimal_loop width 0 (decimal_text (suc k) n ++ rest) ≡ some n
    value =
        decimal_loop-decimal_text width (suc k) n 0 rest b (omega (arith, fits))
        ∙ (decimal_loop-Ends width (0 * 10 ^ suc k + n) rest e ∙ ap some (omega arith))
