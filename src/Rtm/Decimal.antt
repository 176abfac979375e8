-- ===== src/Rtm/Decimal.antt =====
-- The conversion from BCD.
use rpv_platforms_evt_driven.Base.{
  ℕ, zero, suc, ◌+◌, ◌*◌, ◌/◌, ◌%◌, ◌^◌, ◌≤◌, ◌<◌, ◌≡◌, refl, ap, ap₂, ◌∙◌, arith, ◌==◌, Bool-cases,
  ==_iff, inl, inr, some, List, [], ◌∷◌, length,
}
use rpv_platforms_evt_driven.Rtm.{bcd_loop, bcd_to_dec}

-- Decimal digits, the lowest first.
pub data Digits : List ℕ → Type 0 where
  no_digit : Digits []
  digit : {d : ℕ} {ds : List ℕ} → d < 10 → Digits ds → Digits (d ∷ ds)

-- The number of the digits, and its BCD code.
abbrev pub decimal : List ℕ → ℕ
decimal [] = 0
decimal (d ∷ ds) = d + 10 * decimal ds

abbrev pub bcd : List ℕ → ℕ
bcd [] = 0
bcd (d ∷ ds) = d + 16 * bcd ds

decimal-zero : (ds : List ℕ) → bcd ds ≡ 0 → decimal ds ≡ 0
decimal-zero [] h = refl
decimal-zero (d ∷ ds) h = let rest = decimal-zero ds (omega arith) in omega arith

split : (b d r : ℕ) → b * (d + 10 * r) ≡ d * b + b * 10 * r
split b d r = grind arith

zero_more : (base dec : ℕ) → dec ≡ dec + base * 0
zero_more base dec = grind arith

bcd_loop_lem :
    (ds : List ℕ) (rounds base dec : ℕ)
    → Digits ds
    → length ds < rounds
    → dec + base * decimal ds < 2 ^ 32
    → bcd_loop rounds base dec (bcd ds) ≡ some (dec + base * decimal ds)
unfolding bcd_loop
bcd_loop_lem ds zero base dec v more fits = absurd (omega arith)
bcd_loop_lem [] (suc rounds) base dec v more fits = ap some (zero_more base dec)
bcd_loop_lem (d ∷ ds) (suc rounds) base dec (digit low v) more fits =
    let time = d + 16 * bcd ds in
    let r = decimal ds in
    let parts = split base d r in
    let low_digit : time % 2 ^ 4 ≡ d = omega (arith, low) in
    let others : time / 2 ^ 4 ≡ bcd ds = omega (arith, low) in
    let next : (dec + time % 2 ^ 4 * base % 2 ^ 32) % 2 ^ 32 ≡ dec + d * base =
      ap (λ k. (dec + k * base % 2 ^ 32) % 2 ^ 32) low_digit ∙ omega (arith, parts, fits) in
    elim (Bool-cases (time == 0)) [
      | inl none_left ↦
          let nothing : time ≡ 0 = (==_iff time 0).0 none_left in
          let rest = decimal-zero ds (omega (arith, nothing)) in
          let value : 0 ≡ d + 10 * r = omega (arith, nothing, rest) in
          rw (none_left, bcd_loop)
            (ap some (zero_more base dec) ∙ ap (λ k. some (dec + base * k)) value)
      | inr some_left ↦
          rw (some_left, bcd_loop)
            (ap₂ (λ x t. bcd_loop rounds (base * 10) x t) next others
              ∙ bcd_loop_lem ds rounds (base * 10) (dec + d * base) v (omega (arith, more))
                  (omega (arith, parts, fits))
              ∙ ap some (omega (arith, parts)))
    ]

abbrev power_of_ten : ℕ → ℕ
power_of_ten zero = 1
power_of_ten (suc n) = 10 * power_of_ten n

power_of_ten-pos : (n : ℕ) → 0 < power_of_ten n
power_of_ten-pos zero = omega arith
power_of_ten-pos (suc n) = omega (arith, power_of_ten-pos n)

decimal-lt : (ds : List ℕ) (n : ℕ) → Digits ds → length ds ≤ n → decimal ds < power_of_ten n
decimal-lt [] n v few = power_of_ten-pos n
decimal-lt (d ∷ ds) zero v few = absurd (omega arith)
decimal-lt (d ∷ ds) (suc n) (digit low v) few = omega (arith, low, decimal-lt ds n v (omega arith))

-- The BCD code of a number of at most eight decimal digits, the leading digits zero or not, is
-- converted to that number; the loop ends.
pub bcd_to_dec-bcd :
    (ds : List ℕ) → Digits ds → length ds ≤ 8 → bcd_to_dec (bcd ds) ≡ some (decimal ds)
unfolding bcd_to_dec
bcd_to_dec-bcd ds v few =
    bcd_loop_lem ds 9 1 0 v (omega arith) (omega (arith, decimal-lt ds 8 v few))
    ∙ ap some (omega arith)
