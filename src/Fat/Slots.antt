-- ===== src/Fat/Slots.antt =====
-- The slots of the table of open files: their count and the search for a free one.
use rpv_platforms_evt_driven.Base.{
  ℕ, zero, suc, ◌+◌, ◌≤◌, ◌<◌, ◌≡◌, ◌≢◌, refl, sym, ap, arith, List, [], ◌∷◌, length, get_or, set,
  replicate, Option, none, some,
}
use mathlib.Core.Option.{none-ne-some, some-ne-none}
use rpv_platforms_evt_driven.Fat.Table.{find_free}

-- How many slots are in use.
unfoldable pub used : List (Option ℕ) → ℕ
used [] = 0
used (none ∷ slots) = used slots
used (some p ∷ slots) = suc (used slots)

pub used-le : (slots : List (Option ℕ)) → used slots ≤ length slots
unfolding used
used-le [] = omega arith
used-le (none ∷ slots) = omega (arith, used-le slots)
used-le (some p ∷ slots) = omega (arith, used-le slots)

pub find_free-lt :
    (slots : List (Option ℕ)) → used slots < length slots → find_free slots < length slots
unfolding used find_free
find_free-lt [] h = h
find_free-lt (none ∷ slots) h = omega arith
find_free-lt (some p ∷ slots) h = omega (arith, find_free-lt slots (omega (arith, h)))

pub find_free_lem : (slots : List (Option ℕ)) → get_or slots (find_free slots) none ≡ none
unfolding find_free
find_free_lem [] = refl
find_free_lem (none ∷ slots) = refl
find_free_lem (some p ∷ slots) = find_free_lem slots

-- All slots before the one that is found are in use.
pub find_free-first :
    (slots : List (Option ℕ)) (i : ℕ) → i < find_free slots → get_or slots i none ≢ none
unfolding find_free
find_free-first [] i b = absurd (omega (arith, b))
find_free-first (none ∷ slots) i b = absurd (omega (arith, b))
find_free-first (some p ∷ slots) zero b = some-ne-none p
find_free-first (some p ∷ slots) (suc i) b = find_free-first slots i (omega (arith, b))

pub used-set-some :
    (slots : List (Option ℕ)) (i p : ℕ)
    → i < length slots
    → get_or slots i none ≡ none
    → used (set slots i (some p)) ≡ used slots + 1
unfolding used
used-set-some [] i p b free = absurd (omega (arith, b))
used-set-some (none ∷ slots) zero p b free = omega arith
used-set-some (some q ∷ slots) zero p b free = absurd (some-ne-none q free)
used-set-some (none ∷ slots) (suc i) p b free = used-set-some slots i p (omega (arith, b)) free
used-set-some (some q ∷ slots) (suc i) p b free =
    omega (arith, used-set-some slots i p (omega (arith, b)) free)

pub used-set-none :
    (slots : List (Option ℕ)) (i p : ℕ)
    → get_or slots i none ≡ some p
    → used (set slots i none) + 1 ≡ used slots
unfolding used
used-set-none [] i p taken = absurd (none-ne-some p taken)
used-set-none (none ∷ slots) zero p taken = absurd (none-ne-some p taken)
used-set-none (some q ∷ slots) zero p taken = omega arith
used-set-none (none ∷ slots) (suc i) p taken = used-set-none slots i p taken
used-set-none (some q ∷ slots) (suc i) p taken = omega (arith, used-set-none slots i p taken)

-- Two writes of a slot are the last one, and writing what is there changes nothing.
pub set-set :
    (slots : List (Option ℕ)) (i : ℕ) (v w : Option ℕ)
    → get_or slots i none ≡ w
    → set (set slots i v) i w ≡ slots
set-set [] i v w h = refl
set-set (x ∷ slots) zero v w h = ap (λ y. y ∷ slots) (sym h)
set-set (x ∷ slots) (suc i) v w h = ap (λ t. x ∷ t) (set-set slots i v w h)

pub used-replicate : (n : ℕ) → used (replicate n none) ≡ 0
unfolding used
used-replicate zero = refl
used-replicate (suc n) = used-replicate n

pub get_or-replicate : (n i : ℕ) → get_or (replicate {A = Option ℕ} n none) i none ≡ none
get_or-replicate zero i = refl
get_or-replicate (suc n) zero = refl
get_or-replicate (suc n) (suc i) = get_or-replicate n i

pub get_or-set-none : (slots : List (Option ℕ)) (i : ℕ) → get_or (set slots i none) i none ≡ none
get_or-set-none [] i = refl
get_or-set-none (x ∷ slots) zero = refl
get_or-set-none (x ∷ slots) (suc i) = get_or-set-none slots i
