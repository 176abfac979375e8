-- ===== src/Base/Loop.antt =====
-- A counted loop over a state, and its rule.
use Prim.Native.Nat.{ℕ, zero, suc, ◌+◌}
use mathlib.Core.Path.{◌≡◌, subst}
use native.Mathlib.Omega.{arith}

-- `for (i = first; i < first + rounds; i++) s = body(i, s);`
unfoldable pub count_up {ℓ} : {S : Type ℓ} → (rounds first : ℕ) → (ℕ → S → S) → S → S
count_up zero first body s = s
count_up (suc rounds) first body s = count_up rounds (first + 1) body (body first s)

-- An invariant that each round carries on holds at the end.
module _ {ℓ κ} {S : Type ℓ} (P : ℕ → S → Type κ) (body : ℕ → S → S) where
  abbrev Carried : Type (ℓ ⊔ κ)
  Carried = (at : ℕ) (now : S) → P at now → P (at + 1) (body at now)

  pub count_up_inv :
      Carried
      → (rounds first stop : ℕ) (now : S) → first + rounds ≡ stop
      → P first now
      → P stop (count_up rounds first body now)
  unfolding count_up
  count_up_inv carry zero first stop now e h = subst (λ k. P k now) {x = first} (omega arith) h
  count_up_inv carry (suc rounds) first stop now e h =
      count_up_inv carry rounds (first + 1) stop (body first now) (omega arith) (carry first now h)
