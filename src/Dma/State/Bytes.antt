-- ===== src/Dma/State/Bytes.antt =====
-- `memcpy` in and out of the I/O memory.
use rpv_platforms_evt_driven.Base.{
  ℕ, zero, suc, ◌+◌, ◌≤◌, ◌<◌, ◌≡◌, ◌⊎◌, inl, refl, ap₂, arith, List, [], ◌∷◌, length, ◌==◌,
  if◌then◌else◌,
}
use rpv_platforms_evt_driven.Dma.State.{copy_in, copy_out}

-- Nothing outside the target changes.
pub copy_in_outside :
    (m : ℕ → ℕ) (a : ℕ) (bs : List ℕ) (x : ℕ)
    → (x < a) ⊎ (a + length bs ≤ x)
    → copy_in m a bs x ≡ m x
unfolding copy_in
copy_in_outside m a [] x h = refl
copy_in_outside m a (b ∷ bs) x h =
    ground (arith, copy_in_outside (λ y. if y == a then b else m y) (a + 1) bs x (omega arith))

-- Two memories that agree on a range give the same bytes.
pub copy_out-eq :
    (m m' : ℕ → ℕ) (a n : ℕ)
    → ((x : ℕ) → a ≤ x → x < a + n → m x ≡ m' x)
    → copy_out m a n ≡ copy_out m' a n
unfolding copy_out
copy_out-eq m m' a zero h = refl
copy_out-eq m m' a (suc n) h =
    ap₂ ◌∷◌ (h a (omega arith) (omega arith))
      (copy_out-eq m m' (a + 1) n (λ x p q. h x (omega arith) (omega arith)))

-- What was copied in is read back.
pub copy_out-copy_in :
    (m : ℕ → ℕ) (a : ℕ) (bs : List ℕ) → copy_out (copy_in m a bs) a (length bs) ≡ bs
unfolding copy_in copy_out
copy_out-copy_in m a [] = refl
copy_out-copy_in m a (b ∷ bs) =
    let m' : ℕ → ℕ = λ y. if y == a then b else m y in
    ap₂ ◌∷◌ (ground (arith, copy_in_outside m' (a + 1) bs a (inl (omega arith))))
      (copy_out-copy_in m' (a + 1) bs)
