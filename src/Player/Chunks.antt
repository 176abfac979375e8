-- ===== src/Player/Chunks.antt =====
-- The chunks in which a file is played: lists cut in pieces, and a piece in memory behind which
-- the buffer is filled up.
use rpv_platforms_evt_driven.Base.{
  ℕ, zero, suc, ◌+◌, ◌-◌, ◌%◌, ◌^◌, ◌≤◌, ◌<◌, ◌≡◌, refl, ap, ◌∙◌, inl, inr, ap₂, ◌⊎◌, arith, ltb,
  if◌then◌else◌, List, [], ◌∷◌, ◌++◌, length, take, drop, replicate,
}
use rpv_platforms_evt_driven.Dma.State.{copy_in, copy_out}
use rpv_platforms_evt_driven.Dma.State.Bytes.{copy_in_outside, copy_out-eq, copy_out-copy_in}
use rpv_platforms_evt_driven.Dma.Sound.{fill}
use rpv_platforms_evt_driven.Dma.Sound.Laws.{fill_lem}

-- The smaller one of two numbers.
abbrev pub smaller : ℕ → ℕ → ℕ
smaller zero p = zero
smaller (suc k) zero = zero
smaller (suc k) (suc p) = suc (smaller k p)

pub smaller_lem : (k p : ℕ) → (if ltb k p then k else p) ≡ smaller k p
smaller_lem zero p = ground arith
smaller_lem (suc k) zero = ground arith
smaller_lem (suc k) (suc p) = ground (arith, smaller_lem k p)

module _ {ℓ} {A : Type ℓ} where
  pub take-smaller : (k p : ℕ) (xs : List A) → take (smaller k p) xs ≡ take k (take p xs)
  take-smaller zero p xs = refl
  take-smaller (suc k) zero xs = refl
  take-smaller (suc k) (suc p) [] = refl
  take-smaller (suc k) (suc p) (x ∷ xs) = ap (λ ys. x ∷ ys) (take-smaller k p xs)

  take-nil : (n : ℕ) → take {A = A} n [] ≡ []
  take-nil zero = refl
  take-nil (suc n) = refl

  pub smaller-le : (k p : ℕ) (xs : List A) → length (take (smaller k p) xs) ≤ p
  smaller-le zero p xs = omega arith
  smaller-le (suc k) zero xs = omega arith
  smaller-le (suc k) (suc p) [] = omega arith
  smaller-le (suc k) (suc p) (x ∷ xs) = omega (arith, smaller-le k p xs)

  pub drop-smaller :
      (k p : ℕ) (xs : List A)
      → take (p - length (take (smaller k p) xs)) (drop (smaller k p) xs) ≡ drop k (take p xs)
  drop-smaller zero p xs = ap (λ q. take q xs) (omega arith)
  drop-smaller (suc k) zero xs = refl
  drop-smaller (suc k) (suc p) [] = take-nil (suc p - 0)
  drop-smaller (suc k) (suc p) (x ∷ xs) =
      let less : suc p - suc (length (take (smaller k p) xs)) ≡ p - length (take (smaller k p) xs) =
        omega arith in
      ap (λ q. take q (drop (smaller k p) xs)) less ∙ drop-smaller k p xs

  pub length-take-le : (n : ℕ) (xs : List A) → length (take n xs) ≤ n
  length-take-le zero xs = omega arith
  length-take-le (suc n) [] = omega arith
  length-take-le (suc n) (x ∷ xs) = omega (arith, length-take-le n xs)

  pub length-take : (n : ℕ) (xs : List A) → n ≤ length xs → length (take n xs) ≡ n
  length-take zero xs h = refl
  length-take (suc n) [] h = absurd (omega arith)
  length-take (suc n) (x ∷ xs) h = ap suc (length-take n xs (omega arith))

  pub length-zero : (xs : List A) → length xs ≡ 0 → xs ≡ []
  length-zero [] h = refl
  length-zero (x ∷ xs) h = absurd (omega arith)

  pub length-drop : (n : ℕ) (xs : List A) → length (drop n xs) ≡ length xs - n
  length-drop zero xs = omega arith
  length-drop (suc n) [] = omega arith
  length-drop (suc n) (x ∷ xs) = omega (arith, length-drop n xs)

copy_out-append :
    (m : ℕ → ℕ) (a x y : ℕ) → copy_out m a (x + y) ≡ copy_out m a x ++ copy_out m (a + x) y
unfolding copy_out
copy_out-append m a zero y =
    let to : a ≡ a + 0 = omega arith in
    let all : 0 + y ≡ y = omega arith in ap₂ (λ b n. copy_out m b n) to all
copy_out-append m a (suc x) y =
    let all : suc x + y ≡ suc (x + y) = omega arith in
    let to : a + 1 + x ≡ a + suc x = omega arith in
    ap (λ n. copy_out m a n) all
    ∙ ap (λ ys. m a ∷ ys)
        (copy_out-append m (a + 1) x y ∙ ap (λ b. copy_out m (a + 1) x ++ copy_out m b y) to)

-- A range of memory in which every byte is the same.
pub copy_out-const :
    (m : ℕ → ℕ) (a n c : ℕ)
    → ((x : ℕ) → a ≤ x → x < a + n → m x ≡ c)
    → copy_out m a n ≡ replicate n c
unfolding copy_out
copy_out-const m a zero c h = refl
copy_out-const m a (suc n) c h =
    ap₂ ◌∷◌ (h a (omega arith) (omega arith))
      (copy_out-const m (a + 1) n c (λ x p q. h x (omega arith) (omega arith)))

-- A buffer after bytes were copied in and the rest was filled.
pub copy_out-fill :
    (m : ℕ → ℕ) (a : ℕ) (bs : List ℕ) (v n : ℕ)
    → copy_out (fill (copy_in m a bs) (a + length bs) v n) a (length bs + n)
      ≡ bs ++ replicate n (v % 2 ^ 8)
copy_out-fill m a bs v n =
    copy_out-append m' a (length bs) n
    ∙ ap₂ ◌++◌
        (copy_out-eq m' (copy_in m a bs) a (length bs) (λ x p q. kept x q)
          ∙ copy_out-copy_in m a bs)
        (copy_out-const m' (a + length bs) n (v % 2 ^ 8) (λ x p q. filled x p q))
  where
    m' : ℕ → ℕ
    m' = fill (copy_in m a bs) (a + length bs) v n

    kept : (x : ℕ) → x < a + length bs → m' x ≡ copy_in m a bs x
    kept x q = ground (arith, fill_lem (copy_in m a bs) (a + length bs) v n x)

    filled : (x : ℕ) → a + length bs ≤ x → x < a + length bs + n → m' x ≡ v % 2 ^ 8
    filled x p q = ground (arith, fill_lem (copy_in m a bs) (a + length bs) v n x)

-- Neither changes what stands elsewhere.
pub copy_out-elsewhere :
    (m : ℕ → ℕ) (a : ℕ) (bs : List ℕ) (v n b len : ℕ)
    → ((x : ℕ) → b ≤ x → x < b + len → (x < a) ⊎ (a + (length bs + n) ≤ x))
    → copy_out (fill (copy_in m a bs) (a + length bs) v n) b len ≡ copy_out m b len
copy_out-elsewhere m a bs v n b len h =
    copy_out-eq (fill (copy_in m a bs) (a + length bs) v n) m b len (λ x p q. kept x (h x p q))
  where
    kept :
        (x : ℕ)
        → (x < a) ⊎ (a + (length bs + n) ≤ x)
        → fill (copy_in m a bs) (a + length bs) v n x ≡ m x
    kept x (inl p) =
        ground
          (arith, fill_lem (copy_in m a bs) (a + length bs) v n x, copy_in_outside m a bs x (inl p))
    kept x (inr p) = ground (
      arith,
      fill_lem (copy_in m a bs) (a + length bs) v n x,
      copy_in_outside m a bs x (inr (omega arith)),
    )
