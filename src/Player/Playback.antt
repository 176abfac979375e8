-- ===== src/Player/Playback.antt =====
-- From the start of the engine to the end of the file.
use rpv_platforms_evt_driven.Base.{
  ℕ, zero, suc, ◌+◌, ◌-◌, ◌*◌, ◌≤◌, ◌≡◌, ◌⊎◌, inl, inr, dec_le, refl, sym, ap, ap₂, ◌∙◌, arith,
  Bool, true, false, not, ◌&&◌, ◌==◌, List, [], ◌∷◌, ◌++◌, append-nil, append_assoc, take, drop,
  length, replicate, some,
}
use rpv_platforms_evt_driven.Fat.Interface.{FatFs}
use rpv_platforms_evt_driven.Fat.Table.{Fat, fat_fclose}
use rpv_platforms_evt_driven.Player.Table.{SameTable}
use rpv_platforms_evt_driven.Player.Service.{Sb, buff_chunk, silence}
use rpv_platforms_evt_driven.Player.Chunks.{length-drop}
use rpv_platforms_evt_driven.Player.Hear.{then_hear, heard_first, hear, ReadsFiles, IsPlaying}
use rpv_platforms_evt_driven.Player.Round.{padded}
use rpv_platforms_evt_driven.Player.Plays.{IsStopped, service-IsPlaying, service-closes}

-- The samples in chunks, and what is heard over a number of halves.
unfoldable pub chunks : ℕ → List ℕ → List (List ℕ)
chunks zero samples = []
chunks (suc n) samples = padded (take buff_chunk samples) ∷ chunks n (drop buff_chunk samples)

unfoldable pub heard : ℕ → (x y samples : List ℕ) → List (List ℕ)
heard zero x y samples = []
heard (suc n) x y samples =
    x ∷ heard n y (padded (take buff_chunk samples)) (drop buff_chunk samples)

pub heard_lem :
    (n : ℕ) (x y samples : List ℕ) → heard (suc (suc n)) x y samples ≡ x ∷ y ∷ chunks n samples
unfolding heard chunks
heard_lem zero x y samples = refl
heard_lem (suc n) x y samples =
    ap (λ xs. x ∷ xs) (heard_lem n y (padded (take buff_chunk samples)) (drop buff_chunk samples))

abbrev pub concat : List (List ℕ) → List ℕ
concat [] = []
concat (x ∷ xs) = x ++ concat xs

pub replicate-append : (m n : ℕ) (a : ℕ) → replicate m a ++ replicate n a ≡ replicate (m + n) a
replicate-append zero n a = ap (λ k. replicate k a) (omega arith)
replicate-append (suc m) n a =
    let all : suc m + n ≡ suc (m + n) = omega arith in
    ap (λ xs. a ∷ xs) (replicate-append m n a) ∙ ap (λ k. replicate k a) (sym all)

take-drop : (n : ℕ) (xs : List ℕ) → take n xs ++ drop n xs ≡ xs
take-drop zero xs = refl
take-drop (suc n) [] = refl
take-drop (suc n) (x ∷ xs) = ap (λ ys. x ∷ ys) (take-drop n xs)

length-take-drop : (n : ℕ) (xs : List ℕ) → length (take n xs) + length (drop n xs) ≡ length xs
length-take-drop zero xs = omega arith
length-take-drop (suc n) [] = omega arith
length-take-drop (suc n) (x ∷ xs) = omega (arith, length-take-drop n xs)

-- Silence before nothing, or no silence, may as well stand behind.
replicate-swap :
    (a : ℕ) (xs : List ℕ)
    → (a ≡ 0) ⊎ (length xs ≡ 0)
    → replicate a silence ++ xs ≡ xs ++ replicate a silence
replicate-swap zero xs h = sym (append-nil xs)
replicate-swap (suc a) [] h = append-nil (replicate (suc a) silence)
replicate-swap (suc a) (x ∷ xs) (inl h) = absurd (omega arith)
replicate-swap (suc a) (x ∷ xs) (inr h) = absurd (omega arith)

-- Enough chunks hold all samples in order, with silence behind them.
pub concat-chunks :
    (n : ℕ) (samples : List ℕ)
    → length samples ≤ n * buff_chunk
    → concat (chunks n samples) ≡ samples ++ replicate (n * buff_chunk - length samples) silence
unfolding chunks
concat-chunks zero [] h = refl
concat-chunks zero (x ∷ xs) h = absurd (omega arith)
concat-chunks (suc n) samples h =
    let front = take buff_chunk samples in
    let back = drop buff_chunk samples in
    let a = buff_chunk - length front in
    let b = n * buff_chunk - length back in
    let parts = length-take-drop buff_chunk samples in
    let few : length back ≡ length samples - buff_chunk = length-drop buff_chunk samples in
    let silent : a + b ≡ suc n * buff_chunk - length samples = omega (arith, parts, few, h) in
    ap (λ xs. padded front ++ xs) (concat-chunks n back (omega (arith, few, h)))
    ∙ append_assoc front (replicate a silence) (back ++ replicate b silence)
    ∙ ap (λ xs. front ++ xs)
        (sym (append_assoc (replicate a silence) back (replicate b silence))
          ∙ ap (λ xs. xs ++ replicate b silence) (replicate-swap a back (either parts few))
          ∙ append_assoc back (replicate a silence) (replicate b silence)
          ∙ ap (λ xs. back ++ xs)
              (replicate-append a b silence ∙ ap (λ k. replicate k silence) silent))
    ∙ sym (append_assoc front back (replicate (suc n * buff_chunk - length samples) silence))
    ∙ ap (λ xs. xs ++ replicate (suc n * buff_chunk - length samples) silence)
        (take-drop buff_chunk samples)
  where
    either :
        length (take buff_chunk samples) + length (drop buff_chunk samples) ≡ length samples
        → length (drop buff_chunk samples) ≡ length samples - buff_chunk
        → (buff_chunk - length (take buff_chunk samples) ≡ 0)
          ⊎ (length (drop buff_chunk samples) ≡ 0)
    either parts few = elim (dec_le buff_chunk (length samples)) [
      | yes le ↦ inl (omega arith)
      | no gt ↦ inr (omega arith)
    ]

module _ (ff : FatFs) (reads : ReadsFiles ff) where
  -- With as many halves to come as it takes, the service plays all of them and stops.
  pub hear_lem :
      (sr n : ℕ) {half : Bool} {x y samples : List ℕ} {s : Sb ff}
      → IsPlaying ff reads half x y samples (suc n) s
      → length samples ≤ n * buff_chunk
      → (f : Fat ff) → SameTable ff f (fat_fclose ff s.fd s.fat)
      → (t : Sb ff) × (before : List _) × (hear ff sr (suc n) half s
          ≡ some (heard (suc n) x y samples, t))
        × IsStopped ff before f t
  unfolding hear heard
  hear_lem sr zero {half = half} {x = x} {samples = samples} v h f same =
      let (t, ends, stopped) = service-closes ff reads sr v (last samples h) f same in
      (
        t,
        _,
        ap₂ (λ c o. heard_first ff c (then_hear ff (hear ff sr 0 (not half)) o)) v.now ends,
        stopped,
      )
    where
      last : (xs : List ℕ) → length xs ≤ 0 → ((length (take buff_chunk xs) == 0) && (0 == 0)) ≡ true
      last xs h = ground (arith, length-take-drop buff_chunk xs)
  hear_lem sr (suc n) {half = half} {x = x} {samples = samples} v h f same =
      let (t, goes, playing, closes) = service-IsPlaying ff reads sr v more in
      let (u, before, rest, stopped) =
        hear_lem sr n playing (omega (arith, h, length-drop buff_chunk samples)) f
          (closes f same) in
      (
        u,
        before,
        ap₂ (λ c o. heard_first ff c (then_hear ff (hear ff sr (suc n) (not half)) o)) v.now goes
            ∙ ap (λ o. heard_first ff x o) rest,
        stopped,
      )
    where
      more : ((length (take buff_chunk samples) == 0) && (suc n == 0)) ≡ false
      more = ground arith
