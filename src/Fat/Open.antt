-- ===== src/Fat/Open.antt =====
-- Descriptors are handed out and given back.
use rpv_platforms_evt_driven.Base.{
  ℕ, ◌+◌, ◌-◌, ◌%◌, ◌^◌, ◌<◌, ◌≡◌, ◌≢◌, refl, sym, ap, ◌∙◌, arith, leb, ◌==◌, Bool-cases, ==_iff,
  inl, inr, List, get_or, set, get_or-set_self, get_or-set_ne, none, some, pos,
}
use rpv_platforms_evt_driven.Fat.Interface.{FResult, fr_ok, FatFs}
use rpv_platforms_evt_driven.Fat.Table.{
  max_open_files, find_free, Fat, file_at, fat_fopen, close_at, fat_fclose,
}
use rpv_platforms_evt_driven.Fat.Slots.{used-le, find_free_lem, set-set}
use rpv_platforms_evt_driven.Fat.Laws.{IsFat, free_slot}

module _ (ff : FatFs) where
  -- The slot that the next open takes, and what FatFs answers there.
  abbrev pub next_fd : Fat ff → ℕ
  next_fd f = find_free f.open_files

  abbrev pub open_result : List ℕ → ℕ → Fat ff → FResult
  open_result path mode f = (ff.f_open (f.file_desc (next_fd f)) path mode f.volume).0

  opened :
      (path : List ℕ) (mode : ℕ) (f : Fat ff)
      → f.files ≢ max_open_files
      → open_result path mode f ≡ fr_ok
      → ((fat_fopen ff path mode f).0 ≡ pos (next_fd f))
        × ((fat_fopen ff path mode f).1.files ≡ (f.files + 1) % 2 ^ 8)
        × ((fat_fopen ff path mode f).1.open_files
            ≡ set f.open_files (next_fd f) (some (next_fd f)))
  unfolding fat_fopen
  opened path mode f room ok = elim (Bool-cases (f.files == max_open_files)) [
    | inl full ↦ absurd (room ((==_iff f.files max_open_files).0 full))
    | inr free ↦ rw free (rw ok (refl, refl, refl))
  ]

  file_at-slot :
      (f : Fat ff) (i : ℕ) → i < max_open_files → file_at ff f (pos i) ≡ get_or f.open_files i none
  file_at-slot f i b = elim (Bool-cases (leb max_open_files i)) [
    | inl outside ↦ absurd (ground (arith, b, outside))
    | inr inside ↦ rw (inside, file_at) refl
  ]

  file_at-same :
      (f g : Fat ff) (i : ℕ)
      → get_or f.open_files i none ≡ get_or g.open_files i none
      → file_at ff f (pos i) ≡ file_at ff g (pos i)
  file_at-same f g i same = elim (Bool-cases (leb max_open_files i)) [
    | inl outside ↦ rw (outside, file_at) refl
    | inr inside ↦ rw (inside, file_at) same
  ]

  closed :
      (f : Fat ff) (i p : ℕ)
      → i < max_open_files
      → get_or f.open_files i none ≡ some p
      → ((fat_fclose ff (pos i) f).files ≡ (f.files + 2 ^ 8 - 1) % 2 ^ 8)
        × ((fat_fclose ff (pos i) f).open_files ≡ set f.open_files i none)
  unfolding fat_fclose close_at
  closed f i p b taken = elim (Bool-cases (leb max_open_files i)) [
    | inl outside ↦ absurd (ground (arith, b, outside))
    | inr inside ↦ rw (inside, fat_fclose) (rw (taken, close_at) (refl, refl))
  ]

  -- In a consistent table with fewer than ten files open, an open that FatFs accepts returns the first descriptor that was
  -- free; it is below ten and now open, and all other descriptors are as before.
  pub fat_fopen_lem :
      (path : List ℕ) (mode : ℕ) (f : Fat ff)
      → IsFat ff f
      → f.files ≢ max_open_files
      → open_result path mode f ≡ fr_ok
      → ((fat_fopen ff path mode f).0 ≡ pos (next_fd f))
        × (next_fd f < max_open_files)
        × (file_at ff f (pos (next_fd f)) ≡ none)
        × (file_at ff (fat_fopen ff path mode f).1 (pos (next_fd f)) ≡ some (next_fd f))
        × ((j : ℕ)
            → j ≢ next_fd f
            → file_at ff (fat_fopen ff path mode f).1 (pos j) ≡ file_at ff f (pos j))
  fat_fopen_lem path mode f v room ok =
      let now = opened path mode f room ok in
      (
        now.0,
        inside,
        file_at-slot f i inside ∙ find_free_lem f.open_files,
        file_at-slot g i inside
            ∙ (ap (λ s. get_or s i none) now.2
                ∙ get_or-set_self f.open_files i (some i) none (free_slot v room)),
        λ j other. file_at-same g f j (
            ap (λ s. get_or s j none) now.2
            ∙ get_or-set_ne f.open_files i j (some i) none (λ e. other (sym e))),
      )
    where
      i : ℕ
      i = next_fd f

      g : Fat ff
      g = (fat_fopen ff path mode f).1

      inside : i < max_open_files
      inside = omega (arith, free_slot v room, v.size)

  -- In a consistent table with fewer than ten files open, closing the descriptor that an open has
  -- just returned, if FatFs accepted it, gives the table back.
  pub fat_fclose-fat_fopen :
      (path : List ℕ) (mode : ℕ) (f : Fat ff)
      → IsFat ff f
      → f.files ≢ max_open_files
      → open_result path mode f ≡ fr_ok
      → ((fat_fclose ff (fat_fopen ff path mode f).0 (fat_fopen ff path mode f).1).files ≡ f.files)
        × ((fat_fclose ff (fat_fopen ff path mode f).0 (fat_fopen ff path mode f).1).open_files
            ≡ f.open_files)
  fat_fclose-fat_fopen path mode f v room ok =
      let now = opened path mode f room ok in
      let done = closed g i i inside (
        ap (λ s. get_or s i none) now.2
        ∙ get_or-set_self f.open_files i (some i) none (free_slot v room)) in
      rw now.0 (
        done.0
            ∙ (ap (λ n. (n + 2 ^ 8 - 1) % 2 ^ 8) now.1
                ∙ omega (arith, v.counted, v.size, used-le f.open_files)),
        done.1
            ∙ (ap (λ s. set s i none) now.2
                ∙ set-set f.open_files i (some i) none (find_free_lem f.open_files)),
      )
    where
      i : ℕ
      i = next_fd f

      g : Fat ff
      g = (fat_fopen ff path mode f).1

      inside : i < max_open_files
      inside = omega (arith, free_slot v room, v.size)
