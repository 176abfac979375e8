-- ===== src/Player/Table.antt =====
-- The table of open files under the calls of the service, which reads one file and closes it.
use rpv_platforms_evt_driven.Base.{
  ℕ, ◌+◌, ◌-◌, ◌%◌, ◌^◌, ◌≡◌, refl, sym, ap, subst, ◌∙◌, Bool-cases, inl, inr, leb, get_or, Option,
  none, some, ℤ, pos, negsuc, set,
}
use rpv_platforms_evt_driven.Fat.Interface.{FatFs}
use rpv_platforms_evt_driven.Fat.Table.{
  Fat, max_open_files, read_at, fat_fread, close_at, fat_fclose,
}

module _ (ff : FatFs) where
  -- As many files are open, in the same slots.
  abbrev pub SameTable : (f g : Fat ff) → Type 0
  SameTable f g = (g.files ≡ f.files) × (g.open_files ≡ f.open_files)

  read_at-SameTable : (o : Option ℕ) (n : ℕ) (f : Fat ff) → SameTable f (read_at ff o n f).1
  unfolding read_at
  read_at-SameTable none n f = (refl, refl)
  read_at-SameTable (some p) n f = (refl, refl)

  fat_fread-SameTable : (fd : ℤ) (n : ℕ) (f : Fat ff) → SameTable f (fat_fread ff fd n f).1
  unfolding fat_fread
  fat_fread-SameTable (negsuc k) n f = (refl, refl)
  fat_fread-SameTable (pos i) n f = elim (Bool-cases (leb max_open_files i)) [
    | inl outside ↦ rw (outside, fat_fread) (refl, refl)
    | inr inside ↦ rw (inside, fat_fread) (read_at-SameTable (get_or f.open_files i none) n f)
  ]

  close_at-SameTable :
      (i : ℕ) (o : Option ℕ) (f g : Fat ff)
      → SameTable f g
      → SameTable (close_at ff i o f) (close_at ff i o g)
  unfolding close_at
  close_at-SameTable i none f g same = same
  close_at-SameTable i (some p) f g (files, slots) =
      (ap (λ n. (n + 2 ^ 8 - 1) % 2 ^ 8) files, ap (λ s. set s i none) slots)

  -- What a close does to the table depends on the table alone.
  fat_fclose-SameTable :
      (fd : ℤ) (f g : Fat ff) → SameTable f g → SameTable (fat_fclose ff fd f) (fat_fclose ff fd g)
  unfolding fat_fclose
  fat_fclose-SameTable (negsuc k) f g same = same
  fat_fclose-SameTable (pos i) f g same = elim (Bool-cases (leb max_open_files i)) [
    | inl outside ↦ rw (outside, fat_fclose) same
    | inr inside ↦
        rw (inside, fat_fclose)
          (subst (λ o. SameTable (close_at ff i (get_or f.open_files i none) f) (close_at ff i o g))
            (sym (ap (λ s. get_or s i none) same.1))
            (close_at-SameTable i (get_or f.open_files i none) f g same))
  ]

  -- A read before the close does not change what the close leaves of the table.
  pub fat_fclose-fat_fread :
      (fd : ℤ) (n : ℕ) (f g : Fat ff)
      → SameTable f (fat_fclose ff fd g)
      → SameTable f (fat_fclose ff fd (fat_fread ff fd n g).1)
  fat_fclose-fat_fread fd n f g (files, slots) =
      let same = fat_fclose-SameTable fd g (fat_fread ff fd n g).1 (fat_fread-SameTable fd n g) in
      (same.0 ∙ files, same.1 ∙ slots)
