-- ===== src/Fat/Laws.antt =====
-- The table of open files stays consistent, and descriptors are handed out and given back.
use rpv_platforms_evt_driven.Base.{
  ℕ, ◌+◌, ◌-◌, ◌%◌, ◌^◌, ◌<◌, ◌≡◌, ◌≢◌, refl, sym, ap, ◌∙◌, arith, Bool, leb, ◌==◌, Bool-cases,
  if-both, inl, inr, List, length, get_or, set, length-set, length-replicate, get_or-set_self,
  get_or-set_ne, Option, none, some, ℤ, pos, negsuc, ℕ_discrete,
}
use mathlib.Core.Option.{none-ne-some, some_inj}
use rpv_platforms_evt_driven.Fat.Interface.{FatFs}
use rpv_platforms_evt_driven.Fat.Table.{
  max_open_files, fat_err_code, is_ok, find_free, Fat, fat_mount, fat_fopen, close_at, fat_fclose,
}
use rpv_platforms_evt_driven.Fat.Slots.{
  used, used-le, find_free-lt, find_free_lem, used-set-some, used-set-none, used-replicate,
  get_or-replicate, get_or-set-none,
}

-- Ten slots, a count that is right, and each open file in the descriptor of its slot.
pub record IsTable (files : ℕ) (slots : List (Option ℕ)) : Type 0 where
  pub size : length slots ≡ max_open_files
  pub counted : files ≡ used slots
  pub own_desc : (i p : ℕ) → get_or slots i none ≡ some p → p ≡ i

-- With room, the search ends on a slot.
pub free_slot :
    {files : ℕ} {slots : List (Option ℕ)}
    → IsTable files slots
    → files ≢ max_open_files
    → find_free slots < length slots
free_slot {files} {slots} v room =
    find_free-lt slots (omega (arith, room, v.size, v.counted, used-le slots))

pub slot-taken :
    {files : ℕ} {slots : List (Option ℕ)}
    → IsTable files slots
    → files ≢ max_open_files
    → IsTable ((files + 1) % 2 ^ 8) (set slots (find_free slots) (some (find_free slots)))
slot-taken {files} {slots} v room = record {
  size = length-set slots (find_free slots) (some (find_free slots)) ∙ v.size;
  counted = omega (
    arith,
    v.counted,
    v.size,
    used-le slots,
    used-set-some slots (find_free slots) (find_free slots) (free_slot v room)
        (find_free_lem slots),
  );
  own_desc = λ i p taken. elim (ℕ_discrete (find_free slots) i) [
    | yes same ↦
        some_inj.0 (
          sym taken
          ∙ (ap (λ j. get_or (set slots (find_free slots) (some (find_free slots))) j none)
                (sym same)
              ∙ get_or-set_self slots (find_free slots) (some (find_free slots)) none
                  (free_slot v room)))
        ∙ same
    | no other ↦
        v.own_desc i p (
          sym (get_or-set_ne slots (find_free slots) i (some (find_free slots)) none other) ∙ taken)
  ];
}

pub slot-released :
    {files : ℕ} {slots : List (Option ℕ)} (i p : ℕ)
    → IsTable files slots
    → get_or slots i none ≡ some p
    → IsTable ((files + 2 ^ 8 - 1) % 2 ^ 8) (set slots i none)
slot-released {files} {slots} i p v taken = record {
  size = length-set slots i none ∙ v.size;
  counted = omega (arith, v.counted, v.size, used-le slots, used-set-none slots i p taken);
  own_desc = λ j q held. elim (ℕ_discrete i j) [
    | yes same ↦ absurd (
        none-ne-some q (
          sym (get_or-set-none slots i) ∙ (ap (λ k. get_or (set slots i none) k none) same ∙ held)))
    | no other ↦ v.own_desc j q (sym (get_or-set_ne slots i j none none other) ∙ held)
  ];
}

module _ (ff : FatFs) where
  abbrev pub IsFat : Fat ff → Type 0
  IsFat f = IsTable f.files f.open_files

  pub fat_mount-IsFat : (path : List ℕ) (f : Fat ff) → IsFat f → IsFat (fat_mount ff path f).1
  unfolding fat_mount
  fat_mount-IsFat path f v =
      if-both {A = Bool × Fat ff} (λ r. IsFat r.1)
        (is_ok (fat_err_code (ff.f_mount path f.volume).0))
        (record {
          size = length-replicate {A = Option ℕ} max_open_files none;
          counted = sym (used-replicate max_open_files);
          own_desc = λ i p h. absurd (none-ne-some p (sym (get_or-replicate max_open_files i) ∙ h));
        })
        v

  pub fat_fopen-IsFat :
      (path : List ℕ) (mode : ℕ) (f : Fat ff) → IsFat f → IsFat (fat_fopen ff path mode f).1
  unfolding fat_fopen
  fat_fopen-IsFat path mode f v = elim (Bool-cases (f.files == max_open_files)) [
    | inl full ↦ rw full v
    | inr room ↦ rw room (
        if-both {A = ℤ × Fat ff} (λ r. IsFat r.1)
          (is_ok
            (fat_err_code (ff.f_open (f.file_desc (find_free f.open_files)) path mode f.volume).0))
          (slot-taken v (ground (arith, room))) v)
  ]

  close_at-IsFat :
      (i : ℕ) (slot : Option ℕ) (f : Fat ff)
      → get_or f.open_files i none ≡ slot
      → IsFat f
      → IsFat (close_at ff i slot f)
  unfolding close_at
  close_at-IsFat i none f h v = v
  close_at-IsFat i (some p) f h v = slot-released i p v h

  pub fat_fclose-IsFat : (fd : ℤ) (f : Fat ff) → IsFat f → IsFat (fat_fclose ff fd f)
  unfolding fat_fclose
  fat_fclose-IsFat (negsuc n) f v = v
  fat_fclose-IsFat (pos n) f v = elim (Bool-cases (leb max_open_files n)) [
    | inl outside ↦ rw (outside, fat_fclose) v
    | inr inside ↦ rw (inside, fat_fclose) (close_at-IsFat n (get_or f.open_files n none) f refl v)
  ]
