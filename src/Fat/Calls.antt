-- ===== src/Fat/Calls.antt =====
-- Any sequence of calls keeps the table of open files consistent, and keeps the files apart.
use rpv_platforms_evt_driven.Base.{
  ℕ, ◌≡◌, ◌≢◌, refl, sym, ap, ◌∙◌, arith, leb, Bool-cases, inl, inr, List, [], ◌∷◌, length, get_or,
  Option, none, some, ℤ, pos, negsuc, ℕ_discrete,
}
use rpv_platforms_evt_driven.Fat.Interface.{FatFs}
use rpv_platforms_evt_driven.Fat.Table.{
  max_open_files, Fat, put_desc, fat_mount, fat_unmount, fat_chdir, fat_mkdir, fat_unlink,
  fat_fopen, fat_fclose, read_at, fat_fread, write_at, fat_fwrite,
}
use rpv_platforms_evt_driven.Fat.Slots.{used}
use rpv_platforms_evt_driven.Fat.Laws.{IsFat, fat_mount-IsFat, fat_fopen-IsFat, fat_fclose-IsFat}

module _ (ff : FatFs) where
  -- The calls on the volume and on open files, with descriptors of any value.
  pub data FatCall : Type 0 where
    a_mount an_unmount a_chdir a_mkdir an_unlink : (path : List ℕ) → FatCall
    an_open : (path : List ℕ) (mode : ℕ) → FatCall
    a_close : (fd : ℤ) → FatCall
    a_read : (fd : ℤ) (nread : ℕ) → FatCall
    a_write : (fd : ℤ) (buffer : List ℕ) → FatCall

  unfoldable pub fat_call : FatCall → Fat ff → Fat ff
  fat_call (a_mount path) f = (fat_mount ff path f).1
  fat_call (an_unmount path) f = (fat_unmount ff path f).1
  fat_call (a_chdir path) f = (fat_chdir ff path f).1
  fat_call (a_mkdir path) f = (fat_mkdir ff path f).1
  fat_call (an_unlink path) f = (fat_unlink ff path f).1
  fat_call (an_open path mode) f = (fat_fopen ff path mode f).1
  fat_call (a_close fd) f = fat_fclose ff fd f
  fat_call (a_read fd nread) f = (fat_fread ff fd nread f).1
  fat_call (a_write fd buffer) f = (fat_fwrite ff fd buffer f).1

  unfoldable pub fat_calls : List FatCall → Fat ff → Fat ff
  fat_calls [] f = f
  fat_calls (c ∷ cs) f = fat_calls cs (fat_call c f)

  -- What a read or a write leaves as it is: the table, and every other file's descriptor.
  pub record SameFiles (fd : ℤ) (f g : Fat ff) : Type 0 where
    pub same_files : g.files ≡ f.files
    pub same_open : g.open_files ≡ f.open_files
    pub same_desc : (q : ℕ) → fd ≢ pos q → g.file_desc q ≡ f.file_desc q

  SameFiles-refl : (fd : ℤ) (f : Fat ff) → SameFiles fd f f
  SameFiles-refl fd f = record { same_files = refl; same_open = refl; same_desc = λ q h. refl }

  put_desc_ne :
      (f : Fat ff) (n q : ℕ) (fil : ff.Fil) (v : ff.Volume)
      → pos n ≢ pos q
      → (put_desc ff f n fil v).file_desc q ≡ f.file_desc q
  put_desc_ne f n q fil v h = elim (ℕ_discrete q n) [
    | yes same ↦ absurd (h (ap pos (sym same)))
    | no other ↦ ground arith
  ]

  read_at-SameFiles :
      (n : ℕ) (slot : Option ℕ) (nread : ℕ) (f : Fat ff)
      → ((p : ℕ) → slot ≡ some p → p ≡ n)
      → SameFiles (pos n) f (read_at ff slot nread f).1
  unfolding read_at
  read_at-SameFiles n none nread f own = record {
    same_files = refl;
    same_open = refl;
    same_desc = λ q h. refl;
  }
  read_at-SameFiles n (some p) nread f own = record {
    same_files = refl;
    same_open = refl;
    same_desc = λ q h.
        let r = ff.f_read (f.file_desc p) nread f.volume in
        put_desc_ne f p q r.2 r.3 (λ e. h (ap pos (sym (own p refl)) ∙ e));
  }

  write_at-SameFiles :
      (n : ℕ) (slot : Option ℕ) (buffer : List ℕ) (f : Fat ff)
      → ((p : ℕ) → slot ≡ some p → p ≡ n)
      → SameFiles (pos n) f (write_at ff slot buffer f).1
  unfolding write_at
  write_at-SameFiles n none buffer f own = record {
    same_files = refl;
    same_open = refl;
    same_desc = λ q h. refl;
  }
  write_at-SameFiles n (some p) buffer f own = record {
    same_files = refl;
    same_open = refl;
    same_desc = λ q h.
        let r = ff.f_write (f.file_desc p) buffer f.volume in
        put_desc_ne f p q r.2 r.3 (λ e. h (ap pos (sym (own p refl)) ∙ e));
  }

  fat_fread-SameFiles :
      (fd : ℤ) (nread : ℕ) (f : Fat ff) → IsFat ff f → SameFiles fd f (fat_fread ff fd nread f).1
  unfolding fat_fread
  fat_fread-SameFiles (negsuc n) nread f v = SameFiles-refl (negsuc n) f
  fat_fread-SameFiles (pos n) nread f v = elim (Bool-cases (leb max_open_files n)) [
    | inl outside ↦ rw (outside, fat_fread) (SameFiles-refl (pos n) f)
    | inr inside ↦
        rw (inside, fat_fread)
          (read_at-SameFiles n (get_or f.open_files n none) nread f (v.own_desc n))
  ]

  fat_fwrite-SameFiles :
      (fd : ℤ) (buffer : List ℕ) (f : Fat ff)
      → IsFat ff f
      → SameFiles fd f (fat_fwrite ff fd buffer f).1
  unfolding fat_fwrite
  fat_fwrite-SameFiles (negsuc n) buffer f v = SameFiles-refl (negsuc n) f
  fat_fwrite-SameFiles (pos n) buffer f v = elim (Bool-cases (leb max_open_files n)) [
    | inl outside ↦ rw (outside, fat_fwrite) (SameFiles-refl (pos n) f)
    | inr inside ↦
        rw (inside, fat_fwrite)
          (write_at-SameFiles n (get_or f.open_files n none) buffer f (v.own_desc n))
  ]

  -- In a consistent table a read or a write through a descriptor, of any value, leaves the count of
  -- open files, the table, and the descriptors of all other files alone.
  pub fat_io-SameFiles :
      (fd : ℤ) (nread : ℕ) (buffer : List ℕ) (f : Fat ff)
      → IsFat ff f
      → SameFiles fd f (fat_fread ff fd nread f).1 × SameFiles fd f (fat_fwrite ff fd buffer f).1
  fat_io-SameFiles fd nread buffer f v =
      (fat_fread-SameFiles fd nread f v, fat_fwrite-SameFiles fd buffer f v)

  SameFiles-IsFat : {fd : ℤ} {f g : Fat ff} → SameFiles fd f g → IsFat ff f → IsFat ff g
  SameFiles-IsFat {fd} {f} {g} same v = record {
    size = ap length same.same_open ∙ v.size;
    counted = same.same_files ∙ (v.counted ∙ ap used (sym same.same_open));
    own_desc = λ i p h. v.own_desc i p (ap (λ s. get_or s i none) (sym same.same_open) ∙ h);
  }

  -- From a consistent table, whatever calls are made and whatever FatFs answers, there are ten slots,
  -- the count is the number of the open files, and each uses the descriptor of its slot.
  pub fat_calls-IsFat : (cs : List FatCall) (f : Fat ff) → IsFat ff f → IsFat ff (fat_calls cs f)
  unfolding fat_calls fat_call fat_unmount fat_chdir fat_mkdir fat_unlink
  fat_calls-IsFat [] f v = v
  fat_calls-IsFat (a_mount path ∷ cs) f v = fat_calls-IsFat cs _ (fat_mount-IsFat ff path f v)
  fat_calls-IsFat (an_unmount path ∷ cs) f v = fat_calls-IsFat cs _ v
  fat_calls-IsFat (a_chdir path ∷ cs) f v = fat_calls-IsFat cs _ v
  fat_calls-IsFat (a_mkdir path ∷ cs) f v = fat_calls-IsFat cs _ v
  fat_calls-IsFat (an_unlink path ∷ cs) f v = fat_calls-IsFat cs _ v
  fat_calls-IsFat (an_open path mode ∷ cs) f v =
      fat_calls-IsFat cs _ (fat_fopen-IsFat ff path mode f v)
  fat_calls-IsFat (a_close fd ∷ cs) f v = fat_calls-IsFat cs _ (fat_fclose-IsFat ff fd f v)
  fat_calls-IsFat (a_read fd nread ∷ cs) f v =
      fat_calls-IsFat cs _ (SameFiles-IsFat (fat_fread-SameFiles fd nread f v) v)
  fat_calls-IsFat (a_write fd buffer ∷ cs) f v =
      fat_calls-IsFat cs _ (SameFiles-IsFat (fat_fwrite-SameFiles fd buffer f v) v)
