-- ===== src/Fat/Table.antt =====
-- src/fatfs/fat.c: the operations on open files.
use rpv_platforms_evt_driven.Base.{
  ℕ, suc, ◌+◌, ◌-◌, ◌%◌, ◌^◌, ◌==◌, leb, if◌then◌else◌, Bool, true, false, List, [], ◌∷◌, get_or,
  set, replicate, Option, none, some, ℤ, pos, negsuc,
}
use rpv_platforms_evt_driven.Fat.Interface.{
  FResult, fr_ok, fr_denied, fr_disk_err, fr_no_path, fr_no_file, fr_other, FatFs,
}

abbrev pub max_open_files : ℕ
max_open_files = 10

pub data FatErrorCode : Type 0 where
  fat_ok fat_access_denied fat_io_error fat_not_found fat_err_notset : FatErrorCode

-- `set_fatErrCode`
abbrev pub fat_err_code : FResult → FatErrorCode
fat_err_code fr_ok = fat_ok
fat_err_code fr_denied = fat_access_denied
fat_err_code fr_disk_err = fat_io_error
fat_err_code fr_no_path = fat_not_found
fat_err_code fr_no_file = fat_not_found
fat_err_code (fr_other n) = fat_err_notset

abbrev pub is_ok : FatErrorCode → Bool
is_ok fat_ok = true
is_ok fat_access_denied = false
is_ok fat_io_error = false
is_ok fat_not_found = false
is_ok fat_err_notset = false

-- A descriptor that is not negative and below MAX_OPEN_FILES.
abbrev pub fd_index : ℤ → Option ℕ
fd_index (negsuc n) = none
fd_index (pos n) = if leb max_open_files n then none else some n

-- The loop of `fat_fopen`: the first free slot, or the number of the slots.
unfoldable pub find_free : List (Option ℕ) → ℕ
find_free [] = 0
find_free (none ∷ slots) = 0
find_free (some p ∷ slots) = suc (find_free slots)

module _ (ff : FatFs) where
  -- The static variables and the volume behind them. A pointer in `open_files` is the index of the
  -- descriptor it points to.
  pub record Fat : Type 0 where
    pub files : ℕ
    pub error_code : FatErrorCode
    pub file_desc : ℕ → ff.Fil
    pub open_files : List (Option ℕ)
    pub volume : ff.Volume

  abbrev pub put_desc : Fat → ℕ → ff.Fil → ff.Volume → Fat
  put_desc f p fil v = record f {
    file_desc = λ q. if q == p then fil else f.file_desc q;
    volume = v;
  }

  -- The open file of a descriptor.
  abbrev pub file_at : Fat → ℤ → Option ℕ
  file_at f fd = elim (fd_index fd) [ none ↦ none | some i ↦ get_or f.open_files i none ]

  -- `fat_mount`
  unfoldable pub fat_mount : (path : List ℕ) → Fat → Bool × Fat
  fat_mount path f =
      let (result, v) = ff.f_mount path f.volume in
      let mounted = record f { error_code = fat_err_code result; volume = v } in
      if is_ok (fat_err_code result)
      then (true, record mounted { files = 0; open_files = replicate max_open_files none })
      else (false, mounted)

  -- `fat_unmount`
  unfoldable pub fat_unmount : (path : List ℕ) → Fat → Bool × Fat
  fat_unmount path f =
      let (result, v) = ff.f_unmount path f.volume in
      (is_ok (fat_err_code result), record f { error_code = fat_err_code result; volume = v })

  -- `fat_chdir`
  unfoldable pub fat_chdir : (path : List ℕ) → Fat → Bool × Fat
  fat_chdir path f =
      let (result, v) = ff.f_chdir path f.volume in
      (is_ok (fat_err_code result), record f { error_code = fat_err_code result; volume = v })

  -- `fat_mkdir`
  unfoldable pub fat_mkdir : (path : List ℕ) → Fat → Bool × Fat
  fat_mkdir path f =
      let (result, v) = ff.f_mkdir path f.volume in
      (is_ok (fat_err_code result), record f { error_code = fat_err_code result; volume = v })

  -- `fat_unlink`
  unfoldable pub fat_unlink : (path : List ℕ) → Fat → Bool × Fat
  fat_unlink path f =
      let (result, v) = ff.f_unlink path f.volume in
      (is_ok (fat_err_code result), record f { error_code = fat_err_code result; volume = v })

  -- `fat_fsize`
  unfoldable pub fat_fsize : (fd : ℤ) → Fat → ℕ
  fat_fsize fd f = elim (file_at f fd) [ none ↦ 0 | some p ↦ ff.f_size (f.file_desc p) ]

  -- `fat_fclose`
  unfoldable pub close_at : ℕ → Option ℕ → Fat → Fat
  close_at i none f = f
  close_at i (some p) f =
      let (result, fil, v) = ff.f_close (f.file_desc p) f.volume in
      record (put_desc f p fil v) {
        error_code = fat_err_code result;
        files = (f.files + 2 ^ 8 - 1) % 2 ^ 8;
        open_files = set f.open_files i none;
      }

  unfoldable pub fat_fclose : (fd : ℤ) → Fat → Fat
  fat_fclose fd f = elim (fd_index fd) [
    | none ↦ f
    | some i ↦ close_at i (get_or f.open_files i none) f
  ]

  -- `fat_fopen`
  unfoldable pub fat_fopen : (path : List ℕ) → (mode : ℕ) → Fat → ℤ × Fat
  fat_fopen path mode f =
      if f.files == max_open_files
      then (negsuc 0, f)
      else let i = find_free f.open_files in
        let (result, fil, v) = ff.f_open (f.file_desc i) path mode f.volume in
        let tried = record (put_desc f i fil v) { error_code = fat_err_code result } in
        if is_ok (fat_err_code result)
        then (
          pos i,
          record tried { files = (f.files + 1) % 2 ^ 8; open_files = set f.open_files i (some i) },
        )
        else (negsuc 0, tried)

  -- `fat_fread`: the bytes read, and the table.
  unfoldable pub read_at : Option ℕ → (nread : ℕ) → Fat → List ℕ × Fat
  read_at none nread f = ([], record f { error_code = fat_err_code (fr_other ff.invalid_object) })
  read_at (some p) nread f =
      let (result, bytes, fil, v) = ff.f_read (f.file_desc p) nread f.volume in
      (bytes, record (put_desc f p fil v) { error_code = fat_err_code result })

  unfoldable pub fat_fread : (fd : ℤ) → (nread : ℕ) → Fat → List ℕ × Fat
  fat_fread fd nread f = elim (fd_index fd) [
    | none ↦ ([], f)
    | some i ↦ read_at (get_or f.open_files i none) nread f
  ]

  -- `fat_fwrite`: the number of bytes written, and the table.
  unfoldable pub write_at : Option ℕ → (buffer : List ℕ) → Fat → ℕ × Fat
  write_at none buffer f = (0, record f { error_code = fat_err_code (fr_other ff.invalid_object) })
  write_at (some p) buffer f =
      let (result, written, fil, v) = ff.f_write (f.file_desc p) buffer f.volume in
      (written, record (put_desc f p fil v) { error_code = fat_err_code result })

  unfoldable pub fat_fwrite : (fd : ℤ) → (buffer : List ℕ) → Fat → ℕ × Fat
  fat_fwrite fd buffer f = elim (fd_index fd) [
    | none ↦ (0, f)
    | some i ↦ write_at (get_or f.open_files i none) buffer f
  ]
