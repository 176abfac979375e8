-- ===== src/Fat/Fixture.antt =====
-- A volume without files, and a directory with two entries.
use rpv_platforms_evt_driven.Base.{ℕ, ◌+◌, ◌-◌, ◌==◌, if◌then◌else◌, [], ◌∷◌, replicate, none}
use rpv_platforms_evt_driven.Fat.Interface.{fr_ok, fr_no_file, FatFs}
use rpv_platforms_evt_driven.Fat.Table.{max_open_files, fat_ok, Fat}
use rpv_platforms_evt_driven.Fat.Dir.{FInfo, FatDir}

-- A library in which every file exists and is empty. A descriptor counts its uses.
abbrev pub empty_files : FatFs
empty_files = record {
  Volume = ℕ;
  Fil = ℕ;
  f_mount = λ path v. (fr_ok, v);
  f_unmount = λ path v. (fr_ok, v);
  f_chdir = λ path v. (fr_no_file, v);
  f_mkdir = λ path v. (fr_no_file, v);
  f_unlink = λ path v. (fr_ok, v);
  f_open = λ fil path mode v. (fr_ok, 0, v + 1);
  f_close = λ fil v. (fr_ok, fil + 1, v);
  f_size = λ fil. 0;
  f_read = λ fil nread v. (fr_ok, [], fil + 1, v);
  f_write = λ fil bytes v. (fr_ok, 0, fil + 1, v);
  invalid_object = 9;
}

abbrev pub no_files : Fat empty_files
no_files = record {
  files = 0;
  error_code = fat_ok;
  file_desc = λ i. 0;
  open_files = replicate max_open_files none;
  volume = 0;
}

-- An entry of one character, or none at 0.
abbrev pub letter : ℕ → FInfo
letter n = record {
  fsize = n;
  fattrib = 0x11;
  fdate = 0;
  ftime = 0;
  crdate = 0;
  crtime = 0;
  fname = if n == 0 then [] else n ∷ [];
}

-- A directory of as many entries as the search has left, each of one character.
abbrev pub letters_dir : FatDir empty_files
letters_dir = record {
  Dir = ℕ;
  f_stat = λ path i v. (fr_no_file, i, v);
  f_getcwd = λ cwd len v. (fr_ok, cwd, v);
  f_findfirst = λ dp i path pattern v. (fr_ok, 1, letter 2, v);
  f_findnext = λ dp i v. (fr_ok, dp - 1, letter dp, v);
  f_closedir = λ dp v. (fr_ok, v + 5);
  am_sys = 4;
  am_hid = 2;
  am_rdo = 1;
  am_arc = 32;
  am_dir = 16;
}
