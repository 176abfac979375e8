-- ===== src/Fat/Dir.antt =====
-- src/fatfs/fat.c: directory entries, their search and the current directory.
pub mod Listing
use Prim.Native.Nat.{bit_and}
use rpv_platforms_evt_driven.Base.{
  ℕ, zero, suc, ◌*◌, ◌==◌, if◌then◌else◌, Bool, true, false, not, ◌&&◌, List, [], ◌∷◌, Option, none,
  some,
}
use rpv_platforms_evt_driven.Fat.Interface.{FResult, FatFs}
use rpv_platforms_evt_driven.Fat.Table.{Fat, fat_err_code, is_ok}
use rpv_platforms_evt_driven.Fat.Times.{FilDateTime, to_fil_date_time}

-- The entry that FatFs fills, with its name up to the NUL.
pub record FInfo : Type 0 where
  pub fsize : ℕ
  pub fattrib : ℕ
  pub fdate : ℕ
  pub ftime : ℕ
  pub crdate : ℕ
  pub crtime : ℕ
  pub fname : List ℕ

-- The calls of FatFs on directories. An object that a call fills is an argument of it too; the
-- masks of the attributes are its constants.
pub record FatDir (ff : FatFs) : Type 1 where
  pub Dir : Type 0
  pub f_stat : (path : List ℕ) → FInfo → ff.Volume → FResult × FInfo × ff.Volume
  pub f_getcwd : (cwd : List ℕ) (len : ℕ) → ff.Volume → FResult × List ℕ × ff.Volume
  pub f_findfirst :
      Dir → FInfo → (path pattern : List ℕ) → ff.Volume → FResult × Dir × FInfo × ff.Volume
  pub f_findnext : Dir → FInfo → ff.Volume → FResult × Dir × FInfo × ff.Volume
  pub f_closedir : Dir → ff.Volume → FResult × ff.Volume
  pub am_sys : ℕ
  pub am_hid : ℕ
  pub am_rdo : ℕ
  pub am_arc : ℕ
  pub am_dir : ℕ

-- `filinfo_t`, with its flags.
pub record FilInfo : Type 0 where
  pub filesize : ℕ
  pub system : Bool
  pub hidden : Bool
  pub r_only : Bool
  pub archive : Bool
  pub directory : Bool
  pub modify_time : FilDateTime
  pub create_time : FilDateTime
  pub full_name : List ℕ

abbrev pub is_empty : List ℕ → Bool
is_empty [] = true
is_empty (c ∷ cs) = false

module _ (ff : FatFs) (fd : FatDir ff) where
  -- `to_filinfo`
  unfoldable pub to_filinfo : FInfo → FilInfo
  to_filinfo fno = record {
    filesize = fno.fsize;
    system = not (bit_and fno.fattrib fd.am_sys == 0);
    hidden = not (bit_and fno.fattrib fd.am_hid == 0);
    r_only = not (bit_and fno.fattrib fd.am_rdo == 0);
    archive = not (bit_and fno.fattrib fd.am_arc == 0);
    directory = not (bit_and fno.fattrib fd.am_dir == 0);
    modify_time = to_fil_date_time fno.fdate fno.ftime;
    create_time = to_fil_date_time fno.crdate fno.crtime;
    full_name = fno.fname;
  }

  -- `set_fatErrCode` of a call, and the volume behind it.
  abbrev pub answered : FResult → ff.Volume → Fat ff → Fat ff
  answered result v f = record f { error_code = fat_err_code result; volume = v }

  -- `fat_exists`, with what its variable holds before.
  unfoldable pub fat_exists : (stack : FInfo) (path : List ℕ) → Fat ff → Bool × Fat ff
  fat_exists stack path f =
      let (result, fno, v) = fd.f_stat path stack f.volume in
      (is_ok (fat_err_code result), answered result v f)

  -- `fat_getcwd`: the text at `cwd` after it, up to the NUL.
  unfoldable pub fat_getcwd : (cwd : List ℕ) → Fat ff → List ℕ × Fat ff
  fat_getcwd cwd f =
      let (result, cwd', v) = fd.f_getcwd cwd 255 f.volume in
      ((if is_ok (fat_err_code result) then cwd' else []), answered result v f)

  -- `fat_stat`: its answer, and the record at `fno` after it.
  unfoldable pub fat_stat :
      (stack : FInfo) (path : List ℕ) (fno : FilInfo) → Fat ff → Bool × FilInfo × Fat ff
  fat_stat stack path fno f =
      let (result, fs_fno, v) = fd.f_stat path stack f.volume in
      if is_ok (fat_err_code result)
      then (true, to_filinfo fs_fno, answered result v f)
      else (false, fno, answered result v f)

  -- `fat_ls`. The callback changes a state of the caller's. The loop has fuel for its tests; `none`
  -- if that runs out.
  module _ {Ctx : Type 0} (nxt_file : FilInfo → Ctx → Ctx) where
    unfoldable pub ls_loop :
        (fuel : ℕ) → fd.Dir → FInfo → Fat ff → Ctx → Option (fd.Dir × Fat ff × Ctx)
    ls_loop zero dp finfo f ctx = none
    ls_loop (suc n) dp finfo f ctx =
        let (result, dp', finfo', v) = fd.f_findnext dp finfo f.volume in
        let rest = ls_loop n dp' finfo' (answered result v f) (nxt_file (to_filinfo finfo) ctx) in
        if is_ok f.error_code && not (is_empty finfo.fname) then rest else some (dp, f, ctx)

    unfoldable pub fat_ls :
        (fuel : ℕ) (stack_dp : fd.Dir) (stack_info : FInfo) (path : List ℕ)
        → Fat ff
        → Ctx
        → Option (Fat ff × Ctx)
    fat_ls fuel stack_dp stack_info path f ctx =
        let (result, dp, finfo, v) = fd.f_findfirst stack_dp stack_info path (b'*' ∷ []) f.volume in
        elim (ls_loop fuel dp finfo (answered result v f) ctx) [
          | none ↦ none
          | some (dp', f', ctx') ↦
              some (record f' { volume = (fd.f_closedir dp' f'.volume).1 }, ctx')
        ]
