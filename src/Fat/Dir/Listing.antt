-- ===== src/Fat/Dir/Listing.antt =====
-- A listing is a fold over the entries that FatFs finds.
use rpv_platforms_evt_driven.Base.{
  ℕ, zero, suc, Bool, not, ◌==◌, ==_iff, Bool-cases, inl, inr, ◌<◌, ◌≡◌, refl, arith, true, false,
  List, [], ◌∷◌, length, some,
}
use rpv_platforms_evt_driven.Fat.Interface.{FResult, fr_ok, FatFs}
use rpv_platforms_evt_driven.Fat.Table.{Fat, fat_err_code, is_ok}
use Prim.Native.Nat.{bit_and}
use rpv_platforms_evt_driven.Fat.Times.{to_fil_date_time}
use rpv_platforms_evt_driven.Fat.Dir.{
  FInfo, FatDir, FilInfo, is_empty, to_filinfo, answered, ls_loop, fat_ls,
}

module _ (ff : FatFs) (fd : FatDir ff) where
  -- A search that stands on an answer of FatFs yields these entries and ends: with an answer that is
  -- not FR_OK, or with an empty name.
  pub data Found
      : (result : FResult) (dp : fd.Dir) (finfo : FInfo) (v : ff.Volume)
        → List FInfo
        → (last : FResult) (end_dp : fd.Dir) (end_v : ff.Volume) → Type 0 where
    refused :
        {r : FResult} {dp : fd.Dir} {i : FInfo} {v : ff.Volume}
        → is_ok (fat_err_code r) ≡ false
        → Found r dp i v [] r dp v
    no_more :
        {dp : fd.Dir} {i : FInfo} {v : ff.Volume}
        → is_empty i.fname ≡ true
        → Found fr_ok dp i v [] fr_ok dp v
    entry :
        {dp : fd.Dir} {i : FInfo} {v : ff.Volume} {is : List FInfo} {last : FResult}
        → {end_dp : fd.Dir} {end_v : ff.Volume} → is_empty i.fname ≡ false
        → Found
            (fd.f_findnext dp i v).0
            (fd.f_findnext dp i v).1
            (fd.f_findnext dp i v).2
            (fd.f_findnext dp i v).3
            is
            last
            end_dp
            end_v
        → Found fr_ok dp i v (i ∷ is) last end_dp end_v

  -- A flag is set where the attributes share a bit with its mask.
  abbrev pub Flag : (flag : Bool) (bits : ℕ) → Type 0
  Flag true bits = 0 < bits
  Flag false bits = bits ≡ 0

  -- What the callback gets of an entry.
  pub record IsReadOut (i : FInfo) (fil : FilInfo) : Type 0 where
    pub size : fil.filesize ≡ i.fsize
    pub name : fil.full_name ≡ i.fname
    pub is_system : Flag fil.system (bit_and i.fattrib fd.am_sys)
    pub is_hidden : Flag fil.hidden (bit_and i.fattrib fd.am_hid)
    pub is_r_only : Flag fil.r_only (bit_and i.fattrib fd.am_rdo)
    pub is_archive : Flag fil.archive (bit_and i.fattrib fd.am_arc)
    pub is_directory : Flag fil.directory (bit_and i.fattrib fd.am_dir)
    pub modified : fil.modify_time ≡ to_fil_date_time i.fdate i.ftime
    pub created : fil.create_time ≡ to_fil_date_time i.crdate i.crtime

  pub data AllReadOut : List FInfo → List FilInfo → Type 0 where
    no_entry : AllReadOut [] []
    read_out :
        {i : FInfo} {fil : FilInfo} {is : List FInfo} {fils : List FilInfo}
        → IsReadOut i fil
        → AllReadOut is fils
        → AllReadOut (i ∷ is) (fil ∷ fils)

  not_zero-Flag : (bits : ℕ) → Flag (not (bits == 0)) bits
  not_zero-Flag bits = elim (Bool-cases (bits == 0)) [
    | inl none_set ↦ rw none_set ((==_iff bits 0).0 none_set)
    | inr some_set ↦ rw some_set (ground (arith, some_set))
  ]

  to_filinfo-IsReadOut : (i : FInfo) → IsReadOut i (to_filinfo ff fd i)
  unfolding to_filinfo
  to_filinfo-IsReadOut i = record {
    size = refl;
    name = refl;
    is_system = not_zero-Flag (bit_and i.fattrib fd.am_sys);
    is_hidden = not_zero-Flag (bit_and i.fattrib fd.am_hid);
    is_r_only = not_zero-Flag (bit_and i.fattrib fd.am_rdo);
    is_archive = not_zero-Flag (bit_and i.fattrib fd.am_arc);
    is_directory = not_zero-Flag (bit_and i.fattrib fd.am_dir);
    modified = refl;
    created = refl;
  }

  abbrev filinfos : List FInfo → List FilInfo
  filinfos [] = []
  filinfos (i ∷ is) = to_filinfo ff fd i ∷ filinfos is

  filinfos-AllReadOut : (is : List FInfo) → AllReadOut is (filinfos is)
  filinfos-AllReadOut [] = no_entry
  filinfos-AllReadOut (i ∷ is) = read_out (to_filinfo-IsReadOut i) (filinfos-AllReadOut is)

  module _ {Ctx : Type 0} (nxt_file : FilInfo → Ctx → Ctx) where
    -- The entries are handed over one after the other.
    unfoldable pub list_all : List FilInfo → Ctx → Ctx
    list_all [] ctx = ctx
    list_all (fil ∷ fils) ctx = list_all fils (nxt_file fil ctx)

    ls_loop-Found :
        (fuel : ℕ) {r : FResult} {dp : fd.Dir} {i : FInfo} {v : ff.Volume} {is : List FInfo}
        {last : FResult}
        → {end_dp : fd.Dir} {end_v : ff.Volume} → Found r dp i v is last end_dp end_v
        → (f : Fat ff) (ctx : Ctx) → length is < fuel
        → ls_loop ff fd nxt_file fuel dp i (answered ff fd r v f) ctx
          ≡ some (end_dp, answered ff fd last end_v f, list_all (filinfos is) ctx)
    unfolding ls_loop list_all
    ls_loop-Found zero found f ctx few = absurd (omega arith)
    ls_loop-Found (suc n) (refused h) f ctx few = rw h refl
    ls_loop-Found (suc n) (no_more h) f ctx few = rw h refl
    ls_loop-Found (suc n) (entry {dp = dp} {i = i} {v = v} h rest) f ctx few = rw h (
        ls_loop-Found n rest (answered ff fd fr_ok v f) (nxt_file (to_filinfo ff fd i) ctx)
          (omega arith))

    -- Suppose that the search in a directory yields these entries before FatFs gives an empty name or
    -- an error. Then the listing ends, with fuel for more tests than there are entries.
    -- The callback was given each entry once and in order, with its size, name and times, and each flag
    -- set exactly where its attributes share a bit with the mask of FatFs for it; the error code is
    -- that of the last answer, the search was closed, and the table of open files is as before.
    pub fat_ls-Found :
        (stack_dp : fd.Dir) (stack_info : FInfo) (path : List ℕ) (is : List FInfo) (last : FResult)
        → (end_dp : fd.Dir) (end_v : ff.Volume) (fuel : ℕ) (f : Fat ff) (ctx : Ctx)
        → length is < fuel
        → (let (r, dp, i, v) = fd.f_findfirst stack_dp stack_info path (b'*' ∷ []) f.volume in
            Found r dp i v is last end_dp end_v)
        → (fils : List FilInfo) × AllReadOut is fils
          × (fat_ls ff fd nxt_file fuel stack_dp stack_info path f ctx
              ≡ some (answered ff fd last (fd.f_closedir end_dp end_v).1 f, list_all fils ctx))
    unfolding fat_ls
    fat_ls-Found stack_dp stack_info path is last end_dp end_v fuel f ctx few found =
        (filinfos is, filinfos-AllReadOut is, rw (fat_ls, ls_loop-Found fuel found f ctx few) refl)
