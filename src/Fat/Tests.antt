-- ===== src/Fat/Tests.antt =====
-- Runs on a volume without files, and uses of the theorems on open files.
use rpv_platforms_evt_driven.Base.{
  List, ◌≡◌, refl, sym, ◌∙◌, arith, [], ◌∷◌, some, pos, negsuc, true,
}
use rpv_platforms_evt_driven.Fat.Interface.{fr_ok}
use rpv_platforms_evt_driven.Fat.Table.{max_open_files, find_free, Fat, fat_fopen, fat_fclose}
use rpv_platforms_evt_driven.Fat.Slots.{used, get_or-replicate}
use mathlib.Core.Option.{none-ne-some}
use rpv_platforms_evt_driven.Fat.Laws.{IsFat, fat_fopen-IsFat}
use rpv_platforms_evt_driven.Fat.Calls.{an_open, a_close, a_read, fat_calls, fat_calls-IsFat}
use rpv_platforms_evt_driven.Fat.Open.{fat_fclose-fat_fopen}
use rpv_platforms_evt_driven.Fat.Fixture.{empty_files, no_files, letter, letters_dir}
use rpv_platforms_evt_driven.Fat.Dir.{FilInfo, to_filinfo, fat_ls}
use rpv_platforms_evt_driven.Fat.Dir.Listing.{entry, no_more, AllReadOut, list_all, fat_ls-Found}
use rpv_platforms_evt_driven.Fat.Times.{
  FilDateTime, to_fil_date_time, fat_date, fat_time, to_fil_date_time_lem,
}

no_files-IsFat : IsFat empty_files no_files
unfolding used
no_files-IsFat = record {
  size = refl;
  counted = refl;
  own_desc = λ i p h. absurd (none-ne-some p (sym (get_or-replicate max_open_files i) ∙ h));
}

second_fd : (fat_fopen empty_files [] 1 (fat_fopen empty_files [] 1 no_files).1).0 ≡ pos 1
unfolding fat_fopen find_free
second_fd = refl

fat_calls-IsFat_example : IsFat empty_files (
    fat_calls empty_files
      (an_open [] 1 ∷ an_open [] 1 ∷ a_read (pos 1) 8 ∷ a_close (pos 0) ∷ a_close (negsuc 0) ∷ [])
      no_files)
fat_calls-IsFat_example =
    fat_calls-IsFat empty_files
      (an_open [] 1 ∷ an_open [] 1 ∷ a_read (pos 1) 8 ∷ a_close (pos 0) ∷ a_close (negsuc 0) ∷ [])
      no_files no_files-IsFat

abbrev one_file : Fat empty_files
one_file = (fat_fopen empty_files [] 1 no_files).1

one_file-IsFat : IsFat empty_files one_file
one_file-IsFat = fat_fopen-IsFat empty_files [] 1 no_files no_files-IsFat

fat_fclose-fat_fopen_example :
    ((fat_fclose empty_files (fat_fopen empty_files [] 1 no_files).0 one_file).files ≡ 0)
    × ((fat_fclose empty_files (fat_fopen empty_files [] 1 no_files).0 one_file).open_files
        ≡ no_files.open_files)
fat_fclose-fat_fopen_example =
    fat_fclose-fat_fopen empty_files [] 1 no_files no_files-IsFat (omega arith) refl

-- 2021-03-04 05:07:08
abbrev a_time : FilDateTime
a_time = record { year = 2021; month = 3; day = 4; hour = 5; minute = 7; second = 8 }

to_fil_date_time_lem_example :
    to_fil_date_time (fat_date a_time) (fat_time a_time) ≡ record a_time { second = 72 }
to_fil_date_time_lem_example = to_fil_date_time_lem a_time (record {
  first_year = omega arith;
  last_year = omega arith;
  months = omega arith;
  days = omega arith;
  hours = omega arith;
  minutes = omega arith;
  seconds = omega arith;
})

-- Two entries are found, and their sizes collected.
fat_ls-Found_example :
    (fils : List FilInfo) × AllReadOut empty_files letters_dir (letter 2 ∷ letter 1 ∷ []) fils
    × (fat_ls empty_files letters_dir
          (λ fil sizes. fil.filesize ∷ sizes)
          3
          0
          (letter 0)
          []
          no_files
          []
        ≡ some (
          record no_files { volume = 5 },
          list_all empty_files letters_dir (λ fil sizes. fil.filesize ∷ sizes) fils [],
        ))
fat_ls-Found_example =
    fat_ls-Found empty_files letters_dir (λ fil sizes. fil.filesize ∷ sizes) 0 (letter 0) []
      (letter 2 ∷ letter 1 ∷ []) fr_ok 0 0 3 no_files [] (omega arith)
      (entry refl (entry refl (no_more refl)))

entry_flags : (to_filinfo empty_files letters_dir (letter 1)).r_only ≡ true
unfolding to_filinfo
entry_flags = refl
