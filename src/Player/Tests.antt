-- ===== src/Player/Tests.antt =====
-- A volume with one sound file, and runs of the command and the service on it.
use rpv_platforms_evt_driven.Base.{
  ℕ, suc, ◌-◌, ◌*◌, ◌≡◌, refl, sym, ◌∙◌, arith, false, List, [], ◌∷◌, ◌++◌, take, drop, replicate,
  length, none, some, pos, negsuc,
}
use mathlib.Core.Option.{none-ne-some}
use rpv_platforms_evt_driven.Dma.Registers.{status_of}
use rpv_platforms_evt_driven.Dma.Engine.{sgdma_sgallowed}
use rpv_platforms_evt_driven.Dma.Fixture.{fresh, sr_halted}
use rpv_platforms_evt_driven.Fat.Interface.{fr_ok, fr_no_file, FatFs}
use rpv_platforms_evt_driven.Fat.Table.{max_open_files, fat_ok, find_free}
use rpv_platforms_evt_driven.Fat.Slots.{used, get_or-replicate}
use rpv_platforms_evt_driven.Fat.Laws.{IsFat}
use rpv_platforms_evt_driven.Player.Service.{
  Sb, Note, sb_idle, sb_close, sb_service, buff_chunk, max_buffer, silence,
}
use rpv_platforms_evt_driven.Player.Total.{Returns, sb_service-Returns}
use rpv_platforms_evt_driven.Player.Hear.{signalled, hear, ReadsFiles}
use rpv_platforms_evt_driven.Player.Plays.{IsStopped}
use rpv_platforms_evt_driven.Player.Playback.{concat}
use rpv_platforms_evt_driven.Player.Command.{
  word16, word32, wavfile_of, khz_22_and_8bit_mono_samples, playcount_of, sb_m,
}
use rpv_platforms_evt_driven.Player.Play.{play-heard}

-- 22050 Hz, 8 bits, one channel, three samples, and a byte behind them.
abbrev tune : List ℕ
tune =
    replicate 22 0
    ++ (1 ∷ 0 ∷ 34 ∷ 86 ∷ 0 ∷ 0 ∷ replicate 6 0)
    ++ (8 ∷ 0 ∷ 0 ∷ 0 ∷ 0 ∷ 0 ∷ 3 ∷ 0 ∷ 0 ∷ 0 ∷ 10 ∷ 20 ∷ 30 ∷ 99 ∷ [])

-- A library in which every file holds these bytes. A descriptor is what was not read of it.
abbrev one_tune : FatFs
one_tune = record {
  Volume = ℕ;
  Fil = List ℕ;
  f_mount = λ path v. (fr_ok, v);
  f_unmount = λ path v. (fr_ok, v);
  f_chdir = λ path v. (fr_no_file, v);
  f_mkdir = λ path v. (fr_no_file, v);
  f_unlink = λ path v. (fr_ok, v);
  f_open = λ fil path mode v. (fr_ok, tune, v);
  f_close = λ fil v. (fr_ok, fil, v);
  f_size = λ fil. length fil;
  f_read = λ fil n v. (fr_ok, take n fil, drop n fil, v);
  f_write = λ fil bytes v. (fr_ok, 0, fil, v);
  invalid_object = 9;
}

abbrev tune_reads : ReadsFiles one_tune
tune_reads = record {
  remaining = λ fil v. fil;
  read_bytes = λ fil n v. refl;
  read_rest = λ fil n v. refl;
}

abbrev idle : Sb one_tune
idle = record {
  fd = negsuc 0;
  sb_reg = sb_idle;
  playsize = 0;
  playcount = 0;
  fat = record {
    files = 0;
    error_code = fat_ok;
    file_desc = λ i. [];
    open_files = replicate max_open_files none;
    volume = 0;
  };
  dma = fresh;
  notes = [];
}

idle-IsFat : IsFat one_tune idle.fat
unfolding used
idle-IsFat = record {
  size = refl;
  counted = refl;
  own_desc = λ i p h. absurd (none-ne-some p (sym (get_or-replicate max_open_files i) ∙ h));
}

-- `play` and a name, and rubbish on the stack.
abbrev argv : List (List ℕ)
argv = (112 ∷ []) ∷ (97 ∷ []) ∷ []

abbrev stack : List ℕ
stack = replicate 44 7

two_chunks : (playcount_of 3 ≡ 2) × (playcount_of 8192 ≡ 2) × (playcount_of 8193 ≡ 3)
unfolding playcount_of
two_chunks = (refl, refl, refl)

play-heard_example :
    (n : ℕ) × (u t : Sb one_tune) × (before : List Note) × (hs : List (List ℕ)) × (playcount_of 3
      ≡ suc n)
    × ((sb_m one_tune 1 stack argv idle).0 ≡ pos 0)
    × (sb_service one_tune 4 (signalled sr_halted) (sb_m one_tune 1 stack argv idle).2 ≡ some u)
    × (hear one_tune sr_halted (suc (suc n)) false u ≡ some (hs, t))
    × (concat hs
        ≡ replicate max_buffer silence
          ++ ((10 ∷ 20 ∷ 30 ∷ []) ++ replicate (n * buff_chunk - 3) silence))
    × IsStopped one_tune before idle.fat t
unfolding sgdma_sgallowed status_of find_free khz_22_and_8bit_mono_samples wavfile_of word16 word32
play-heard_example =
    play-heard one_tune tune_reads 1 sr_halted stack argv idle refl refl idle-IsFat
      (λ e. absurd (omega arith)) refl refl refl (omega arith) refl

sb_service-Returns_example :
    Returns one_tune
      (sb_service one_tune 4 (signalled sr_halted) (record idle { sb_reg = sb_close }))
sb_service-Returns_example =
    sb_service-Returns one_tune (signalled sr_halted) (record idle { sb_reg = sb_close })
