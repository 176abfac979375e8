-- ===== src/Player/Command.antt =====
-- src/arch/mb_le/services/sb_service.c: the command `play`.
use rpv_platforms_evt_driven.Base.{
  ℕ, ◌+◌, ◌*◌, ◌/◌, ◌%◌, ◌^◌, ◌==◌, ltb, if◌then◌else◌, Bool, not, ◌&&◌, List, [], ◌∷◌, ◌++◌, drop,
  get_or, length, ℤ, pos, negsuc,
}
use rpv_platforms_evt_driven.Fat.Interface.{FatFs}
use rpv_platforms_evt_driven.Fat.Table.{fat_fopen, fat_fread, fat_fclose}
use rpv_platforms_evt_driven.Player.Service.{Sb, is_open, buff_chunk}

-- The fields of `wavfile_t` that the command uses, at their offsets in the 44 bytes of the header.
pub record Wavfile : Type 0 where
  pub num_channels : ℕ
  pub sample_rate : ℕ
  pub bits_per_sample : ℕ
  pub data_size : ℕ

abbrev pub sizeof_wavfile : ℕ
sizeof_wavfile = 44

unfoldable pub word16 : List ℕ → ℕ → ℕ
word16 w i = (get_or w i 0 + get_or w (i + 1) 0 * 2 ^ 8) % 2 ^ 16

unfoldable pub word32 : List ℕ → ℕ → ℕ
word32 w i = (word16 w i + word16 w (i + 2) * 2 ^ 16) % 2 ^ 32

unfoldable pub wavfile_of : List ℕ → Wavfile
wavfile_of w = record {
  num_channels = word16 w 22;
  sample_rate = word32 w 24;
  bits_per_sample = word16 w 34;
  data_size = word32 w 40;
}

-- KHZ_22_AND_8BIT_MONO_SAMPLES
unfoldable pub khz_22_and_8bit_mono_samples : Wavfile → Bool
khz_22_and_8bit_mono_samples w =
    (w.sample_rate == 22050) && ((w.bits_per_sample == 8) && (w.num_channels == 1))

-- What the command prints.
pub data Line : Type 0 where
  no_file_given unable_to_open failed_read unsupported_format playing : Line
  samples_size : ℕ → Line
  audio_format : (rate bits : ℕ) → (mono : Bool) → Line

-- The number of chunks for the samples, and one for silence.
unfoldable pub playcount_of : ℕ → ℕ
playcount_of size =
    (if ltb 0 (size % buff_chunk) then size / buff_chunk + 1 else size / buff_chunk) + 1

module _ (ff : FatFs) where
  -- The end of `sb_m`, with the header in `w`: what it returns, prints, and leaves.
  unfoldable pub start_play : ℤ → List ℕ → List Line → Sb ff → ℤ × List Line × Sb ff
  start_play ifd w printed s =
      let wav = wavfile_of w in
      if not (khz_22_and_8bit_mono_samples wav)
      then (
        negsuc 0,
        printed ++ (unsupported_format ∷ []),
        record s { fat = fat_fclose ff ifd s.fat },
      )
      else (
        pos 0,
        printed
            ++ (samples_size wav.data_size
                ∷ audio_format wav.sample_rate wav.bits_per_sample (wav.num_channels == 1)
                ∷ playing
                ∷ []),
        record s { fd = ifd; playcount = playcount_of wav.data_size; playsize = wav.data_size },
      )

  -- `sb_m` behind `fat_fopen`. The bytes of the header that the read leaves alone are those that
  -- `stack` holds there.
  unfoldable pub read_header : (stack : List ℕ) → ℤ → Sb ff → ℤ × List Line × Sb ff
  read_header stack ifd s =
      let (bytes, fat) = fat_fread ff ifd sizeof_wavfile s.fat in
      let w = bytes ++ drop (length bytes) stack in
      if length bytes == 0
      then start_play ifd w (failed_read ∷ []) (record s { fat = fat_fclose ff ifd fat })
      else start_play ifd w [] (record s { fat = fat })

  -- `sb_m`, with the value of FILE_READ and the words of the command line.
  unfoldable pub sb_m :
      (file_read : ℕ) (stack : List ℕ) (argv : List (List ℕ)) → Sb ff → ℤ × List Line × Sb ff
  sb_m file_read stack argv s =
      if ltb (length argv) 2
      then (negsuc 0, no_file_given ∷ [], s)
      else let (ifd, fat) = fat_fopen ff (get_or argv 1 []) file_read s.fat in
        if is_open ifd
        then read_header stack ifd (record s { fat = fat })
        else (negsuc 0, unable_to_open ∷ [], record s { fat = fat })
