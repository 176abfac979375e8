-- ===== src/Player/Play.antt =====
-- The command `play` and the service together.
use rpv_platforms_evt_driven.Base.{
  ℕ, suc, ◌+◌, ◌-◌, ◌*◌, ◌/◌, ◌%◌, ◌^◌, ◌≤◌, ◌<◌, ◌≡◌, ◌≢◌, ◌⊎◌, inl, inr, ==_iff, get_or-set_self,
  refl, ap, ◌∙◌, arith, true, false, not, ◌==◌, ltb, if◌then◌else◌, if-both, Bool-cases, List, [],
  ◌∷◌, ◌++◌, append-nil, take, drop, get_or, length, replicate, none, some, ℤ, pos, negsuc,
}
use rpv_platforms_evt_driven.Dma.Engine.{sgdma_sgallowed}
use rpv_platforms_evt_driven.Fat.Interface.{fr_ok, FatFs}
use rpv_platforms_evt_driven.Fat.Table.{Fat, max_open_files, fat_fopen, fat_fread, fat_fclose}
use rpv_platforms_evt_driven.Fat.Laws.{IsFat, free_slot}
use rpv_platforms_evt_driven.Fat.Open.{next_fd, open_result, fat_fclose-fat_fopen}
use rpv_platforms_evt_driven.Player.Service.{
  Sb, Note, sb_idle, is_open, sb_service, buff_chunk, max_buffer, silence,
}
use rpv_platforms_evt_driven.Player.Chunks.{length-take-le, length-take, length-zero, length-drop}
use rpv_platforms_evt_driven.Player.Hear.{signalled, hear, ReadsFiles, IsOpenAt}
use rpv_platforms_evt_driven.Player.Round.{fat_fread-IsOpenAt}
use rpv_platforms_evt_driven.Player.Table.{fat_fclose-fat_fread}
use rpv_platforms_evt_driven.Player.Plays.{IsStopped}
use rpv_platforms_evt_driven.Player.Playback.{concat}
use rpv_platforms_evt_driven.Player.Start.{playback}
use rpv_platforms_evt_driven.Player.Command.{
  Line, no_file_given, unable_to_open, failed_read, sizeof_wavfile, word32, wavfile_of,
  khz_22_and_8bit_mono_samples, playcount_of, start_play, read_header, sb_m,
}

-- The chunks that are counted hold the samples, with one chunk more.
playcount_of_lem :
    (size : ℕ)
    → (n : ℕ) × (playcount_of size ≡ suc n)
      × (size ≤ n * buff_chunk)
      × (n * buff_chunk < size + buff_chunk)
unfolding playcount_of
playcount_of_lem size = (
  (if ltb 0 (size % buff_chunk) then size / buff_chunk + 1 else size / buff_chunk),
  omega arith,
  ground arith,
  ground arith,
)

data_size-lt : (w : List ℕ) → (wavfile_of w).data_size < 2 ^ 32
unfolding wavfile_of word32
data_size-lt w = omega arith

module _ (ff : FatFs) (s : Sb ff) where
  -- The command succeeded, or changed nothing but the file layer.
  abbrev Ended : ℤ × List Line × Sb ff → Type 0
  Ended p = (p.0 ≡ pos 0) ⊎ ((p.0 ≡ negsuc 0) × (p.2 ≡ record s { fat = p.2.fat }))

  start_play-Ended :
      (ifd : ℤ) (w : List ℕ) (printed : List Line) (fat : Fat ff)
      → Ended (start_play ff ifd w printed (record s { fat = fat }))
  unfolding start_play
  start_play-Ended ifd w printed fat =
      if-both Ended (not (khz_22_and_8bit_mono_samples (wavfile_of w))) (inr (refl, refl))
        (inl refl)

  read_header-Ended :
      (stack : List ℕ) (ifd : ℤ) (fat : Fat ff)
      → Ended (read_header ff stack ifd (record s { fat = fat }))
  unfolding read_header
  read_header-Ended stack ifd fat =
      let r = fat_fread ff ifd sizeof_wavfile fat in
      let w = r.0 ++ drop (length r.0) stack in
      if-both Ended (length r.0 == 0)
        (start_play-Ended ifd w (failed_read ∷ []) (fat_fclose ff ifd r.1))
        (start_play-Ended ifd w [] r.1)

  -- Whatever the command line, the file and the bytes on the stack are, the command returns 0, or
  -- it returns -1 and leaves the service and the sound engine as they were.
  pub sb_m-refused :
      (mode : ℕ) (stack : List ℕ) (argv : List (List ℕ)) → Ended (sb_m ff mode stack argv s)
  unfolding sb_m
  sb_m-refused mode stack argv =
      let o = fat_fopen ff (get_or argv 1 []) mode s.fat in
      if-both {yes_case = (negsuc 0, no_file_given ∷ [], s)} Ended (ltb (length argv) 2)
        (inr (refl, refl))
        (if-both {no_case = (negsuc 0, unable_to_open ∷ [], record s { fat = o.1 })} Ended
          (is_open o.0) (read_header-Ended stack o.0 o.1) (inr (refl, refl)))

module _ (ff : FatFs) (reads : ReadsFiles ff) where
  -- The bytes of the file that an open finds.
  abbrev content : (path : List ℕ) (mode : ℕ) → Fat ff → List ℕ
  content path mode f =
      let (result, fil, v) = ff.f_open (f.file_desc (next_fd ff f)) path mode f.volume in
      reads.remaining fil v

  fat_fopen-IsOpenAt :
      (path : List ℕ) (mode : ℕ) (f : Fat ff)
      → IsFat ff f
      → f.files ≢ max_open_files
      → open_result ff path mode f ≡ fr_ok
      → let (fd, f') = fat_fopen ff path mode f in
        (is_open fd ≡ true) × IsOpenAt ff reads fd (content path mode f) f'
  unfolding fat_fopen
  fat_fopen-IsOpenAt path mode f v room ok =
      let i = next_fd ff f in
      let free = free_slot v room in
      elim (Bool-cases (f.files == max_open_files)) [
        | inl full ↦ absurd (room ((==_iff f.files max_open_files).0 full))
        | inr some_free ↦
            rw (some_free, ok)
              (
                refl,
                record {
                  index = i;
                  own = i;
                  is_index = refl;
                  in_table = omega (arith, free, v.size);
                  slot = get_or-set_self f.open_files i (some i) none free;
                  bytes_left = ground arith;
                },
              )
      ]

  -- What the command leaves on a file with a header in the format that is played.
  abbrev plays_file : (mode : ℕ) (path : List ℕ) → Sb ff → Sb ff
  plays_file mode path s =
      let (ifd, f) = fat_fopen ff path mode s.fat in
      let wav = wavfile_of (take sizeof_wavfile (content path mode s.fat)) in
      record s {
        fat = (fat_fread ff ifd sizeof_wavfile f).1;
        fd = ifd;
        playcount = playcount_of wav.data_size;
        playsize = wav.data_size;
      }

  read_header-plays :
      (stack c : List ℕ) (ifd : ℤ) (s : Sb ff)
      → length stack ≡ sizeof_wavfile
      → (fat_fread ff ifd sizeof_wavfile s.fat).0 ≡ take sizeof_wavfile c
      → sizeof_wavfile ≤ length c
      → khz_22_and_8bit_mono_samples (wavfile_of (take sizeof_wavfile c)) ≡ true
      → let (r, printed, t) = read_header ff stack ifd s in
        let wav = wavfile_of (take sizeof_wavfile c) in
        (r ≡ pos 0)
        × (t ≡ record s {
          fat = (fat_fread ff ifd sizeof_wavfile s.fat).1;
          fd = ifd;
          playcount = playcount_of wav.data_size;
          playsize = wav.data_size;
        })
  unfolding read_header start_play
  read_header-plays stack c ifd s full bytes long format =
      let w = take sizeof_wavfile c in
      let whole : length w ≡ sizeof_wavfile = length-take sizeof_wavfile c long in
      let rest : drop (length w) stack ≡ [] =
        length-zero (drop (length w) stack) (omega (arith, length-drop (length w) stack, full)) in
      let header : w ++ drop (length w) stack ≡ w = ap (λ xs. w ++ xs) rest ∙ append-nil w in
      let some_read : (length w == 0) ≡ false = ap (λ n. n == 0) whole in
      rw (bytes, some_read, header, format) (refl, refl)

  -- The command on such a file, in a table of files with room for it.
  sb_m-plays :
      (mode : ℕ) (stack : List ℕ) (argv : List (List ℕ)) (s : Sb ff)
      → let path = get_or argv 1 [] in
        let c = content path mode s.fat in
        IsFat ff s.fat
        → s.fat.files ≢ max_open_files
        → open_result ff path mode s.fat ≡ fr_ok
        → ltb (length argv) 2 ≡ false
        → length stack ≡ sizeof_wavfile
        → sizeof_wavfile ≤ length c
        → khz_22_and_8bit_mono_samples (wavfile_of (take sizeof_wavfile c)) ≡ true
        → let (r, printed, t) = sb_m ff mode stack argv s in
          (r ≡ pos 0)
          × (t ≡ plays_file mode path s)
          × IsOpenAt ff reads
              (plays_file mode path s).fd
              (drop sizeof_wavfile c)
              (plays_file mode path s).fat
  unfolding sb_m
  sb_m-plays mode stack argv s v room ok words full long format =
      let path = get_or argv 1 [] in
      let c = content path mode s.fat in
      let o = fat_fopen ff path mode s.fat in
      let (found, file) = fat_fopen-IsOpenAt path mode s.fat v room ok in
      let (bytes, behind) = fat_fread-IsOpenAt ff reads o.0 c sizeof_wavfile o.1 file in
      let (zero_is, state) =
        read_header-plays stack c o.0 (record s { fat = o.1 }) full bytes long format in
      rw (words, found) (zero_is, state, behind)

  -- Suppose that the service is idle and the engine halted, that the table of files is consistent
  -- and has room, that FatFs opens the file named on the command line and its reads give the bytes
  -- of the file, and that these start with a header of 22050 Hz, 8 bits and one channel. Then the
  -- command returns 0, and the next call of the service starts the engine. After the engine has
  -- played the two halves in turn for two more halves than there are chunks of samples, the service
  -- is idle and has no file; as many files are open as before the command, in the same slots; and
  -- the last thing done to the engine was to reset it by its control word and to wait until it halts.
  -- What was heard is a buffer of silence, then the samples of the file in order, as many as the
  -- header says and the file has, then silence to the end of the chunk.
  pub play-heard :
      (mode sr : ℕ) (stack : List ℕ) (argv : List (List ℕ)) (s : Sb ff)
      → let c = content (get_or argv 1 []) mode s.fat in
        let wav = wavfile_of (take sizeof_wavfile c) in
        let samples = take wav.data_size (drop sizeof_wavfile c) in
        s.sb_reg ≡ sb_idle
        → sgdma_sgallowed sr ≡ true
        → IsFat ff s.fat
        → s.fat.files ≢ max_open_files
        → open_result ff (get_or argv 1 []) mode s.fat ≡ fr_ok
        → ltb (length argv) 2 ≡ false
        → length stack ≡ sizeof_wavfile
        → sizeof_wavfile ≤ length c
        → khz_22_and_8bit_mono_samples wav ≡ true
        → (n : ℕ) × (u t : Sb ff) × (before : List Note) × (hs : List (List ℕ)) × (playcount_of
              wav.data_size
            ≡ suc n)
          × ((sb_m ff mode stack argv s).0 ≡ pos 0)
          × (sb_service ff 4 (signalled sr) (sb_m ff mode stack argv s).2 ≡ some u)
          × (hear ff sr (suc (suc n)) false u ≡ some (hs, t))
          × (concat hs
              ≡ replicate max_buffer silence
                ++ (samples ++ replicate (n * buff_chunk - length samples) silence))
          × IsStopped ff before s.fat t
  play-heard mode sr stack argv s idle halted v room ok words full long format =
      let c = content (get_or argv 1 []) mode s.fat in
      let wav = wavfile_of (take sizeof_wavfile c) in
      let (n, count, enough, no_more) = playcount_of_lem wav.data_size in
      let (zero_is, state, file) = sb_m-plays mode stack argv s v room ok words full long format in
      let size : wav.data_size < 2 ^ 32 = data_size-lt (take sizeof_wavfile c) in
      let some_samples = length-take-le wav.data_size (drop sizeof_wavfile c) in
      let (u, t, before, hs, starts, hears, sound, stopped) =
        playback ff reads sr n (drop sizeof_wavfile c) (plays_file mode (get_or argv 1 []) s) idle
          file size count (omega (arith, no_more, size)) halted
          (omega (arith, enough, some_samples)) s.fat
          (fat_fclose-fat_fread ff _ sizeof_wavfile s.fat _
            (fat_fclose-fat_fopen ff (get_or argv 1 []) mode s.fat v room ok)) in
      (
        n,
        u,
        t,
        before,
        hs,
        count,
        zero_is,
        ap (λ p. sb_service ff 4 (signalled sr) p) state ∙ starts,
        hears,
        sound,
        stopped,
      )
