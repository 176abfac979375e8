-- ===== src/Player/Plays.antt =====
-- A call of the service after a half was played: it plays on, or it closes the file.
use rpv_platforms_evt_driven.Base.{
  ℕ, suc, ◌+◌, ◌-◌, ◌^◌, ◌≤◌, ◌≡◌, refl, sym, ap, ap₂, subst, ◌∙◌, arith, Bool, true, false, not,
  ◌&&◌, ◌==◌, ltb, if-both, if◌then◌else◌, List, ◌∷◌, take, drop, length, Option, some, negsuc,
}
use rpv_platforms_evt_driven.Dma.State.{
  Dma, Effect, write_cr, await_halted, xdma1_mm2s, sound_ring, copy_in, copy_out,
}
use rpv_platforms_evt_driven.Dma.Registers.{control_reg}
use rpv_platforms_evt_driven.Dma.Engine.{sgdma_engstop}
use rpv_platforms_evt_driven.Dma.Sound.{fill, sbdma_sgstop}
use rpv_platforms_evt_driven.Dma.Sound.Laws.{IsSound, second_bd}
use rpv_platforms_evt_driven.Fat.Interface.{FatFs}
use rpv_platforms_evt_driven.Fat.Table.{Fat, fat_fclose}
use rpv_platforms_evt_driven.Player.Table.{SameTable, fat_fclose-fat_fread}
use rpv_platforms_evt_driven.Player.Service.{
  Sb, Note, sb_idle, sb_close, init_case, note, note_after, block_signals, unblock_signals,
  playback_ok, closed_and_stopped, fill_chunk, sb_service, buff_chunk, silence,
}
use rpv_platforms_evt_driven.Player.Total.{closed, service-close}
use rpv_platforms_evt_driven.Player.Chunks.{length-take-le}
use rpv_platforms_evt_driven.Player.Hear.{
  half_addr, half_played, signalled, after_half, ReadsFiles, IsPlaying,
}
use rpv_platforms_evt_driven.Player.Round.{
  padded, sbdma_sgcmplt-half, sbdma_sgcmplt-bytes, half_played-signals, half_played-bytes,
  fat_fread-IsOpenAt, filled, fill_chunk-plays, filled-bytes,
}
use rpv_platforms_evt_driven.Player.Refill.{
  not-not, refilled-half, completed, service-completed, was_read, chunk_read, write_case-buffer,
  chunk_read_lem, samples_left_lem,
}

-- The ring is a matter of the descriptors alone, and a refill keeps those.
IsSound-bds : {s t : Dma} → t.bds ≡ s.bds → IsSound s buff_chunk → IsSound t buff_chunk
IsSound-bds same v = record {
  next_first = ap (λ m. (m sound_ring).next) same ∙ v.next_first;
  next_second = ap (λ m. (m second_bd).next) same ∙ v.next_second;
  buffer_first = ap (λ m. (m sound_ring).buffer) same ∙ v.buffer_first;
  buffer_second = ap (λ m. (m second_bd).buffer) same ∙ v.buffer_second;
  len_first = ap (λ m. (m sound_ring).buffer_len) same ∙ v.len_first;
  len_second = ap (λ m. (m second_bd).buffer_len) same ∙ v.len_second;
}

filled-bds :
    (ff : FatFs) (reads : ReadsFiles ff) (b n : ℕ) (s : Sb ff)
    → (filled ff reads b n s).bds ≡ s.dma.bds
filled-bds ff reads b n s = if-both (λ (d : Dma). d.bds ≡ s.dma.bds) (ltb n buff_chunk) refl refl

fill_chunk-ends :
    (ff : FatFs) (again : Sb ff → Option (Sb ff)) (b n : ℕ) (s : Sb ff)
    → ((n == 0) && (s.playcount == 0)) ≡ true
    → fill_chunk ff again b n s ≡ note_after ff playback_ok (again (record s { sb_reg = sb_close }))
unfolding fill_chunk
fill_chunk-ends ff again b n s h = rw h refl

-- The service is idle and has no file, and has told so since it had told these notes. As many files
-- are open as in this table, in the same slots. The engine was last given the control word 4, the
-- reset bit, and the service waited until it was halted.
pub record IsStopped (ff : FatFs) (before : List Note) (f : Fat ff) (t : Sb ff) : Type 0 where
  pub no_file : t.fd ≡ negsuc 0
  pub is_idle : t.sb_reg ≡ sb_idle
  pub told : t.notes ≡ unblock_signals ∷ playback_ok ∷ closed_and_stopped ∷ block_signals ∷ before
  pub same_table : SameTable ff f t.fat
  pub earlier : List Effect
  pub halted : t.dma.trace ≡ await_halted xdma1_mm2s ∷ write_cr xdma1_mm2s (2 ^ 2) ∷ earlier

module _ (ff : FatFs) (reads : ReadsFiles ff) where
  module _ {half : Bool} {x y rest : List ℕ} {count : ℕ} {s : Sb ff} (sr : ℕ)
      (v : IsPlaying ff reads half x y rest (suc count) s) where
    -- The call gets as far as the test for the end of the samples.
    service-read :
        let now = completed ff (after_half ff half s) in
        sb_service ff 4 (signalled sr) (after_half ff half s)
        ≡ note_after ff unblock_signals (
            fill_chunk ff
              (sb_service ff 2 (signalled sr))
              (half_addr half)
              (length (chunk_read ff now))
              (was_read ff (half_addr half) now))
    service-read =
        let (fine, done) = half_played-signals half s.dma in
        let (ring, out, first, second) =
          sbdma_sgcmplt-half half v.ring v.first_empty v.second_empty in
        service-completed ff sr (after_half ff half s) v.waits fine done
        ∙ ap (λ o. note_after ff unblock_signals o)
            (write_case-buffer ff (sb_service ff 2 (signalled sr)) (half_addr half)
              (completed ff (after_half ff half s)) out)

    -- The state after the refill.
    abbrev refilled : Sb ff
    refilled =
        let now = completed ff (after_half ff half s) in
        let read = was_read ff (half_addr half) now in
        note ff unblock_signals
          (record read { dma = filled ff reads (half_addr half) (length (chunk_read ff s)) read })

    refilled-count : refilled.playcount ≡ count
    refilled-count = omega (arith, v.counted, v.count_bound)

    fits : length (chunk_read ff s) ≤ buff_chunk
    fits =
        subst (λ bs. length bs ≤ buff_chunk) (sym (chunk_read_lem ff reads v))
          (length-take-le buff_chunk rest)

    refilled-bytes :
        refilled.dma.bytes
        ≡ fill
            (copy_in s.dma.bytes (half_addr half) (chunk_read ff s))
            (half_addr half + length (chunk_read ff s))
            silence
            (buff_chunk - length (chunk_read ff s))
    refilled-bytes =
        let n = length (chunk_read ff s) in
        let b = half_addr half in
        filled-bytes ff reads b n (was_read ff b (completed ff (after_half ff half s))) fits
        ∙ ap (λ m. fill (copy_in m b (chunk_read ff s)) (b + n) silence (buff_chunk - n))
            (sbdma_sgcmplt-bytes buff_chunk (half_played half s.dma) ∙ half_played-bytes half s.dma)

    refilled-IsPlaying :
        IsPlaying ff reads
          (not half)
          y
          (padded (take buff_chunk rest))
          (drop buff_chunk rest)
          count
          refilled
    refilled-IsPlaying =
        let n = if ltb buff_chunk s.playsize then buff_chunk else s.playsize in
        let b = half_addr half in
        let read = was_read ff b (completed ff (after_half ff half s)) in
        let (ring, out, first, second) =
          sbdma_sgcmplt-half half v.ring v.first_empty v.second_empty in
        let same = filled-bds ff reads b (length (chunk_read ff s)) read in
        let memory = refilled-half half s.dma.bytes (chunk_read ff s) fits in
        let (left, bound) = samples_left_lem ff reads v in
        record {
          waits = refl;
          left = drop n v.left;
          is_open_at = (fat_fread-IsOpenAt ff reads s.fd v.left n s.fat v.is_open_at).1;
          samples_left = left;
          size_bound = bound;
          counted = refilled-count;
          count_bound = omega (arith, v.count_bound);
          ring = IsSound-bds same ring;
          first_empty = ap (λ m. (m sound_ring).cmplt) same ∙ first;
          second_empty = ap (λ m. (m second_bd).cmplt) same ∙ second;
          now =
              ap (λ m. copy_out m (half_addr (not half)) buff_chunk) refilled-bytes
              ∙ memory.1
              ∙ v.later;
          later =
              ap₂ (λ m h. copy_out m (half_addr h) buff_chunk) refilled-bytes (not-not half)
              ∙ memory.0
              ∙ ap padded (chunk_read_lem ff reads v);
        }

    -- The service plays on, with the next chunk of the samples in the half that was played.
    pub service-IsPlaying :
        ((length (take buff_chunk rest) == 0) && (count == 0)) ≡ false
        → (t : Sb ff) × (sb_service ff 4 (signalled sr) (after_half ff half s) ≡ some t)
          × IsPlaying ff reads
              (not half)
              y
              (padded (take buff_chunk rest))
              (drop buff_chunk rest)
              count
              t
          × ((f : Fat ff)
              → SameTable ff f (fat_fclose ff s.fd s.fat)
              → SameTable ff f (fat_fclose ff t.fd t.fat))
    service-IsPlaying more = (
      refilled,
      service-read
          ∙ ap (λ o. note_after ff unblock_signals o)
              (fill_chunk-plays ff reads _ _ _ _ (
                ap₂ (λ n c. (n == 0) && (c == 0)) (ap (λ bs. length bs) (chunk_read_lem ff reads v))
                  refilled-count
                ∙ more)),
      refilled-IsPlaying,
      λ f same. fat_fclose-fat_fread ff s.fd _ f s.fat same,
    )

    -- At the end of the samples, with no half to come, it closes the file and stops.
    pub service-closes :
        ((length (take buff_chunk rest) == 0) && (count == 0)) ≡ true
        → (f : Fat ff) → SameTable ff f (fat_fclose ff s.fd s.fat)
        → (t : Sb ff) × (sb_service ff 4 (signalled sr) (after_half ff half s) ≡ some t)
          × IsStopped ff s.notes f t
    unfolding init_case sbdma_sgstop sgdma_engstop control_reg
    service-closes last f same =
        let now = was_read ff (half_addr half) (completed ff (after_half ff half s)) in
        let ended =
          ap₂ (λ n c. (n == 0) && (c == 0)) (ap (λ bs. length bs) (chunk_read_lem ff reads v))
            refilled-count
          ∙ last in
        (
          note ff unblock_signals (note ff playback_ok (closed ff now)),
          service-read
              ∙ ap (λ o. note_after ff unblock_signals o)
                  (fill_chunk-ends ff (sb_service ff 2 (signalled sr)) (half_addr half)
                      (length (chunk_read ff s)) now ended
                    ∙ ap (λ o. note_after ff playback_ok o)
                        (service-close ff 0 (signalled sr) now)),
          record {
            no_file = refl;
            is_idle = refl;
            told = refl;
            same_table = fat_fclose-fat_fread ff s.fd _ f s.fat same;
            earlier = _;
            halted = refl;
          },
        )
