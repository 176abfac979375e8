-- ===== src/Player/Start.antt =====
-- An opened file is played: the service starts the engine, and runs until the file is closed.
use rpv_platforms_evt_driven.Base.{
  ℕ, suc, ◌+◌, ◌-◌, ◌*◌, ◌%◌, ◌^◌, ◌≤◌, ◌<◌, ◌≡◌, refl, sym, ap, ap₂, subst, ◌∙◌, arith, true,
  false, List, ◌++◌, append_assoc, take, length, replicate, some,
}
use rpv_platforms_evt_driven.Dma.Bd.{write_bd, ring_loop, sgdma_ring, valid_split}
use rpv_platforms_evt_driven.Dma.State.{Dma, sound_ring}
use rpv_platforms_evt_driven.Dma.Engine.{sgdma_sgallowed, sgdma_cyclic_trans}
use rpv_platforms_evt_driven.Dma.Sound.{sbdma_sgcyclic}
use rpv_platforms_evt_driven.Dma.Sound.Laws.{second_bd, sbdma_sgcyclic-IsSound}
use rpv_platforms_evt_driven.Fat.Interface.{FatFs}
use rpv_platforms_evt_driven.Fat.Table.{Fat, fat_fclose}
use rpv_platforms_evt_driven.Player.Table.{SameTable}
use rpv_platforms_evt_driven.Player.Service.{
  Sb, Note, sb_idle, sb_wait, start_case, idle_case, sb_service, buff_chunk, max_buffer, silence,
}
use rpv_platforms_evt_driven.Player.Chunks.{copy_out-const}
use rpv_platforms_evt_driven.Player.Hear.{signalled, hear, ReadsFiles, IsOpenAt, IsPlaying}
use rpv_platforms_evt_driven.Player.Playback.{
  heard, heard_lem, concat, replicate-append, concat-chunks, hear_lem,
}
use rpv_platforms_evt_driven.Player.Plays.{IsStopped}

-- The descriptors of a ring that was set up are not completed.
sbdma_sgcyclic-empty :
    (sr : ℕ) (s : Dma)
    → sgdma_sgallowed sr ≡ true
    → let d = (sbdma_sgcyclic sr silence max_buffer buff_chunk s).1 in
      ((d.bds sound_ring).cmplt ≡ false) × ((d.bds second_bd).cmplt ≡ false)
unfolding sbdma_sgcyclic sgdma_cyclic_trans sgdma_ring ring_loop write_bd valid_split
sbdma_sgcyclic-empty sr s allowed = rw allowed (refl, refl)

module _ (ff : FatFs) (reads : ReadsFiles ff) where
  -- The first call on an open file starts the engine over a buffer of silence.
  service-starts :
      (sr : ℕ) (left : List ℕ) (s : Sb ff)
      → s.sb_reg ≡ sb_idle
      → IsOpenAt ff reads s.fd left s.fat
      → s.playsize < 2 ^ 32
      → s.playcount + 1 < 2 ^ 32
      → sgdma_sgallowed sr ≡ true
      → (t : Sb ff) × (sb_service ff 4 (signalled sr) s ≡ some t)
        × IsPlaying ff reads false
            (replicate buff_chunk silence)
            (replicate buff_chunk silence)
            (take s.playsize left)
            (s.playcount + 1)
            t
        × (t.fd ≡ s.fd)
        × (t.fat ≡ s.fat)
  unfolding sb_service idle_case start_case valid_split
  service-starts sr left s idle file size count allowed =
      let d = sbdma_sgcyclic sr silence max_buffer buff_chunk s.dma in
      let (out, ring, silent) =
        sbdma_sgcyclic-IsSound sr silence buff_chunk s.dma refl allowed (omega arith) in
      let (first, second) = sbdma_sgcyclic-empty sr s.dma allowed in
      (
        record s { playcount = (s.playcount + 1) % 2 ^ 32; sb_reg = sb_wait; dma = d.1 },
        rw (idle, file.is_index, out) refl,
        record {
          waits = refl;
          left = left;
          is_open_at = file;
          samples_left = refl;
          size_bound = size;
          counted = omega (arith, count);
          count_bound = count;
          ring = ring;
          first_empty = first;
          second_empty = second;
          now =
              copy_out-const d.1.bytes _ buff_chunk silence
                (λ x lo hi. silent x (omega arith) (omega arith));
          later =
              copy_out-const d.1.bytes _ buff_chunk silence
                (λ x lo hi. silent x (omega arith) (omega arith));
        },
        refl,
        refl,
      )

  -- Suppose that the service is idle, with a file open whose reads give its bytes, a play size in
  -- 32 bits and a play count of `n + 1`, and that the engine is halted. If `n` chunks hold the
  -- samples, as far as the file has them, the service starts. When the engine has played the two
  -- halves in turn `n + 2` times, the service has closed the file and is idle, and what was heard
  -- is a buffer of silence, all the samples in order, and silence up to the end of the last chunk.
  -- The table of open files is the one that a close of the descriptor leaves at the start.
  pub playback :
      (sr n : ℕ) (left : List ℕ) (s : Sb ff)
      → s.sb_reg ≡ sb_idle
      → IsOpenAt ff reads s.fd left s.fat
      → s.playsize < 2 ^ 32
      → s.playcount ≡ suc n
      → suc (suc n) < 2 ^ 32
      → sgdma_sgallowed sr ≡ true
      → let samples = take s.playsize left in
        length samples ≤ n * buff_chunk
        → (f : Fat ff) → SameTable ff f (fat_fclose ff s.fd s.fat)
        → (u t : Sb ff) × (before : List Note) × (hs : List (List ℕ)) × (sb_service ff 4
              (signalled sr)
              s
            ≡ some u)
          × (hear ff sr (suc (suc n)) false u ≡ some (hs, t))
          × (concat hs
              ≡ replicate max_buffer silence
                ++ (samples ++ replicate (n * buff_chunk - length samples) silence))
          × IsStopped ff before f t
  playback sr n left s idle file size counted count allowed fit f same =
      let samples = take s.playsize left in
      let tail = samples ++ replicate (n * buff_chunk - length samples) silence in
      let quiet = replicate buff_chunk silence in
      let more : s.playcount + 1 ≡ suc (suc n) = omega arith in
      let (u, starts, first, fd, fat) =
        service-starts sr left s idle file size (omega arith) allowed in
      let playing = subst (λ c. IsPlaying ff reads false quiet quiet samples c u) more first in
      let closes =
        subst (λ g. SameTable ff f g) (sym (ap₂ (λ d g. fat_fclose ff d g) fd fat)) same in
      let (t, before, hears, stopped) =
        hear_lem ff reads sr (suc n) playing (omega arith) f closes in
      (
        u,
        t,
        before,
        heard (suc (suc n)) quiet quiet samples,
        starts,
        hears,
        ap concat (heard_lem n quiet quiet samples)
            ∙ ap (λ xs. quiet ++ (quiet ++ xs)) (concat-chunks n samples fit)
            ∙ sym (append_assoc quiet quiet tail)
            ∙ ap (λ xs. xs ++ tail) (replicate-append buff_chunk buff_chunk silence),
        stopped,
      )
