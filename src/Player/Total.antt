-- ===== src/Player/Total.antt =====
-- The service ends: it calls itself at most three times.
use rpv_platforms_evt_driven.Base.{
  ℕ, suc, ◌==◌, ltb, ◌≡◌, refl, ◌&&◌, not, if-both, Option, none, some,
}
use mathlib.Core.Option.{none-ne-some}
use rpv_platforms_evt_driven.Dma.Sound.{sbdma_sgstop, sbdma_sgcmplt, sbdma_sgcyclic}
use rpv_platforms_evt_driven.Fat.Interface.{FatFs}
use rpv_platforms_evt_driven.Fat.Table.{fat_fclose}
use rpv_platforms_evt_driven.Player.Service.{
  SbReg, sb_init, sb_idle, sb_wait, sb_write, sb_close, sb_other, Note, closed_and_stopped, Turn,
  Sb, note, note_after, is_open, init_case, close_case, idle_case, fill_chunk, start_case,
  refill_case, write_case, wait_case, sb_service, buff_chunk, max_buffer, silence,
}

module _ (ff : FatFs) where
  -- The state after the file was closed.
  abbrev pub closed : Sb ff → Sb ff
  closed s = init_case ff (
      note ff closed_and_stopped
        (record s { sb_reg = sb_init; fat = fat_fclose ff s.fd s.fat; dma = sbdma_sgstop s.dma }))

  abbrev pub Returns : Option (Sb ff) → Type 0
  Returns o = (t : Sb ff) × (o ≡ some t)

  Returns-note_after : {o : Option (Sb ff)} (n : Note) → Returns o → Returns (note_after ff n o)
  Returns-note_after {o = none} n (t, e) = absurd (none-ne-some t e)
  Returns-note_after {o = some s} n h = (note ff n s, refl)

  module _ (calls : ℕ) (turn : Turn) where
    -- Closing takes two calls.
    pub service-close :
        (s : Sb ff)
        → sb_service ff (suc (suc calls)) turn (record s { sb_reg = sb_close }) ≡ some (closed s)
    unfolding sb_service close_case
    service-close s = refl

    fill_chunk-Returns :
        (b n : ℕ) (s : Sb ff) → Returns (fill_chunk ff (sb_service ff (suc (suc calls)) turn) b n s)
    unfolding fill_chunk
    fill_chunk-Returns b n s =
        if-both Returns ((n == 0) && (s.playcount == 0))
          (Returns-note_after _ (closed s, service-close s))
          (if-both Returns (ltb n buff_chunk) (_, refl) (_, refl))

    refill-Returns :
        (b : Option ℕ) (s : Sb ff)
        → Returns (refill_case ff (sb_service ff (suc (suc calls)) turn) b s)
    unfolding refill_case
    refill-Returns none s = Returns-note_after _ (closed s, service-close s)
    refill-Returns (some b) s = fill_chunk-Returns b _ _

    write-Returns : (s : Sb ff) → Returns (write_case ff (sb_service ff (suc (suc calls)) turn) s)
    unfolding write_case
    write-Returns s = refill-Returns (sbdma_sgcmplt buff_chunk s.dma).0 _

    wait-Returns :
        (s : Sb ff) → Returns (wait_case ff (sb_service ff (suc (suc (suc calls))) turn) turn s)
    unfolding wait_case sb_service
    wait-Returns s =
        if-both Returns (not turn.pending) (_, refl)
          (if-both Returns s.dma.sbdma_buserr (_, refl)
            (if-both Returns s.dma.sbdma_cmplt (Returns-note_after _ (write-Returns _)) (_, refl)))

    start-Returns :
        (b : Option ℕ) (s : Sb ff)
        → Returns (start_case ff (sb_service ff (suc (suc calls)) turn) b s)
    unfolding start_case
    start-Returns none s = (closed s, service-close s)
    start-Returns (some b) s = (s, refl)

    idle-Returns :
        (s : Sb ff) → Returns (idle_case ff (sb_service ff (suc (suc calls)) turn) turn s)
    unfolding idle_case
    idle-Returns s =
        if-both Returns (is_open s.fd)
          (start-Returns (sbdma_sgcyclic turn.sr silence max_buffer buff_chunk s.dma).0 _) (s, refl)

  -- Whatever its state, the file layer and the engine, a call of the service ends, in at most four
  -- nested calls.
  pub sb_service-Returns : (turn : Turn) (s : Sb ff) → Returns (sb_service ff 4 turn s)
  unfolding sb_service close_case
  sb_service-Returns turn s = by_reg s.sb_reg refl
    where
      by_reg : (r : SbReg) → s.sb_reg ≡ r → Returns (sb_service ff 4 turn s)
      by_reg sb_init e = rw (e, sb_service) (_, refl)
      by_reg sb_idle e = rw (e, sb_service) (idle-Returns 1 turn s)
      by_reg sb_wait e = rw (e, sb_service) (wait-Returns 0 turn s)
      by_reg sb_write e = rw (e, sb_service) (write-Returns 1 turn s)
      by_reg sb_close e = rw (e, sb_service) (closed s, refl)
      by_reg sb_other e = rw (e, sb_service) (_, refl)
