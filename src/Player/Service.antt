-- ===== src/Player/Service.antt =====
-- src/arch/mb_le/services/sb_service.c: the state machine `sb_service`.
use rpv_platforms_evt_driven.Base.{
  ℕ, zero, suc, ◌+◌, ◌-◌, ◌%◌, ◌^◌, ◌==◌, ltb, if◌then◌else◌, Bool, ◌&&◌, not, true, false, List,
  ◌∷◌, length, Option, none, some, ℤ, pos, negsuc,
}
use rpv_platforms_evt_driven.Dma.State.{Dma, dcache_flush, emit, copy_in}
use rpv_platforms_evt_driven.Dma.Counters.{sbdma_sgbuserr_signal, sbdma_sgcmplt_signal}
use rpv_platforms_evt_driven.Dma.Sound.{sbdma_sgstop, sbdma_sgcmplt, sbdma_sgcyclic, fill}
use rpv_platforms_evt_driven.Fat.Interface.{FatFs}
use rpv_platforms_evt_driven.Fat.Table.{Fat, fat_fread, fat_fclose}

-- SB_S_SAMPLE, SB_MAX_BUFFER and SB_BUFF_CHUNK
abbrev pub silence : ℕ
silence = 0x80

abbrev pub max_buffer : ℕ
max_buffer = 16384

abbrev pub buff_chunk : ℕ
buff_chunk = 8192

-- The values of `sb_reg`; the last one stands for those that have no name.
pub data SbReg : Type 0 where
  sb_init sb_idle sb_wait sb_write sb_close sb_other : SbReg

-- What the service tells the kernel: the signal mask and the lines of the journal.
pub data Note : Type 0 where
  block_signals unblock_signals : Note
  bus_error null_buffer playback_ok closed_and_stopped : Note

-- What one call meets: whether SIGINT or SIGBUS is pending, and the status of the sound engine.
pub record Turn : Type 0 where
  pub pending : Bool
  pub sr : ℕ

-- A file descriptor that is not negative.
abbrev pub is_open : ℤ → Bool
is_open (pos n) = true
is_open (negsuc n) = false

module _ (ff : FatFs) where
  -- The statics of the service, with the file layer and the DMA that it uses. Newest note first.
  pub record Sb : Type 0 where
    pub fd : ℤ
    pub sb_reg : SbReg
    pub playsize : ℕ
    pub playcount : ℕ
    pub fat : Fat ff
    pub dma : Dma
    pub notes : List Note

  abbrev pub note : Note → Sb → Sb
  note n s = record s { notes = n ∷ s.notes }

  abbrev pub note_after : Note → Option Sb → Option Sb
  note_after n none = none
  note_after n (some s) = some (note n s)

  -- `case SB_INIT`
  unfoldable pub init_case : Sb → Sb
  init_case s = record s { fd = negsuc 0; playsize = 0; playcount = 0; sb_reg = sb_idle }

  -- The cases that end in a call of `sb_service` itself, which is the argument `again`.
  module _ (again : Sb → Option Sb) where
    -- `case SB_CLOSE`
    unfoldable pub close_case : Sb → Option Sb
    close_case s = again (
        note closed_and_stopped
          (record s { sb_reg = sb_init; fat = fat_fclose ff s.fd s.fat; dma = sbdma_sgstop s.dma }))

    -- The end of `case SB_IDLE`, for what `_sbdma_sgcyclic` returned.
    unfoldable pub start_case : Option ℕ → Sb → Option Sb
    start_case none s = again (record s { sb_reg = sb_close })
    start_case (some buffer) s = some s

    -- `case SB_IDLE`
    unfoldable pub idle_case : Turn → Sb → Option Sb
    idle_case turn s =
        let (buffer, dma) = sbdma_sgcyclic turn.sr silence max_buffer buff_chunk s.dma in
        if is_open s.fd
        then start_case buffer
            (record s { playcount = (s.playcount + 1) % 2 ^ 32; sb_reg = sb_wait; dma = dma })
        else some s

    -- The rest of `case SB_WRITE`, once the file was read.
    unfoldable pub fill_chunk : (buffer n_read : ℕ) → Sb → Option Sb
    fill_chunk buffer n_read s =
        let padded : Dma = record s.dma {
          bytes = fill s.dma.bytes (buffer + n_read) silence (buff_chunk - n_read);
        } in
        if (n_read == 0) && (s.playcount == 0)
        then note_after playback_ok (again (record s { sb_reg = sb_close }))
        else if ltb n_read buff_chunk
        then some (record s { dma = emit padded (dcache_flush buffer buff_chunk) })
        else some s

    -- `case SB_WRITE` behind `_sbdma_sgcmplt`, for the buffer that this returned.
    unfoldable pub refill_case : Option ℕ → Sb → Option Sb
    refill_case none s = note_after null_buffer (again (record s { sb_reg = sb_close }))
    refill_case (some buffer) s =
        let readsize = if ltb buff_chunk s.playsize then buff_chunk else s.playsize in
        let (bytes, fat) = fat_fread ff s.fd readsize s.fat in
        fill_chunk buffer (length bytes) (record s {
          fat = fat;
          playsize = (s.playsize + 2 ^ 32 - length bytes) % 2 ^ 32;
          dma = record s.dma { bytes = copy_in s.dma.bytes buffer bytes };
        })

    -- `case SB_WRITE`
    unfoldable pub write_case : Sb → Option Sb
    write_case s =
        let (buffer, dma) = sbdma_sgcmplt buff_chunk s.dma in
        refill_case buffer (record s { sb_reg = sb_wait; dma = dma })

    -- `case SB_WAIT`
    unfoldable pub wait_case : Turn → Sb → Option Sb
    wait_case turn s0 =
        let s = note block_signals (record s0 { sb_reg = sb_wait }) in
        if not turn.pending
        then some s
        else if sbdma_sgbuserr_signal s.dma
        then some (note unblock_signals (note bus_error (record s { sb_reg = sb_close })))
        else if sbdma_sgcmplt_signal s.dma
        then note_after unblock_signals (
            again (record s { sb_reg = sb_write; playcount = (s.playcount + 2 ^ 32 - 1) % 2 ^ 32 }))
        else some s

  -- `sb_service`, with fuel for the calls of itself; `none` if that runs out.
  unfoldable pub sb_service : ℕ → Turn → Sb → Option Sb
  sb_service zero turn s = none
  sb_service (suc calls) turn s = elim s.sb_reg [
    | sb_init ↦ some (init_case s)
    | sb_idle ↦ idle_case (sb_service calls turn) turn s
    | sb_wait ↦ wait_case (sb_service calls turn) turn s
    | sb_write ↦ write_case (sb_service calls turn) s
    | sb_close ↦ close_case (sb_service calls turn) s
    | sb_other ↦ sb_service calls turn (record s { sb_reg = sb_init })
  ]
