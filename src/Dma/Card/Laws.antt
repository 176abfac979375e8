-- ===== src/Dma/Card/Laws.antt =====
-- When a transfer is started, and what it moves.
use rpv_platforms_evt_driven.Base.{
  ℕ, ◌≤◌, ◌<◌, ◌≡◌, ◌≢◌, ◌⊎◌, arith, true, false, ◌||◌, none, some, List, ◌∷◌, length, ◌==◌, ltb,
  if◌then◌else◌,
}
use rpv_platforms_evt_driven.Dma.State.{
  Dma, xdma0_io_addr, btt_max, xdma0_mm2s, xdma0_s2mm, write_buffer, set_rs, write_trans_len,
  dcache_flush, dcache_invalidate, copy_out,
}
use rpv_platforms_evt_driven.Dma.State.Bytes.{copy_out-copy_in}
use rpv_platforms_evt_driven.Dma.Engine.{directdma_trans}
use rpv_platforms_evt_driven.Dma.Card.{transfer_ongoing, sdcdma_wrt, sdcdma_rdt}

-- A write of 1 to `btt_max` bytes on a free channel puts them in the bounce buffer, flushes it, and
-- then starts the engine with their length, uncut by the register's field.
pub sdcdma_wrt-starts :
    (sr mem : ℕ) (bytes : List ℕ) (s : Dma)
    → transfer_ongoing sr ≡ false
    → mem ≢ 0
    → 0 < length bytes
    → length bytes ≤ btt_max
    → let (out, s') = sdcdma_wrt sr mem bytes s in
      (out ≡ some xdma0_io_addr)
      × (copy_out s'.bytes xdma0_io_addr (length bytes) ≡ bytes)
      × (s'.trace
          ≡ write_trans_len xdma0_mm2s (length bytes)
            ∷ set_rs xdma0_mm2s true
            ∷ write_buffer xdma0_mm2s xdma0_io_addr
            ∷ dcache_flush xdma0_io_addr (length bytes)
            ∷ dcache_invalidate mem (length bytes)
            ∷ s.trace)
unfolding sdcdma_wrt directdma_trans
sdcdma_wrt-starts sr mem bytes s free some_mem some_bytes few =
    ground (arith, copy_out-copy_in s.bytes xdma0_io_addr bytes)

-- A write is refused, with nothing changed, on a busy channel, from NULL, of no bytes, and of more
-- than `btt_max`.
pub sdcdma_wrt_refused :
    (sr mem : ℕ) (bytes : List ℕ) (s : Dma)
    → (transfer_ongoing sr ≡ true) ⊎ ((mem ≡ 0) ⊎ ((length bytes ≡ 0) ⊎ (btt_max < length bytes)))
    → sdcdma_wrt sr mem bytes s ≡ (none, s)
unfolding sdcdma_wrt
sdcdma_wrt_refused sr mem bytes s h = ground arith

-- A read is started exactly when the channel is free and the length is 1 to `btt_max`.
pub sdcdma_rdt_lem :
    (sr len : ℕ) (s : Dma)
    → let (out, s') = sdcdma_rdt sr len s in
      (out ≡ (
        if transfer_ongoing sr || ((len == 0) || ltb btt_max len)
        then none
        else some xdma0_io_addr))
      × (s'.trace ≡ (
          if transfer_ongoing sr || ((len == 0) || ltb btt_max len)
          then s.trace
          else write_trans_len xdma0_s2mm len
            ∷ set_rs xdma0_s2mm true
            ∷ write_buffer xdma0_s2mm xdma0_io_addr
            ∷ s.trace))
unfolding sdcdma_rdt directdma_trans
sdcdma_rdt_lem sr len s = ground arith
