-- ===== src/Dma/Card.antt =====
-- The SD card's DMA: direct transfers of at most `btt_max` bytes through a bounce buffer.
pub mod Laws
mod Tests
use rpv_platforms_evt_driven.Base.{
  ℕ, ◌==◌, ltb, if◌then◌else◌, Bool, not, ◌&&◌, ◌||◌, Option, none, some, List, [], ◌∷◌, length,
}
use rpv_platforms_evt_driven.Dma.Registers.{status_of}
use rpv_platforms_evt_driven.Dma.State.{
  Dma, xdma0_io_addr, btt_max, xdma0_mm2s, xdma0_s2mm, dcache_flush, dcache_invalidate, emit,
  copy_in,
}
use rpv_platforms_evt_driven.Dma.Engine.{directdma_trans}

-- A transfer is ongoing: neither halted nor idle.
unfoldable pub transfer_ongoing : (sr : ℕ) → Bool
transfer_ongoing sr = let st = status_of sr in not st.halted && not st.idle

-- `_sdcdma_wrt`: `data` are the `len` bytes at the address `mem`.
unfoldable pub sdcdma_wrt : (sr mem : ℕ) (bytes : List ℕ) → Dma → Option ℕ × Dma
sdcdma_wrt sr mem bytes s =
    let len = length bytes in
    if transfer_ongoing sr
    then (none, s)
    else if (mem == 0) || ((len == 0) || ltb btt_max len)
    then (none, s)
    else directdma_trans xdma0_mm2s xdma0_io_addr len (
        emit
          (record (emit s (dcache_invalidate mem len)) {
            bytes = copy_in s.bytes xdma0_io_addr bytes;
          })
          (dcache_flush xdma0_io_addr len))

-- `_sdcdma_rdt`
unfoldable pub sdcdma_rdt : (sr len : ℕ) → Dma → Option ℕ × Dma
sdcdma_rdt sr len s =
    if transfer_ongoing sr
    then (none, s)
    else if (len == 0) || ltb btt_max len
    then (none, s)
    else directdma_trans xdma0_s2mm xdma0_io_addr len s
