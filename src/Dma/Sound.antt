-- ===== src/Dma/Sound.antt =====
-- The sound blaster's DMA: a cyclic ring of two descriptors that the service refills.
pub mod Laws
mod Tests
use rpv_platforms_evt_driven.Base.{
  ℕ, zero, suc, ◌+◌, ◌*◌, ◌%◌, ◌^◌, ◌==◌, if◌then◌else◌, Bool, true, false, not, Option, none, some,
  List, [], ◌∷◌,
}
use rpv_platforms_evt_driven.Dma.Bd.{Bd, bd_size, BdMem, write_bd, sgdma_ring, valid_split}
use rpv_platforms_evt_driven.Dma.State.{
  Dma, xdma1_io_addr, sound_ring, Effect, xdma1_mm2s, dcache_flush, dcache_invalidate, set_reset,
  await_reset, kernel_raise, sigint, sigbus, emit, emits,
}
use rpv_platforms_evt_driven.Dma.Engine.{
  sgdma_ackirq, sgdma_sgallowed, sgdma_cyclic_trans, sgdma_engstop,
}
use rpv_platforms_evt_driven.Dma.Rx.{clear_status}

-- XDMA1_MAX_BDS
abbrev pub sound_bds : ℕ
sound_bds = 2

-- `_sbdma_sgstop`
unfoldable pub sbdma_sgstop : Dma → Dma
sbdma_sgstop s = sgdma_engstop xdma1_mm2s s

-- The loop of `_sbdma_sgcmplt`: the first completed descriptor among the `n` from `a` on.
unfoldable pub find_cmplt : (n a : ℕ) → BdMem → Option ℕ
find_cmplt zero a m = none
find_cmplt (suc n) a m =
    let rest = find_cmplt n (m a).next m in
    if a == 0 then none else if (m a).cmplt then some a else rest

-- The rest of `_sbdma_sgcmplt`, at the descriptor that the loop found.
unfoldable pub take_cmplt : (len : ℕ) → Option ℕ → Dma → Option ℕ × Dma
take_cmplt len none s = (none, s)
take_cmplt len (some a) s =
    if (s.bds a).buffer_len == len
    then (
      some (s.bds a).buffer,
      record (emit s (dcache_flush a bd_size)) {
        bds = write_bd s.bds a (clear_status (s.bds a));
        sbdma_cmplt = false;
      },
    )
    else (none, s)

-- `_sbdma_sgcmplt`
unfoldable pub sbdma_sgcmplt : (len : ℕ) → Dma → Option ℕ × Dma
sbdma_sgcmplt len s =
    take_cmplt len (find_cmplt sound_bds sound_ring s.bds)
      (emit s (dcache_invalidate sound_ring (bd_size * sound_bds)))

-- `memset`
unfoldable pub fill : (ℕ → ℕ) → (a v n : ℕ) → ℕ → ℕ
fill m a v zero = m
fill m a v (suc n) = fill (λ x. if x == a then v % 2 ^ 8 else m x) (a + 1) v n

-- `_sbdma_sgcyclic`
unfoldable pub sbdma_sgcyclic : (sr seed alloc_len io_buff : ℕ) → Dma → Option ℕ × Dma
sbdma_sgcyclic sr seed alloc_len io_buff s =
    let (bd_count, bds) = sgdma_ring sound_ring xdma1_io_addr alloc_len io_buff s.bds in
    if not (valid_split alloc_len io_buff)
    then (none, s)
    else if not (sgdma_sgallowed sr)
    then (none, s)
    else (
      some xdma1_io_addr,
      sgdma_cyclic_trans xdma1_mm2s sound_ring (
          emits
            (record s {
              bytes = fill s.bytes xdma1_io_addr seed alloc_len;
              bds = bds;
              sbdma_cmplt = false;
              sbdma_buserr = false;
            })
            (set_reset xdma1_mm2s true
              ∷ await_reset xdma1_mm2s
              ∷ dcache_flush xdma1_io_addr alloc_len
              ∷ dcache_flush sound_ring (bd_count * bd_size)
              ∷ [])),
    )

-- `onsbdma_irq`, with the value of the status register.
unfoldable pub on_sbdma_irq : (sr : ℕ) → Dma → Dma
on_sbdma_irq sr s0 =
    let (st, s) = sgdma_ackirq xdma1_mm2s sr s0 in
    emit (record s { sbdma_cmplt = st.ioc_irq; sbdma_buserr = st.err_irq })
      (kernel_raise (if st.err_irq then sigbus else sigint))
