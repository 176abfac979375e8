-- ===== src/Dma/Rx/Setup.antt =====
-- Setting up the receive ring.
use rpv_platforms_evt_driven.Base.{
  ℕ, ◌*◌, ◌/◌, ◌%◌, ◌≤◌, ◌<◌, ◌≡◌, ◌⊎◌, inl, inr, refl, arith, true, false, none, some, ◌∷◌,
}
use rpv_platforms_evt_driven.Dma.Registers.{control_reg}
use rpv_platforms_evt_driven.Dma.Bd.{bd_size, sgdma_ring, io_buffer_size, valid_split}
use rpv_platforms_evt_driven.Dma.Bd.Layout.{
  IsRing, sgdma_ring-IsRing, sgdma_ring_outside, valid_split_lem,
}
use rpv_platforms_evt_driven.Dma.State.{
  Dma, dcache_flush, write_cr, write_currdesc, write_taildesc, max_bds, s2mm_buffer, s2mm_ring,
  mm2s_ring, xdma2_s2mm,
}
use rpv_platforms_evt_driven.Dma.Engine.{sgdma_sgallowed, sgdma_cyclic_trans, cyclic_control}
use rpv_platforms_evt_driven.Dma.Rx.{ethdma_rxsgcyclic}
use rpv_platforms_evt_driven.Dma.Rx.Queue.{IsRx, waiting}

module _ (sr alloc_len io_buff : ℕ) (s : Dma) where
  -- The receive ring is refused, with nothing changed, when its sizes are not valid or the engine
  -- runs.
  pub rxsgcyclic_refused :
      (valid_split alloc_len io_buff ≡ false) ⊎ (sgdma_sgallowed sr ≡ false)
      → ethdma_rxsgcyclic sr alloc_len io_buff s ≡ (none, s)
  unfolding ethdma_rxsgcyclic
  rxsgcyclic_refused (inl bad) = rw bad
  rxsgcyclic_refused (inr running) = ground arith

  module _ (split : valid_split alloc_len io_buff ≡ true)
      (allowed : sgdma_sgallowed sr ≡ true) where
    limits : (alloc_len ≤ io_buffer_size) × (io_buff ≤ alloc_len) × (alloc_len % io_buff ≡ 0)
    limits = valid_split_lem alloc_len io_buff split

    -- With valid sizes and a halted engine the receive ring is set up closed and empty over the
    -- receive buffer, and only then is the engine started on it, the descriptors flushed before.
    pub rxsgcyclic-IsRing :
        let (out, s') = ethdma_rxsgcyclic sr alloc_len io_buff s in
        (out ≡ some s2mm_buffer)
        × IsRx s'
        × (waiting s' ≡ 0)
        × IsRing s'.bds s2mm_ring s2mm_buffer (alloc_len / io_buff) io_buff
        × (s'.trace
            ≡ write_taildesc xdma2_s2mm 0x50
              ∷ write_cr xdma2_s2mm (control_reg cyclic_control)
              ∷ write_currdesc xdma2_s2mm s2mm_ring
              ∷ dcache_flush s2mm_ring (alloc_len / io_buff * bd_size)
              ∷ s.trace)
    unfolding ethdma_rxsgcyclic sgdma_cyclic_trans
    rxsgcyclic-IsRing = rw (split, allowed) (refl, omega arith, refl, ring.2, rw ring.0)
      where
        ring :
            ((sgdma_ring s2mm_ring s2mm_buffer alloc_len io_buff s.bds).0 ≡ alloc_len / io_buff)
            × (alloc_len / io_buff * io_buff ≤ alloc_len)
            × IsRing
                (sgdma_ring s2mm_ring s2mm_buffer alloc_len io_buff s.bds).1
                s2mm_ring
                s2mm_buffer
                (alloc_len / io_buff)
                io_buff
        ring =
            sgdma_ring-IsRing s2mm_ring s2mm_buffer alloc_len io_buff s.bds
              (omega (arith, limits.0))

    -- With valid sizes and a halted engine, a receive ring of one to ten descriptors leaves the
    -- descriptors of the send ring alone.
    pub rxsgcyclic_outside :
        (x : ℕ)
        → 0 < alloc_len / io_buff
        → alloc_len / io_buff ≤ max_bds
        → mm2s_ring ≤ x
        → (ethdma_rxsgcyclic sr alloc_len io_buff s).1.bds x ≡ s.bds x
    unfolding ethdma_rxsgcyclic sgdma_cyclic_trans
    rxsgcyclic_outside x some_bd few far =
        rw (split, allowed)
          (sgdma_ring_outside s2mm_ring s2mm_buffer alloc_len io_buff s.bds x some_bd
            (inr (omega arith)))
