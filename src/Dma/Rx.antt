-- ===== src/Dma/Rx.antt =====
-- The receive half of the Ethernet DMA: the queue of filled descriptors between the receive
-- interrupt and the Ethernet service.
pub mod Queue
pub mod Balance
pub mod Race
pub mod Setup
mod Tests
use rpv_platforms_evt_driven.Base.{
  ℕ, ◌+◌, ◌-◌, ◌*◌, ◌%◌, ◌^◌, ◌==◌, leb, ltb, if◌then◌else◌, Bool, true, false, not, ◌&&◌, ◌||◌,
  Option, none, some, List, [], ◌∷◌,
}
use rpv_platforms_evt_driven.Base.Index.{next_index}
use rpv_platforms_evt_driven.Dma.Bd.{Bd, bd_size, write_bd, sgdma_ring, valid_split}
use rpv_platforms_evt_driven.Dma.State.{
  Dma, max_bds, s2mm_buffer, s2mm_ring, xdma2_s2mm, dcache_flush, dcache_invalidate, kernel_raise,
  sigbus, emit, emits, copy_out,
}
use rpv_platforms_evt_driven.Dma.Engine.{sgdma_ackirq, sgdma_sgallowed, sgdma_cyclic_trans}

-- `ethdma_queue`: is a packet lost, the producer's and the consumer's index.
unfoldable pub ethdma_queue : (event : Bool) (pq cq : ℕ) → Bool × ℕ × ℕ
ethdma_queue false pq cq = (false, pq, cq)
ethdma_queue true pq cq =
    let next_q = next_index max_bds pq in
    if next_q == cq then (true, next_q, next_index max_bds cq) else (false, next_q, cq)

-- `onethdma_rxirq`, with the value of the status register.
unfoldable pub on_ethdma_rxirq : (sr : ℕ) → Dma → Dma
on_ethdma_rxirq sr s0 =
    let (st, s) = sgdma_ackirq xdma2_s2mm sr s0 in
    let (lost, head, tail) = ethdma_queue st.ioc_irq s.rxhead s.rxtail in
    record s {
      rxcount = if st.ioc_irq then (s.rxcount + 1) % 2 ^ 32 else s.rxcount;
      rxhead = head;
      rxtail = tail;
      lostcount = if lost then (s.lostcount + 1) % 2 ^ 32 else s.lostcount;
      ethdma_rxbuserr = st.err_irq;
      trace = if st.err_irq then kernel_raise sigbus ∷ s.trace else s.trace;
    }

-- `eth_rxqcount`, over 32-bit words.
unfoldable pub eth_rxqcount : Dma → ℕ
eth_rxqcount s = ((s.rxhead + 2 ^ 32 - s.rxtail) % 2 ^ 32 + max_bds) % 2 ^ 32 % max_bds

-- The descriptor, given back to the engine.
abbrev pub clear_status : Bd → Bd
clear_status d = record d {
  trans_len = 0;
  cmplt = false;
  dma_dec_err = false;
  dma_int_err = false;
  dma_int_slv_err = false;
}

-- `_ethdma_rxsgcmplt`: the buffer's address with the `trans_len` bytes that go to `mem`, or NULL.
unfoldable pub ethdma_rxsgcmplt : (mem_len : ℕ) → Dma → Option (ℕ × List ℕ) × Dma
ethdma_rxsgcmplt mem_len s =
    let bd_desc = s2mm_ring + s.rxtail * bd_size in
    let seen = emit s (dcache_invalidate bd_desc bd_size) in
    let d = s.bds bd_desc in
    if s.rxhead == s.rxtail
    then (none, s)
    else if not d.cmplt
    then (none, seen)
    else if ltb mem_len d.trans_len
    then (none, seen)
    else (
      some (d.buffer, copy_out s.bytes d.buffer d.trans_len),
      record (emits seen
          (dcache_flush bd_desc bd_size ∷ dcache_invalidate d.buffer d.trans_len ∷ [])) {
            bds = write_bd s.bds bd_desc (clear_status d);
            rxtail = next_index max_bds s.rxtail;
          },
    )

-- `_ethdma_rxsgcyclic`
unfoldable pub ethdma_rxsgcyclic : (sr alloc_len io_buff : ℕ) → Dma → Option ℕ × Dma
ethdma_rxsgcyclic sr alloc_len io_buff s =
    let (bd_count, bds) = sgdma_ring s2mm_ring s2mm_buffer alloc_len io_buff s.bds in
    if not (valid_split alloc_len io_buff)
    then (none, s)
    else if not (sgdma_sgallowed sr)
    then (none, s)
    else (
      some s2mm_buffer,
      sgdma_cyclic_trans xdma2_s2mm s2mm_ring (
          emit (record s { rxhead = 0; rxtail = 0; ethdma_rxbuserr = false; bds = bds })
            (dcache_flush s2mm_ring (bd_count * bd_size))),
    )

-- Receive interrupts, one after the other.
unfoldable pub rx_irqs : (srs : List ℕ) → Dma → Dma
rx_irqs [] s = s
rx_irqs (sr ∷ srs) s = rx_irqs srs (on_ethdma_rxirq sr s)

-- `_ethdma_rxsgcmplt` with interrupts just before its last store, of `next_tail` to `eth_rxtail`.
unfoldable pub interrupted_rxsgcmplt :
    (mem_len : ℕ) (srs : List ℕ) → Dma → Option (ℕ × List ℕ) × Dma
interrupted_rxsgcmplt mem_len srs s =
    let (out, s') = ethdma_rxsgcmplt mem_len s in
    elim out [
      | none ↦ (none, s')
      | some p ↦
          (some p, record (rx_irqs srs (record s' { rxtail = s.rxtail })) { rxtail = s'.rxtail })
    ]
