-- ===== src/Dma/Tx.antt =====
-- The send half of the Ethernet DMA: packets are copied into the slots of a ring, a flush hands
-- the filled descriptors to the engine, and the interrupt takes the ring back.
pub mod Slots
pub mod Enque
pub mod Balance
mod Tests
use rpv_platforms_evt_driven.Base.{
  ℕ, ◌+◌, ◌-◌, ◌*◌, ◌%◌, ◌^◌, ◌==◌, leb, if◌then◌else◌, Bool, true, false, not, ◌||◌, Option, none,
  some, List, [], ◌∷◌, length,
}
use rpv_platforms_evt_driven.Dma.Bd.{Bd, bd_size, write_bd, sgdma_ring, valid_split}
use rpv_platforms_evt_driven.Dma.State.{
  Dma, tx_locked, mm2s_buffer, mm2s_ring, s2mm_ring, xdma2_mm2s, dcache_flush, dcache_invalidate,
  set_rs, kernel_raise, sigbus, emit, emits, copy_in,
}
use rpv_platforms_evt_driven.Dma.Engine.{sgdma_ackirq, sgdma_sgallowed, sgdma_seq_trans}

-- `_ethdma_txsgnormal`
unfoldable pub ethdma_txsgnormal : (sr alloc_len io_buff : ℕ) → Dma → Option ℕ × Dma
ethdma_txsgnormal sr alloc_len io_buff s =
    let (bd_count, bds) = sgdma_ring mm2s_ring mm2s_buffer alloc_len io_buff s.bds in
    if not (valid_split alloc_len io_buff)
    then (none, s)
    else if not (sgdma_sgallowed sr)
    then (none, s)
    else (
      some mm2s_buffer,
      emit (record s { txdepth = bd_count % 2 ^ 8; txtail = 0; ethdma_txbuserr = false; bds = bds })
          (dcache_flush mm2s_ring (bd_count * bd_size)),
    )

-- The descriptor of a packet of `len` bytes.
abbrev pub packet_bd : Bd → (len : ℕ) → Bd
packet_bd d len = record d {
  cmplt = false;
  trans_len = 0;
  dma_dec_err = false;
  dma_int_err = false;
  dma_int_slv_err = false;
  tx_sof = true;
  tx_eof = true;
  buffer_len = len % 2 ^ 26;
}

-- `_ethdma_txsgenque`: the slot's address or NULL. `mem` are the `mem_len` bytes at the argument.
unfoldable pub ethdma_txsgenque : (mem : List ℕ) → Dma → Option ℕ × Dma
ethdma_txsgenque mem s =
    let mem_len = length mem in
    let bd_desc = mm2s_ring + s.txtail * bd_size in
    let d = s.bds bd_desc in
    let seen = emit s (dcache_invalidate bd_desc bd_size) in
    let end = (d.buffer + mem_len) % 2 ^ 32 in
    let next_iobuffer = (s.bds d.next).buffer in
    if (s.txtail == s.txdepth) || (s.txtail == tx_locked)
    then (none, s)
    else if leb s2mm_ring end || leb next_iobuffer end
    then (none, seen)
    else (
      some d.buffer,
      record (emits seen (dcache_flush d.buffer mem_len ∷ dcache_flush bd_desc bd_size ∷ [])) {
        bytes = copy_in s.bytes d.buffer mem;
        bds = write_bd s.bds bd_desc (packet_bd d mem_len);
        txtail = (s.txtail + 1) % 2 ^ 8;
      },
    )

-- `_ethdma_txsgflush`
unfoldable pub ethdma_txsgflush : Dma → Dma
ethdma_txsgflush s =
    if (s.txtail == 0) || (s.txtail == tx_locked)
    then s
    else sgdma_seq_trans xdma2_mm2s mm2s_ring (mm2s_ring + (s.txtail - 1) * bd_size)
        (record s { txpkts = s.txtail; txtail = tx_locked })

-- `onethdma_txirq`, with the value of the status register.
unfoldable pub on_ethdma_txirq : (sr : ℕ) → Dma → Dma
on_ethdma_txirq sr s0 =
    let (st, s) = sgdma_ackirq xdma2_mm2s sr s0 in
    let done =
      if st.ioc_irq
      then emit (record s { txcount = (s.txcount + s.txpkts) % 2 ^ 32; txtail = 0; txpkts = 0 })
          (set_rs xdma2_mm2s false)
      else s in
    record done {
      ethdma_txbuserr = st.err_irq;
      trace = if st.err_irq then kernel_raise sigbus ∷ done.trace else done.trace;
    }
