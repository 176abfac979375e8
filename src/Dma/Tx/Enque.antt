-- ===== src/Dma/Tx/Enque.antt =====
-- src/arch/mb_le/sys/xdma.c: what the ring for sending does with the packets it takes.
use rpv_platforms_evt_driven.Base.{
  ℕ, zero, suc, ◌+◌, ◌*◌, ◌/◌, ◌%◌, ◌^◌, ◌≤◌, ◌<◌, ◌≡◌, ◌≢◌, inl, refl, ap, ap₂, ◌∙◌, arith, true,
  some, List, [], ◌∷◌, ◌++◌, length, ◌==◌, if◌then◌else◌, ℕ_discrete,
}
use rpv_platforms_evt_driven.Dma.Bd.{
  Bd, bd_size, ring_bd, BdMem, write_bd, valid_split, io_buffer_size, sgdma_ring,
}
use rpv_platforms_evt_driven.Dma.Bd.Layout.{
  write_bd_self, write_bd_ne, sgdma_ring-IsRing, IsRing, valid_split_lem,
}
use rpv_platforms_evt_driven.Dma.State.{Dma, max_bds, mm2s_buffer, mm2s_ring, copy_in, copy_out}
use rpv_platforms_evt_driven.Dma.State.Bytes.{copy_in_outside, copy_out-eq, copy_out-copy_in}
use rpv_platforms_evt_driven.Dma.Engine.{sgdma_sgallowed}
use rpv_platforms_evt_driven.Dma.Tx.{ethdma_txsgnormal, ethdma_txsgenque, packet_bd}
use rpv_platforms_evt_driven.Dma.Tx.Slots.{IsTx, Linked, packets, queued, slot_bd, enque_taken}

-- The state after a packet was taken into slot `i`, as the lemmas below need it.
record Put (s s' : Dma) (chunk : ℕ) (mem : List ℕ) : Type 0 where
  next_tail : s'.txtail ≡ s.txtail + 1
  same_depth : s'.txdepth ≡ s.txdepth
  new_bytes : s'.bytes ≡ copy_in s.bytes (mm2s_buffer + s.txtail * chunk) mem
  new_bds :
      s'.bds ≡ write_bd s.bds (slot_bd s.txtail) (packet_bd (s.bds (slot_bd s.txtail)) (length mem))

module _ {s s' : Dma} {n chunk : ℕ} {mem : List ℕ} (v : IsTx s n chunk) (p : Put s s' chunk mem)
    (more : s.txtail + 1 < n) (fits : length mem < chunk) where
  put_bd : s'.bds (slot_bd s.txtail) ≡ packet_bd (s.bds (slot_bd s.txtail)) (length mem)
  put_bd =
      ap (λ (m : BdMem). m (slot_bd s.txtail)) p.new_bds ∙ write_bd_self s.bds (slot_bd s.txtail) _

  other_bd : (i : ℕ) → i ≢ s.txtail → s'.bds (slot_bd i) ≡ s.bds (slot_bd i)
  other_bd i ne =
      ap (λ (m : BdMem). m (slot_bd i)) p.new_bds
      ∙ write_bd_ne s.bds (slot_bd s.txtail) (slot_bd i) _ (omega arith)

  put-Linked : Linked s'.bds n chunk
  put-Linked i h = elim (ℕ_discrete i s.txtail) [
    | yes e ↦ rw (e, put_bd) (v.linked s.txtail (omega arith))
    | no ne ↦ rw (other_bd i ne) (v.linked i h)
  ]

  -- A slot holds less than 2 ^ 26 bytes, so the length is not cut.
  kept_length : length mem % 2 ^ 26 ≡ length mem
  kept_length = let e : chunk ≤ n * chunk = grind arith in omega (arith, v.area)

  put-short : (i : ℕ) → i < s'.txtail → s'.txtail < n → (s'.bds (slot_bd i)).buffer_len < chunk
  put-short i h k = elim (ℕ_discrete i s.txtail) [
    | yes e ↦ rw (e, put_bd) (omega (arith, kept_length))
    | no ne ↦ rw (other_bd i ne) (v.short i (omega (arith, p.next_tail)) (omega arith))
  ]

  put-IsTx : IsTx s' n chunk
  put-IsTx = record {
    depth = p.same_depth ∙ v.depth;
    few = v.few;
    some_slot = v.some_slot;
    area = v.area;
    linked = put-Linked;
    tail = inl (omega (arith, p.next_tail));
    short = put-short;
  }

  -- The older packets are not touched, and the new one stands last.
  same_packet :
      (i : ℕ)
      → i < s.txtail
      → copy_out s'.bytes (s'.bds (slot_bd i)).buffer (s'.bds (slot_bd i)).buffer_len
        ≡ copy_out s.bytes (s.bds (slot_bd i)).buffer (s.bds (slot_bd i)).buffer_len
  same_packet i h =
      rw (other_bd i (omega arith), p.new_bytes)
        (copy_out-eq (copy_in s.bytes (mm2s_buffer + s.txtail * chunk) mem) s.bytes
          (s.bds (slot_bd i)).buffer (s.bds (slot_bd i)).buffer_len
          (λ x lo hi.
            copy_in_outside s.bytes (mm2s_buffer + s.txtail * chunk) mem x (inl (below x hi))))
    where
      apart : i * chunk + chunk ≤ s.txtail * chunk
      apart = let e : (i + 1) * chunk ≤ s.txtail * chunk = grind arith in omega arith

      below :
          (x : ℕ)
          → x < (s.bds (slot_bd i)).buffer + (s.bds (slot_bd i)).buffer_len
          → x < mm2s_buffer + s.txtail * chunk
      below x hi = omega (arith, apart, v.short i h (omega arith), (v.linked i (omega arith)).1)

  new_packet :
      copy_out s'.bytes (s'.bds (slot_bd s.txtail)).buffer (s'.bds (slot_bd s.txtail)).buffer_len
      ≡ mem
  new_packet =
      rw (put_bd, p.new_bytes, kept_length, (v.linked s.txtail (omega arith)).1)
        (copy_out-copy_in s.bytes (mm2s_buffer + s.txtail * chunk) mem)

  put-packets : (k i : ℕ) → i + k ≡ s.txtail → packets s' i (suc k) ≡ packets s i k ++ (mem ∷ [])
  put-packets zero i e = let e' : i ≡ s.txtail = omega arith in rw e' (ap (λ l. l ∷ []) new_packet)
  put-packets (suc k) i e =
      ap₂ ◌∷◌ (same_packet i (omega arith)) (put-packets k (i + 1) (omega arith))

-- On a well-formed ring with more than the last slot free, a packet shorter than a slot is queued
-- behind those that wait, with its bytes, and the ring stays well formed.
pub enque-queued :
    {s : Dma} {n chunk : ℕ} (mem : List ℕ)
    → IsTx s n chunk
    → s.txtail + 1 < n
    → length mem < chunk
    → let (out, s') = ethdma_txsgenque mem s in
      (out ≡ some (mm2s_buffer + s.txtail * chunk))
      × (queued s' ≡ queued s ++ (mem ∷ []))
      × IsTx s' n chunk
enque-queued {s} {n} {chunk} mem v more fits = (
  t.0,
  (ap (packets s' 0) {y = suc s.txtail} (omega (arith, put.next_tail))
      ∙ put-packets v put more fits s.txtail 0 (omega arith)),
  put-IsTx v put more fits,
)
  where
    s' : Dma
    s' = (ethdma_txsgenque mem s).1

    t : ((ethdma_txsgenque mem s).0 ≡ some (mm2s_buffer + s.txtail * chunk)) × Put s s' chunk mem
    t =
        let q = enque_taken v mem more fits in
        (q.0, record { next_tail = q.1; same_depth = q.2; new_bytes = q.3; new_bds = q.4 })

    put : Put s s' chunk mem
    put = t.1

linked_of_ring_bd :
    (m : BdMem) (n chunk i : ℕ)
    → m (slot_bd i)
      ≡ ring_bd
          (if i + 1 == n then mm2s_ring else slot_bd i + bd_size)
          (mm2s_buffer + i * chunk)
          chunk
    → ((m (slot_bd i)).next ≡ (if i + 1 == n then mm2s_ring else slot_bd (i + 1)))
      × ((m (slot_bd i)).buffer ≡ mm2s_buffer + i * chunk)
linked_of_ring_bd m n chunk i e = (
  ap {A = Bd} {B = ℕ} (λ d. d.next) e
      ∙ ap (λ a. if i + 1 == n then mm2s_ring else a) {y = slot_bd (i + 1)} (omega arith),
  ap {A = Bd} {B = ℕ} (λ d. d.buffer) e,
)

-- With valid sizes of one to ten slots and a halted engine, `_ethdma_txsgnormal` gives an empty,
-- well-formed ring of `alloc_len / io_buff` slots.
pub txsgnormal-IsTx :
    (sr alloc_len io_buff : ℕ) (s : Dma)
    → valid_split alloc_len io_buff ≡ true
    → sgdma_sgallowed sr ≡ true
    → alloc_len / io_buff ≤ max_bds
    → 0 < alloc_len / io_buff
    → let (out, s') = ethdma_txsgnormal sr alloc_len io_buff s in
      (out ≡ some mm2s_buffer) × (queued s' ≡ []) × IsTx s' (alloc_len / io_buff) io_buff
unfolding ethdma_txsgnormal
txsgnormal-IsTx sr alloc_len io_buff s split allowed few some_slot =
    rw (split, allowed)
      (
        refl,
        refl,
        record {
          depth = omega (arith, ring.0);
          few = few;
          some_slot = some_slot;
          area = omega (arith, ring.1, limits.0);
          linked = λ i h.
              linked_of_ring_bd m (alloc_len / io_buff) io_buff i (ring.2 i (slot_bd i) h refl);
          tail = inl some_slot;
          short = λ i h k. elim h [ ];
        },
      )
  where
    limits : (alloc_len ≤ io_buffer_size) × (io_buff ≤ alloc_len) × (alloc_len % io_buff ≡ 0)
    limits = valid_split_lem alloc_len io_buff split

    m : BdMem
    m = (sgdma_ring mm2s_ring mm2s_buffer alloc_len io_buff s.bds).1

    ring :
        ((sgdma_ring mm2s_ring mm2s_buffer alloc_len io_buff s.bds).0 ≡ alloc_len / io_buff)
        × (alloc_len / io_buff * io_buff ≤ alloc_len)
        × IsRing m mm2s_ring mm2s_buffer (alloc_len / io_buff) io_buff
    ring = sgdma_ring-IsRing mm2s_ring mm2s_buffer alloc_len io_buff s.bds (omega (arith, limits.0))
