-- ===== src/Dma/Tx/Slots.antt =====
-- src/arch/mb_le/sys/xdma.c: the ring of slots for sending, and which packets it takes.
use rpv_platforms_evt_driven.Base.{
  ℕ, zero, suc, ◌+◌, ◌*◌, ◌^◌, ◌≤◌, ◌<◌, ◌≡◌, ◌⊎◌, inl, inr, ap, ◌∙◌, arith, none, some, List, [],
  ◌∷◌, length, ◌==◌, if◌then◌else◌, dec_lt,
}
use rpv_platforms_evt_driven.Dma.Bd.{bd_size, BdMem, write_bd, io_buffer_size}
use rpv_platforms_evt_driven.Dma.State.{
  Dma, max_bds, tx_locked, mm2s_buffer, mm2s_ring, copy_in, copy_out,
}
use rpv_platforms_evt_driven.Dma.Tx.{ethdma_txsgenque, packet_bd}

-- The address of descriptor `i`.
abbrev pub slot_bd : ℕ → ℕ
slot_bd i = mm2s_ring + i * bd_size

-- The links and buffers of a ring of `n` slots of `chunk` bytes.
abbrev pub Linked : BdMem → (n chunk : ℕ) → Type 0
Linked m n chunk =
    (i : ℕ)
    → i < n
    → ((m (slot_bd i)).next ≡ (if i + 1 == n then mm2s_ring else slot_bd (i + 1)))
      × ((m (slot_bd i)).buffer ≡ mm2s_buffer + i * chunk)

-- The packets of the first `n` descriptors from `i` on.
abbrev pub packets : Dma → (i n : ℕ) → List (List ℕ)
packets s i zero = []
packets s i (suc n) =
    copy_out s.bytes (s.bds (slot_bd i)).buffer (s.bds (slot_bd i)).buffer_len ∷ packets s (i + 1) n

-- The packets that wait for a flush, oldest first.
abbrev pub queued : Dma → List (List ℕ)
queued s = packets s 0 s.txtail

pub record IsTx (s : Dma) (n chunk : ℕ) : Type 0 where
  pub depth : s.txdepth ≡ n
  pub few : n ≤ max_bds
  pub some_slot : 0 < n
  pub area : n * chunk ≤ io_buffer_size
  pub linked : Linked s.bds n chunk
  pub tail : (s.txtail < n) ⊎ (s.txtail ≡ tx_locked)
  pub short : (i : ℕ) → i < s.txtail → s.txtail < n → (s.bds (slot_bd i)).buffer_len < chunk

module _ {s : Dma} {n chunk : ℕ} (v : IsTx s n chunk) where
  -- The buffer that the code compares with: the next slot's, and the first slot's at the last.
  next_buffer-last : s.txtail + 1 ≡ n → (s.bds (s.bds (slot_bd s.txtail)).next).buffer ≡ mm2s_buffer
  next_buffer-last last =
      ap {B = ℕ} (λ p. (s.bds p).buffer) {y = mm2s_ring}
        (ground (arith, v.linked s.txtail (omega arith)))
      ∙ (v.linked 0 (omega arith)).1
      ∙ omega arith

  next_buffer-more :
      s.txtail + 1 < n
      → (s.bds (s.bds (slot_bd s.txtail)).next).buffer ≡ mm2s_buffer + (s.txtail + 1) * chunk
  next_buffer-more more =
      ap {B = ℕ} (λ p. (s.bds p).buffer) {y = slot_bd (s.txtail + 1)}
        (ground (arith, v.linked s.txtail (omega arith)))
      ∙ (v.linked (s.txtail + 1) more).1

  -- Slots lie below the first ring.
  slot_end : (i : ℕ) → i < n → i * chunk + chunk ≤ io_buffer_size
  slot_end i h = let e : (i + 1) * chunk ≤ n * chunk = grind arith in omega (arith, v.area)

  module _ (mem : List ℕ) where
    -- A packet shorter than a slot is taken, unless the slot is the last one.
    pub enque_taken :
        s.txtail + 1 < n
        → length mem < chunk
        → let (out, s') = ethdma_txsgenque mem s in
          let i = s.txtail in
          (out ≡ some (mm2s_buffer + i * chunk))
          × (s'.txtail ≡ i + 1)
          × (s'.txdepth ≡ s.txdepth)
          × (s'.bytes ≡ copy_in s.bytes (mm2s_buffer + i * chunk) mem)
          × (s'.bds ≡ write_bd s.bds (slot_bd i) (packet_bd (s.bds (slot_bd i)) (length mem)))
    unfolding ethdma_txsgenque
    enque_taken more fits = ground (
      arith,
      (v.linked s.txtail (omega arith)).1,
      next_buffer-more more,
      slot_end s.txtail (omega arith),
      v.few,
      v.depth,
    )

    -- On a well-formed ring a packet below 2 ^ 16 bytes is refused, with descriptors, bytes and the
    -- queue's length as before, while a flush is in progress, when only the last slot is free, and
    -- when it is not shorter than a slot.
    pub enque_refused :
        (s.txtail ≡ tx_locked) ⊎ ((s.txtail + 1 ≡ n) ⊎ (chunk ≤ length mem))
        → length mem < 2 ^ 16
        → let (out, s') = ethdma_txsgenque mem s in
          (out ≡ none)
          × (s'.txtail ≡ s.txtail)
          × (s'.bytes ≡ s.bytes)
          × (s'.bds ≡ s.bds)
          × (s'.txdepth ≡ s.txdepth)
    unfolding ethdma_txsgenque
    enque_refused (inl locked) small = ground arith
    enque_refused (inr (inl last)) small = ground (
      arith,
      (v.linked s.txtail (omega arith)).1,
      next_buffer-last last,
      slot_end s.txtail (omega arith),
    )
    enque_refused (inr (inr long)) small = elim v.tail [
      | inr locked ↦ ground arith
      | inl inside ↦ elim (dec_lt (s.txtail + 1) n) [
        | yes more ↦
            ground
              (arith, (v.linked s.txtail inside).1, next_buffer-more more, slot_end s.txtail inside)
        | no last ↦ ground (
          arith,
          (v.linked s.txtail inside).1,
          next_buffer-last (omega arith),
          slot_end s.txtail inside,
        )
      ]
    ]
