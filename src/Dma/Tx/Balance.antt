-- ===== src/Dma/Tx/Balance.antt =====
-- The send counters over any run of the driver, and the hand-over of a flush.
use rpv_platforms_evt_driven.Base.{
  ℕ, ◌+◌, ◌-◌, ◌%◌, ◌^◌, ◌≤◌, ◌<◌, ◌≡◌, ◌≢◌, ◌⊎◌, inl, inr, sym, ◌∙◌, arith, true, List, ◌∷◌,
  length, ◌==◌, if◌then◌else◌, dec_lt,
}
use rpv_platforms_evt_driven.Dma.Registers.{status_of, control_reg}
use rpv_platforms_evt_driven.Dma.State.{
  Dma, write_cr, write_currdesc, write_taildesc, tx_locked, xdma2_mm2s, mm2s_ring,
}
use rpv_platforms_evt_driven.Dma.Engine.{sgdma_ackirq, sgdma_seq_trans, seq_control}
use rpv_platforms_evt_driven.Dma.Rx.Balance.{count_some}
use rpv_platforms_evt_driven.Dma.Tx.{ethdma_txsgenque, ethdma_txsgflush, on_ethdma_txirq}
use rpv_platforms_evt_driven.Dma.Tx.Slots.{IsTx, slot_bd, enque_refused, enque_taken}
use rpv_platforms_evt_driven.Dma.Tx.Enque.{enque-queued}

-- The packets that are queued, or that a flush has handed to the engine.
abbrev pub pending : Dma → ℕ
pending s = if s.txtail == tx_locked then s.txpkts else s.txtail

-- A flush of a queue that has packets and is not locked locks it, and starts the engine on the descriptors from the first
-- to the last queued one, the tail register last.
pub txsgflush-starts :
    (s : Dma)
    → s.txtail ≢ 0
    → s.txtail ≢ tx_locked
    → ethdma_txsgflush s ≡ record s {
      txpkts = s.txtail;
      txtail = tx_locked;
      trace =
          write_taildesc xdma2_mm2s (slot_bd (s.txtail - 1))
          ∷ write_cr xdma2_mm2s (control_reg seq_control)
          ∷ write_currdesc xdma2_mm2s mm2s_ring
          ∷ s.trace;
    }
unfolding ethdma_txsgflush sgdma_seq_trans
txsgflush-starts s some_queued open_queue = ground arith

-- The steps of the driver beside the number of accepted packets. The engine reports a completion
-- only while a flush is in progress.
pub data TxStep : ℕ × Dma → ℕ × Dma → Type 0 where
  enque :
      (d : ℕ) (s : Dma) (mem : List ℕ)
      → length mem < 2 ^ 16
      → TxStep (d, s) (let (out, s') = ethdma_txsgenque mem s in (d + count_some out, s'))
  flush : (d : ℕ) (s : Dma) → TxStep (d, s) (d, ethdma_txsgflush s)
  irq :
      (d : ℕ) (s : Dma) (sr : ℕ)
      → ((status_of sr).ioc_irq ≡ true → s.txtail ≡ tx_locked)
      → TxStep (d, s) (d, on_ethdma_txirq sr s)

pub data TxReach (c : ℕ × Dma) : ℕ × Dma → Type 0 where
  here : TxReach c c
  next : {a b : ℕ × Dma} → TxReach c a → TxStep a b → TxReach c b

-- Each accepted packet was sent or is pending.
pub record Balanced (n chunk : ℕ) (c : ℕ × Dma) : Type 0 where
  pub ring : IsTx c.1 n chunk
  pub balance : c.0 % 2 ^ 32 ≡ (c.1.txcount + pending c.1) % 2 ^ 32

txsgenque_counts :
    (mem : List ℕ) (s : Dma)
    → let s' = (ethdma_txsgenque mem s).1 in (s'.txcount ≡ s.txcount) × (s'.txpkts ≡ s.txpkts)
unfolding ethdma_txsgenque
txsgenque_counts mem s = ground arith

txsgflush_frame :
    (s : Dma)
    → let s' = ethdma_txsgflush s in
      (s'.bds ≡ s.bds)
      × (s'.txdepth ≡ s.txdepth)
      × ((s'.txtail ≡ s.txtail) ⊎ ((s'.txtail ≡ tx_locked) ⊎ (s'.txtail ≡ 0)))
unfolding ethdma_txsgflush sgdma_seq_trans
txsgflush_frame s = ground arith

on_ethdma_txirq_frame :
    (sr : ℕ) (s : Dma)
    → let s' = on_ethdma_txirq sr s in
      (s'.bds ≡ s.bds)
      × (s'.txdepth ≡ s.txdepth)
      × ((s'.txtail ≡ s.txtail) ⊎ ((s'.txtail ≡ tx_locked) ⊎ (s'.txtail ≡ 0)))
unfolding on_ethdma_txirq sgdma_ackirq
on_ethdma_txirq_frame sr s = ground arith

pending-txsgflush :
    (s : Dma) → let s' = ethdma_txsgflush s in (s'.txcount ≡ s.txcount) × (pending s' ≡ pending s)
unfolding ethdma_txsgflush sgdma_seq_trans
pending-txsgflush s = ground arith

pending-on_ethdma_txirq :
    (sr : ℕ) (s : Dma)
    → ((status_of sr).ioc_irq ≡ true → s.txtail ≡ tx_locked)
    → let s' = on_ethdma_txirq sr s in
      (s'.txcount + pending s') % 2 ^ 32 ≡ (s.txcount + pending s) % 2 ^ 32
unfolding on_ethdma_txirq sgdma_ackirq
pending-on_ethdma_txirq sr s locked = grind arith

module _ {n chunk : ℕ} where
  -- A packet is taken or refused.
  enque-cases :
      {s : Dma}
      → IsTx s n chunk
      → (mem : List ℕ)
      → ((s.txtail + 1 < n) × (length mem < chunk))
        ⊎ ((s.txtail ≡ tx_locked) ⊎ ((s.txtail + 1 ≡ n) ⊎ (chunk ≤ length mem)))
  enque-cases {s} v mem = elim v.tail [
    | inr locked ↦ inr (inl locked)
    | inl inside ↦ elim (dec_lt (s.txtail + 1) n) [
      | no last ↦ inr (inr (inl (omega arith)))
      | yes more ↦ elim (dec_lt (length mem) chunk) [
        | yes fits ↦ inl (more, fits)
        | no long ↦ inr (inr (inr (omega arith)))
      ]
    ]
  ]

  -- A step that keeps the descriptors, and keeps, locks or empties the queue.
  IsTx-same :
      {s s' : Dma}
      → IsTx s n chunk
      → s'.bds ≡ s.bds
      → s'.txdepth ≡ s.txdepth
      → (s'.txtail ≡ s.txtail) ⊎ ((s'.txtail ≡ tx_locked) ⊎ (s'.txtail ≡ 0))
      → IsTx s' n chunk
  IsTx-same {s} {s'} v e d t = record {
    depth = d ∙ v.depth;
    few = v.few;
    some_slot = v.some_slot;
    area = v.area;
    linked = rw e v.linked;
    tail = tail t;
    short = rw e (λ i h k. short t i h k);
  }
    where
      tail :
          (s'.txtail ≡ s.txtail) ⊎ ((s'.txtail ≡ tx_locked) ⊎ (s'.txtail ≡ 0))
          → (s'.txtail < n) ⊎ (s'.txtail ≡ tx_locked)
      tail (inl same) = rw same v.tail
      tail (inr (inl lock)) = inr lock
      tail (inr (inr zero_tail)) = inl (omega (arith, v.some_slot))

      short :
          (s'.txtail ≡ s.txtail) ⊎ ((s'.txtail ≡ tx_locked) ⊎ (s'.txtail ≡ 0))
          → (i : ℕ) → i < s'.txtail
          → s'.txtail < n
          → (s.bds (slot_bd i)).buffer_len < chunk
      short (inl same) i h k = v.short i (omega arith) (omega arith)
      short (inr (inl lock)) i h k = absurd (omega (arith, v.few))
      short (inr (inr zero_tail)) i h k = absurd (omega arith)

  flush-IsTx : {s : Dma} → IsTx s n chunk → IsTx (ethdma_txsgflush s) n chunk
  flush-IsTx {s} v = let f = txsgflush_frame s in IsTx-same v f.0 f.1 f.2

  irq-IsTx : {s : Dma} (sr : ℕ) → IsTx s n chunk → IsTx (on_ethdma_txirq sr s) n chunk
  irq-IsTx {s} sr v = let f = on_ethdma_txirq_frame sr s in IsTx-same v f.0 f.1 f.2

  enque-Balanced :
      (d : ℕ) (s : Dma) (mem : List ℕ)
      → length mem < 2 ^ 16
      → Balanced n chunk (d, s)
      → Balanced n chunk (let (out, s') = ethdma_txsgenque mem s in (d + count_some out, s'))
  enque-Balanced d s mem small b = elim (enque-cases b.ring mem) [
    | inl (more, fits) ↦
        let t = enque-queued mem b.ring more fits in
        let k = enque_taken b.ring mem more fits in
        record { ring = t.2; balance = ground (arith, t.0, k.1, txsgenque_counts mem s, b.balance) }
    | inr refused ↦
        let r = enque_refused b.ring mem refused small in
        record {
          ring = IsTx-same b.ring r.3 r.4 (inl r.1);
          balance = ground (arith, r.0, r.1, txsgenque_counts mem s, b.balance);
        }
  ]

  TxStep-Balanced : {a b : ℕ × Dma} → TxStep a b → Balanced n chunk a → Balanced n chunk b
  TxStep-Balanced (enque d s mem small) b = enque-Balanced d s mem small b
  TxStep-Balanced (flush d s) b = record {
    ring = flush-IsTx b.ring;
    balance = omega (arith, b.balance, pending-txsgflush s);
  }
  TxStep-Balanced (irq d s sr locked) b = record {
    ring = irq-IsTx sr b.ring;
    balance = b.balance ∙ sym (pending-on_ethdma_txirq sr s locked);
  }

  -- If the ring is well formed and the packets accepted are those sent and those pending, modulo
  -- 2 ^ 32, both hold in every state that enqueuing, flushes and send interrupts reach, where an
  -- interrupt comes only while a flush is in progress.
  pub TxReach-Balanced : {a b : ℕ × Dma} → Balanced n chunk a → TxReach a b → Balanced n chunk b
  TxReach-Balanced h here = h
  TxReach-Balanced h (next r st) = TxStep-Balanced st (TxReach-Balanced h r)
