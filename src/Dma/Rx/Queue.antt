-- ===== src/Dma/Rx/Queue.antt =====
-- What the receive interrupt and the completion of a packet do to the queue.
use rpv_platforms_evt_driven.Base.{
  ℕ, ◌+◌, ◌-◌, ◌*◌, ◌%◌, ◌^◌, ◌≤◌, ◌<◌, ◌≡◌, ◌≢◌, arith, true, false, none, some, ◌==◌,
  if◌then◌else◌, min,
}
use rpv_platforms_evt_driven.Base.Index.{next_index}
use rpv_platforms_evt_driven.Dma.Registers.{status_of}
use rpv_platforms_evt_driven.Dma.Bd.{Bd, bd_size, write_bd}
use rpv_platforms_evt_driven.Dma.State.{Dma, max_bds, s2mm_ring, copy_out}
use rpv_platforms_evt_driven.Dma.Engine.{sgdma_ackirq}
use rpv_platforms_evt_driven.Dma.Rx.{
  ethdma_queue, on_ethdma_rxirq, eth_rxqcount, ethdma_rxsgcmplt, clear_status,
}

pub record IsRx (s : Dma) : Type 0 where
  pub head_in : s.rxhead < max_bds
  pub tail_in : s.rxtail < max_bds

-- The filled descriptors that wait.
abbrev pub waiting : Dma → ℕ
waiting s = (s.rxhead + max_bds - s.rxtail) % max_bds

-- `eth_rxqcount` counts the waiting packets, in spite of its unsigned subtraction.
pub eth_rxqcount_lem : {s : Dma} → IsRx s → eth_rxqcount s ≡ waiting s
unfolding eth_rxqcount
eth_rxqcount_lem v = omega arith

-- An interrupt with a completed packet: one more waits, or at nine the oldest is lost.
pub record Arrived (s s' : Dma) : Type 0 where
  pub valid : IsRx s'
  pub waits : waiting s' ≡ min 9 (waiting s + 1)
  pub received : s'.rxcount ≡ (s.rxcount + 1) % 2 ^ 32
  pub lost : s'.lostcount ≡ (if waiting s == 9 then (s.lostcount + 1) % 2 ^ 32 else s.lostcount)

-- A receive interrupt that reports a completed packet lets one packet more wait, or loses the oldest
-- one if nine wait already; it counts the packet as received, and as lost in the second case.
pub on_ethdma_rxirq-Arrived :
    (sr : ℕ) {s : Dma} → IsRx s → (status_of sr).ioc_irq ≡ true → Arrived s (on_ethdma_rxirq sr s)
unfolding on_ethdma_rxirq ethdma_queue sgdma_ackirq next_index
on_ethdma_rxirq-Arrived sr {s} v ioc = ground arith

-- An interrupt with no completed packet leaves the queue and the counters alone.
pub on_ethdma_rxirq_idle :
    (sr : ℕ) (s : Dma)
    → (status_of sr).ioc_irq ≡ false
    → let s' = on_ethdma_rxirq sr s in
      (s'.rxhead ≡ s.rxhead)
      × (s'.rxtail ≡ s.rxtail)
      × (s'.rxcount ≡ s.rxcount)
      × (s'.lostcount ≡ s.lostcount)
unfolding on_ethdma_rxirq ethdma_queue sgdma_ackirq
on_ethdma_rxirq_idle sr s idle = ground arith

-- The descriptor of the oldest packet.
abbrev pub oldest : Dma → Bd
oldest s = s.bds (s2mm_ring + s.rxtail * bd_size)

-- A packet can be handed over: one waits, the engine has marked it complete, and it fits.
abbrev pub Ready : (mem_len : ℕ) → Dma → Type 0
Ready mem_len s = (waiting s ≢ 0) × ((oldest s).cmplt ≡ true) × ((oldest s).trans_len ≤ mem_len)

-- One packet fewer waits, and its descriptor alone is cleared for the engine.
pub record Taken (s s' : Dma) : Type 0 where
  pub valid : IsRx s'
  pub same_head : s'.rxhead ≡ s.rxhead
  pub waits : waiting s' + 1 ≡ waiting s
  pub cleared : s'.bds ≡ write_bd s.bds (s2mm_ring + s.rxtail * bd_size) (clear_status (oldest s))
  pub lost : s'.lostcount ≡ s.lostcount
  pub received : s'.rxcount ≡ s.rxcount

-- If a packet waits, is complete and fits the caller's buffer, the caller gets the bytes of the
-- oldest descriptor's buffer, one packet fewer waits, and that descriptor alone is cleared.
pub Ready-Taken :
    (mem_len : ℕ) {s : Dma}
    → IsRx s
    → Ready mem_len s
    → let (out, s') = ethdma_rxsgcmplt mem_len s in
      (out ≡ some ((oldest s).buffer, copy_out s.bytes (oldest s).buffer (oldest s).trans_len))
      × Taken s s'
unfolding ethdma_rxsgcmplt next_index
Ready-Taken mem_len {s} v (some_wait, cmplt, fits) = ground arith

-- If no packet waits, or the oldest one is not complete or too long, the caller gets NULL, and
-- queue, counters and descriptors stay as they were.
pub not-Ready-same :
    (mem_len : ℕ) {s : Dma}
    → IsRx s
    → ¬ Ready mem_len s
    → let (out, s') = ethdma_rxsgcmplt mem_len s in
      (out ≡ none)
      × (s'.bds ≡ s.bds)
      × (s'.rxhead ≡ s.rxhead)
      × (s'.rxtail ≡ s.rxtail)
      × (s'.rxcount ≡ s.rxcount)
      × (s'.lostcount ≡ s.lostcount)
unfolding ethdma_rxsgcmplt next_index
not-Ready-same mem_len {s} v not_ready = grind arith
