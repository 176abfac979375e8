-- ===== src/Dma/Rx/Balance.antt =====
-- The receive counters over any sequence of interrupts and completions.
use rpv_platforms_evt_driven.Base.{
  ℕ, ◌+◌, ◌%◌, ◌^◌, ◌≡◌, arith, Option, none, some, List, [], ◌∷◌, Bool-cases, inl, inr, ◌⊎◌,
  dec_le, ℕ_discrete,
}
use rpv_platforms_evt_driven.Dma.Bd.{BdMem}
use rpv_platforms_evt_driven.Dma.Registers.{status_of}
use rpv_platforms_evt_driven.Dma.State.{Dma}
use rpv_platforms_evt_driven.Dma.Rx.{on_ethdma_rxirq, ethdma_rxsgcmplt}
use rpv_platforms_evt_driven.Dma.Rx.Queue.{
  IsRx, waiting, oldest, Ready, Arrived, on_ethdma_rxirq-Arrived, on_ethdma_rxirq_idle, Ready-Taken,
  not-Ready-same,
}

-- The engine may rewrite descriptors and buffers at any time.
pub data RxEvent : Type 0 where
  irq : (sr : ℕ) → RxEvent
  complete : (mem_len : ℕ) → RxEvent
  engine : BdMem → (ℕ → ℕ) → RxEvent

abbrev pub count_some {ℓ} : {A : Type ℓ} → Option A → ℕ
count_some none = 0
count_some (some a) = 1

-- The packets handed over so far, and the state.
unfoldable pub rx_step : ℕ × Dma → RxEvent → ℕ × Dma
rx_step (d, s) (irq sr) = (d, on_ethdma_rxirq sr s)
rx_step (d, s) (complete mem_len) =
    let (out, s') = ethdma_rxsgcmplt mem_len s in (d + count_some out, s')
rx_step (d, s) (engine bds bytes) = (d, record s { bds = bds; bytes = bytes })

unfoldable pub rx_run : ℕ × Dma → List RxEvent → ℕ × Dma
rx_run c [] = c
rx_run c (e ∷ es) = rx_run (rx_step c e) es

-- Each received packet was handed over, was lost, or waits. The counters are 32-bit words.
pub record Balanced (c : ℕ × Dma) : Type 0 where
  pub valid : IsRx c.1
  pub balance : c.1.rxcount ≡ (c.0 + c.1.lostcount + waiting c.1) % 2 ^ 32

irq-Balanced : (d sr : ℕ) (s : Dma) → Balanced (d, s) → Balanced (d, on_ethdma_rxirq sr s)
irq-Balanced d sr s b = elim (Bool-cases ((status_of sr).ioc_irq)) [
  | inl ioc ↦
      let a : Arrived s (on_ethdma_rxirq sr s) = on_ethdma_rxirq-Arrived sr (b.valid) ioc in
      record { valid = a.valid; balance = ground (arith, a.waits, a.received, a.lost, b.balance) }
  | inr idle ↦ ground (arith, on_ethdma_rxirq_idle sr s idle)
]

Ready-cases : (mem_len : ℕ) (s : Dma) → Ready mem_len s ⊎ (¬ Ready mem_len s)
Ready-cases mem_len s = elim (ℕ_discrete (waiting s) 0) [
  | yes e ↦ inr (λ h. h.0 e)
  | no n ↦ elim (Bool-cases (oldest s).cmplt) [
    | inr f ↦ inr (λ h. cc (h.1))
    | inl t ↦ elim (dec_le (oldest s).trans_len mem_len) [
      | yes p ↦ inl (n, t, p)
      | no q ↦ inr (λ h. q h.2)
    ]
  ]
]

complete-Balanced :
    (d mem_len : ℕ) (s : Dma) → Balanced (d, s) → Balanced (rx_step (d, s) (complete mem_len))
unfolding rx_step
complete-Balanced d mem_len s b = elim (Ready-cases mem_len s) [
  | inl ready ↦
      let (out, taken) = Ready-Taken mem_len b.valid ready in
      record {
        valid = taken.valid;
        balance = ground (arith, out, taken.waits, taken.lost, taken.received, b.balance);
      }
  | inr not_ready ↦ ground (arith, not-Ready-same mem_len b.valid not_ready)
]

rx_step-Balanced : (c : ℕ × Dma) (e : RxEvent) → Balanced c → Balanced (rx_step c e)
rx_step-Balanced (d, s) (irq sr) b = unfold rx_step in irq-Balanced d sr s b
rx_step-Balanced (d, s) (complete mem_len) b = complete-Balanced d mem_len s b
rx_step-Balanced (d, s) (engine bds bytes) b = unfold rx_step in ground arith

-- If the packets received are those delivered, lost and waiting, modulo 2 ^ 32, and the queue is in
-- bounds, both stay so over any sequence of interrupts, completions and writes of the engine.
pub rx_run-Balanced : (es : List RxEvent) {c : ℕ × Dma} → Balanced c → Balanced (rx_run c es)
unfolding rx_run
rx_run-Balanced [] b = b
rx_run-Balanced (e ∷ es) {c} b = rx_run-Balanced es (rx_step-Balanced c e b)
