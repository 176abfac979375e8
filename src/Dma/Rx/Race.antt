-- ===== src/Dma/Rx/Race.antt =====
-- What receive interrupts do to a completion that they fall into.
use rpv_platforms_evt_driven.Base.{ℕ, ◌+◌, ◌%◌, ◌≡◌, arith, true, List, [], ◌∷◌, length}
use rpv_platforms_evt_driven.Base.Index.{next_index}
use rpv_platforms_evt_driven.Dma.Registers.{status_of}
use rpv_platforms_evt_driven.Dma.State.{Dma, max_bds}
use rpv_platforms_evt_driven.Dma.Rx.{
  on_ethdma_rxirq, rx_irqs, ethdma_rxsgcmplt, interrupted_rxsgcmplt, ethdma_queue,
}
use rpv_platforms_evt_driven.Dma.Engine.{sgdma_ackirq}
use rpv_platforms_evt_driven.Dma.Rx.Queue.{
  IsRx, waiting, Ready, Arrived, on_ethdma_rxirq-Arrived, Ready-Taken,
}

-- Each of the status words reports a completed packet.
abbrev pub AllComplete : List ℕ → Type 0
AllComplete [] = Unit {0}
AllComplete (sr ∷ srs) = ((status_of sr).ioc_irq ≡ true) × AllComplete srs

rxhead-on_ethdma_rxirq :
    (sr : ℕ) {s : Dma}
    → IsRx s
    → (status_of sr).ioc_irq ≡ true
    → (on_ethdma_rxirq sr s).rxhead ≡ (s.rxhead + 1) % max_bds
unfolding on_ethdma_rxirq ethdma_queue sgdma_ackirq next_index
rxhead-on_ethdma_rxirq sr v ioc = ground arith

rxhead-rx_irqs :
    (srs : List ℕ) {s : Dma}
    → IsRx s
    → AllComplete srs
    → (rx_irqs srs s).rxhead ≡ (s.rxhead + length srs) % max_bds
unfolding rx_irqs
rxhead-rx_irqs [] v all = omega arith
rxhead-rx_irqs (sr ∷ srs) {s} v all =
    let a : Arrived s (on_ethdma_rxirq sr s) = on_ethdma_rxirq-Arrived sr v all.0 in
    omega (arith, rxhead-rx_irqs srs a.valid all.1, rxhead-on_ethdma_rxirq sr v all.0)

-- If receive interrupts fall between the read and the store of the index in a completion that finds a
-- packet, and the packets that wait and those that arrive are eleven, then no packet waits after it.
pub waiting-interrupted_rxsgcmplt :
    (mem_len : ℕ) (srs : List ℕ) {s : Dma}
    → IsRx s
    → Ready mem_len s
    → AllComplete srs
    → waiting s + length srs ≡ 11
    → waiting (interrupted_rxsgcmplt mem_len srs s).1 ≡ 0
unfolding interrupted_rxsgcmplt
waiting-interrupted_rxsgcmplt mem_len srs {s} v ready all eleven =
    let (out, taken) = Ready-Taken mem_len v ready in
    let s' : Dma = (ethdma_rxsgcmplt mem_len s).1 in
    let before : Dma = record s' { rxtail = s.rxtail } in
    let head : (rx_irqs srs before).rxhead ≡ (before.rxhead + length srs) % max_bds =
      rxhead-rx_irqs srs (omega (arith, taken.same_head)) all in
    rw (out, interrupted_rxsgcmplt)
      (omega (arith, head, taken.same_head, taken.waits, taken.valid.tail_in))
