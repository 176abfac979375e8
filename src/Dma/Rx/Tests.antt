-- ===== src/Dma/Rx/Tests.antt =====
-- Runs of the receive queue, and the theorems at concrete states.
use rpv_platforms_evt_driven.Base.{◌+◌, ◌≡◌, refl, arith, some, true, [], ◌∷◌}
use rpv_platforms_evt_driven.Base.Index.{next_index}
use rpv_platforms_evt_driven.Dma.Bd.{ring_bd}
use rpv_platforms_evt_driven.Dma.Registers.{status_of}
use rpv_platforms_evt_driven.Dma.State.{Dma, s2mm_ring, copy_out}
use rpv_platforms_evt_driven.Dma.Engine.{sgdma_ackirq}
use rpv_platforms_evt_driven.Dma.Fixture.{fresh, sr_halted, sr_ioc}
use rpv_platforms_evt_driven.Dma.Rx.{
  ethdma_queue, on_ethdma_rxirq, ethdma_rxsgcmplt, interrupted_rxsgcmplt,
}
use rpv_platforms_evt_driven.Dma.Rx.Queue.{IsRx, waiting, Ready}
use rpv_platforms_evt_driven.Dma.Rx.Balance.{irq, complete, rx_run, Balanced, rx_run-Balanced}
use rpv_platforms_evt_driven.Dma.Rx.Race.{waiting-interrupted_rxsgcmplt}

-- Nine completed packets of three bytes wait.
abbrev busy : Dma
busy = record fresh {
  rxhead = 4;
  rxtail = 5;
  rxcount = 9;
  bds = λ a. record (ring_bd 0 a 1536) { cmplt = true; trans_len = 3 };
  bytes = λ a. 7;
}

busy-IsRx : IsRx busy
busy-IsRx = omega arith

busy-Ready : Ready 1536 busy
busy-Ready = (omega arith, refl, omega arith)

busy-Balanced : Balanced (0, busy)
busy-Balanced = record { valid = busy-IsRx; balance = refl }

packet_run :
    ((ethdma_rxsgcmplt 1536 busy).0 ≡ some (s2mm_ring + 320, 7 ∷ 7 ∷ 7 ∷ []))
    × ((on_ethdma_rxirq sr_ioc busy).lostcount ≡ 1)
unfolding ethdma_rxsgcmplt copy_out on_ethdma_rxirq ethdma_queue sgdma_ackirq status_of next_index
packet_run = (refl, refl)

rx_run-Balanced_example :
    Balanced (rx_run (0, busy) (irq sr_ioc ∷ complete 1536 ∷ irq sr_halted ∷ []))
rx_run-Balanced_example =
    rx_run-Balanced (irq sr_ioc ∷ complete 1536 ∷ irq sr_halted ∷ []) busy-Balanced

waiting-interrupted_rxsgcmplt_example :
    waiting (interrupted_rxsgcmplt 1536 (sr_ioc ∷ sr_ioc ∷ []) busy).1 ≡ 0
unfolding status_of
waiting-interrupted_rxsgcmplt_example =
    waiting-interrupted_rxsgcmplt 1536 (sr_ioc ∷ sr_ioc ∷ []) busy-IsRx busy-Ready
      (refl, (refl, tt)) (omega arith)
