-- ===== src/Dma/Counters.antt =====
-- src/arch/mb_le/sys/xdma.c: what the services read of the driver, the counters, the ends of the
-- queues and the signals.
use rpv_platforms_evt_driven.Base.{ℕ, Bool}
use rpv_platforms_evt_driven.Dma.State.{Dma}

abbrev pub eth_rxcount : Dma → ℕ
eth_rxcount s = s.rxcount

abbrev pub eth_txcount : Dma → ℕ
eth_txcount s = s.txcount

abbrev pub eth_lostcount : Dma → ℕ
eth_lostcount s = s.lostcount

abbrev pub eth_rxqhead : Dma → ℕ
eth_rxqhead s = s.rxhead

abbrev pub eth_rxqtail : Dma → ℕ
eth_rxqtail s = s.rxtail

-- The send ring always starts at its first slot.
abbrev pub eth_txqhead : Dma → ℕ
eth_txqhead _ = 0

abbrev pub eth_txqtail : Dma → ℕ
eth_txqtail s = s.txtail

-- `_ethdma_txbuserrSignal`
abbrev pub ethdma_txbuserr_signal : Dma → Bool
ethdma_txbuserr_signal s = s.ethdma_txbuserr

-- `_ethdma_rxbuserrSignal`
abbrev pub ethdma_rxbuserr_signal : Dma → Bool
ethdma_rxbuserr_signal s = s.ethdma_rxbuserr

-- `_sbdma_sgbuserrSignal`
abbrev pub sbdma_sgbuserr_signal : Dma → Bool
sbdma_sgbuserr_signal s = s.sbdma_buserr

-- `_sbdma_sgcmpltSignal`
abbrev pub sbdma_sgcmplt_signal : Dma → Bool
sbdma_sgcmplt_signal s = s.sbdma_cmplt
