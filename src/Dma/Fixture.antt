-- ===== src/Dma/Fixture.antt =====
-- A state of the driver for the tests: all statics zero, no descriptor set up.
use rpv_platforms_evt_driven.Base.{ℕ, false, []}
use rpv_platforms_evt_driven.Dma.Bd.{ring_bd}
use rpv_platforms_evt_driven.Dma.State.{Dma}

abbrev pub fresh : Dma
fresh = record {
  rxcount = 0;
  txcount = 0;
  lostcount = 0;
  rxtail = 0;
  rxhead = 0;
  txtail = 0;
  txpkts = 0;
  txdepth = 0;
  ethdma_txbuserr = false;
  ethdma_rxbuserr = false;
  sbdma_cmplt = false;
  sbdma_buserr = false;
  bds = λ _. ring_bd 0 0 0;
  bytes = λ _. 0;
  trace = [];
}

-- A status word: scatter-gather built in, and halted.
abbrev pub sr_halted : ℕ
sr_halted = 9

-- A status word with the completion bit.
abbrev pub sr_ioc : ℕ
sr_ioc = 0x1008
