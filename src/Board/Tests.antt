-- ===== src/Board/Tests.antt =====
-- A board before its start, and a use of the theorem on it.
use rpv_platforms_evt_driven.Base.{◌≡◌, refl, arith, true, false, some, [], ◌∷◌, pos, negsuc}
use rpv_platforms_evt_driven.Dma.Fixture.{fresh, sr_halted}
use rpv_platforms_evt_driven.Dma.Registers.{status_of}
use rpv_platforms_evt_driven.Dma.Engine.{sgdma_sgallowed}
use rpv_platforms_evt_driven.Timer.{no_tcsr}
use rpv_platforms_evt_driven.Timer.Clock.{running}
use rpv_platforms_evt_driven.Net.Mac.{def_macaddr, xtemac_mac}
use rpv_platforms_evt_driven.Net.Mac.Transceiver.{IsFresh}
use rpv_platforms_evt_driven.Board.Cache.{xdcache_flush, l1_invalidate_range, l2_flush_range}
use rpv_platforms_evt_driven.Board.Boot.{Handlers, Board, BootReads, boot}
use rpv_platforms_evt_driven.Board.Boot.Ready.{AllPlaced, IsWired, boot-IsWired}

abbrev handlers : Handlers
handlers = record {
  on_xuart0 = 0x100;
  on_sbdma = 0x200;
  on_rtmsure = 0x300;
  on_timer = 0x400;
  on_ethdma_tx = 0x500;
  on_ethdma_rx = 0x600;
  on_phy = 0x700;
}

handlers-AllPlaced : AllPlaced handlers
handlers-AllPlaced = record {
  xuart0 = omega arith;
  sbdma = omega arith;
  rtmsure = omega arith;
  timer = omega arith;
  ethdma_tx = omega arith;
  ethdma_rx = omega arith;
  phy = omega arith;
}

abbrev cold : Board
cold = record {
  intc = record { ier = λ k. true; imr = λ k. false; ivar = λ k. 0; acked = []; mer = 0 };
  timer = record { ovrflows = 5; csr = no_tcsr; lr = 3; cntr = 9 };
  mac = record {
    uaw0 = 0;
    uaw1 = 0;
    regs = [];
    phy = record { link_sig = true; mdio = [] };
    dma = fresh;
  };
  rtm = record { bcd_time = pos 3; rt_msuretime = pos 0; notes = [] };
  uart = [];
}

-- The PHY is in reset for one read.
abbrev first_reads : BootReads
first_reads = record {
  ready_reset = true;
  ready_bmcr = true;
  ready_imr = false;
  resets = some 0x8000 ∷ some 0x1000 ∷ [];
  tx_sr = sr_halted;
  rx_sr = sr_halted;
  isr = 0x41;
}

boot-IsWired_example :
    (t : Board) × (boot handlers first_reads cold ≡ some t)
    × IsWired handlers cold.intc t.intc
    × IsFresh t.mac.dma
    × (xtemac_mac [] 6 t.mac ≡ def_macaddr)
    × (t.rtm.bcd_time ≡ negsuc 0)
    × (t.timer ≡ running 0 0)
unfolding sgdma_sgallowed status_of
boot-IsWired_example =
    boot-IsWired handlers first_reads (some 0x8000 ∷ []) [] 0x1000 cold handlers-AllPlaced refl refl
      refl refl

-- The second cache is written back before the first one is emptied.
flush_order :
    xdcache_flush 0x8000 64 [] ≡ l1_invalidate_range 0x8000 64 ∷ l2_flush_range 0x8000 64 ∷ []
unfolding xdcache_flush
flush_order = refl
