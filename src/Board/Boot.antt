-- ===== src/Board/Boot.antt =====
-- src/arch/mb_le/entry.c: the start of the drivers, before the interrupts are enabled, with the lines
-- of the interrupt controller that each driver takes.
pub mod Ready
use rpv_platforms_evt_driven.Base.{ℕ, ◌==◌, if◌then◌else◌, Bool, Option, none, some, List, [], ◌∷◌}
use rpv_platforms_evt_driven.Dma.State.{Dma}
use rpv_platforms_evt_driven.Dma.Engine.{xdma_start}
use rpv_platforms_evt_driven.Timer.{Timer, xtimer_start}
use rpv_platforms_evt_driven.Net.Mac.{Mac, xtemac_start}
use rpv_platforms_evt_driven.Rtm.{Rtm, rtmsure_start}
use rpv_platforms_evt_driven.Uart.Xuart.Port.{UartEffect, xuartlite_start}
use rpv_platforms_evt_driven.Board.Intc.{Intc, xintc_start, disable_line, enable_line}

-- XUART0_IRQ, XDMA1_MM2S_IRQ, RTMSURE_IRQ, XTIMER_IRQ, XDMA2_MM2S_IRQ, XDMA2_S2MM_IRQ and
-- XTEMAC_PHY_IRQ
abbrev pub xuart0_irq : ℕ
xuart0_irq = 0

abbrev pub xdma1_mm2s_irq : ℕ
xdma1_mm2s_irq = 3

abbrev pub rtmsure_irq : ℕ
rtmsure_irq = 4

abbrev pub xtimer_irq : ℕ
xtimer_irq = 6

abbrev pub xdma2_mm2s_irq : ℕ
xdma2_mm2s_irq = 9

abbrev pub xdma2_s2mm_irq : ℕ
xdma2_s2mm_irq = 10

abbrev pub xtemac_phy_irq : ℕ
xtemac_phy_irq = 11

-- The addresses of the handlers.
pub record Handlers : Type 0 where
  pub on_xuart0 : ℕ
  pub on_sbdma : ℕ
  pub on_rtmsure : ℕ
  pub on_timer : ℕ
  pub on_ethdma_tx : ℕ
  pub on_ethdma_rx : ℕ
  pub on_phy : ℕ

-- The calls of the controller in `_xdma_start`, `_xtimer_start`, `_xtemac_phy`, `_rtmsure_start` and
-- `_xuartlite_start`.
unfoldable pub xdma_lines : Handlers → Intc → Intc
xdma_lines h s = enable_line xdma2_s2mm_irq h.on_ethdma_rx (
    enable_line xdma2_mm2s_irq h.on_ethdma_tx (
      enable_line xdma1_mm2s_irq h.on_sbdma (
        disable_line xdma2_s2mm_irq (disable_line xdma2_mm2s_irq (disable_line xdma1_mm2s_irq s)))))

unfoldable pub xtimer_lines : Handlers → Intc → Intc
xtimer_lines h s = enable_line xtimer_irq h.on_timer s

unfoldable pub phy_lines : Handlers → Intc → Intc
phy_lines h s = enable_line xtemac_phy_irq h.on_phy (disable_line xtemac_phy_irq s)

unfoldable pub rtmsure_lines : Handlers → Intc → Intc
rtmsure_lines h s = enable_line rtmsure_irq h.on_rtmsure (disable_line rtmsure_irq s)

unfoldable pub xuart_lines : Handlers → Intc → Intc
xuart_lines h s = enable_line xuart0_irq h.on_xuart0 (disable_line xuart0_irq s)

-- The drivers' states. The state of the Ethernet DMA is that of `mac`.
pub record Board : Type 0 where
  pub intc : Intc
  pub timer : Timer
  pub mac : Mac
  pub rtm : Rtm
  pub uart : List UartEffect

-- What the start reads: the PHY (whether a command can be written, three times, and the words of the
-- reset loop), the status of the two Ethernet channels, and the status register of the controller.
pub record BootReads : Type 0 where
  pub ready_reset : Bool
  pub ready_bmcr : Bool
  pub ready_imr : Bool
  pub resets : List (Option ℕ)
  pub tx_sr : ℕ
  pub rx_sr : ℕ
  pub isr : ℕ

-- `main`, up to `_xintc_start`; `none` if the reset loop wants one more read.
unfoldable pub boot : Handlers → BootReads → Board → Option Board
boot h r b =
    let mac = record b.mac { dma = xdma_start b.mac.dma } in
    let intc =
      xuart_lines h (rtmsure_lines h (phy_lines h (xtimer_lines h (xdma_lines h b.intc)))) in
    elim (xtemac_start r.ready_reset r.ready_bmcr r.ready_imr r.resets r.tx_sr r.rx_sr mac) [
      | none ↦ none
      | some started ↦ some (record {
        intc = xintc_start r.isr intc;
        timer = xtimer_start b.timer;
        mac = started;
        rtm = rtmsure_start b.rtm;
        uart = xuartlite_start b.uart;
      })
    ]
