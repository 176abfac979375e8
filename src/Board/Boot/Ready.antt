-- ===== src/Board/Boot/Ready.antt =====
-- What is ready before the interrupts are enabled.
use rpv_platforms_evt_driven.Base.{
  ℕ, ◌<◌, ◌≡◌, ◌≢◌, refl, sym, subst, ap, ◌∙◌, arith, ◌==◌, if◌then◌else◌, true, false, Option,
  some, List, [], ◌∷◌, ◌++◌, negsuc,
}
use rpv_platforms_evt_driven.Base.Bits.{bit_at}
use rpv_platforms_evt_driven.Dma.Engine.{sgdma_sgallowed, xdma_start}
use rpv_platforms_evt_driven.Timer.Clock.{running, xtimer_start-running}
use rpv_platforms_evt_driven.Rtm.{rtmsure_start}
use rpv_platforms_evt_driven.Net.Mac.{def_macaddr, xtemac_mac, xtemac_start}
use rpv_platforms_evt_driven.Net.Mac.Transceiver.{IsFresh}
use rpv_platforms_evt_driven.Net.Mac.Start.{xtemac_start-IsFresh}
use rpv_platforms_evt_driven.Board.Intc.{Intc, mer_reg, xintc_start, disable_line, enable_line}
use rpv_platforms_evt_driven.Board.Intc.Lines.{IsServed, SameLine}
use rpv_platforms_evt_driven.Board.Boot.{
  Handlers, xuart0_irq, xdma1_mm2s_irq, rtmsure_irq, xtimer_irq, xdma2_mm2s_irq, xdma2_s2mm_irq,
  xtemac_phy_irq, xdma_lines, xtimer_lines, phy_lines, rtmsure_lines, xuart_lines, Board, BootReads,
  boot,
}

-- No handler is at address 0.
pub record AllPlaced (h : Handlers) : Type 0 where
  pub xuart0 : 0 < h.on_xuart0
  pub sbdma : 0 < h.on_sbdma
  pub rtmsure : 0 < h.on_rtmsure
  pub timer : 0 < h.on_timer
  pub ethdma_tx : 0 < h.on_ethdma_tx
  pub ethdma_rx : 0 < h.on_ethdma_rx
  pub phy : 0 < h.on_phy

-- Every driver has its line, with its own handler; interrupts are on, and no other line has changed.
pub record IsWired (h : Handlers) (s t : Intc) : Type 0 where
  pub xuart0 : IsServed t xuart0_irq h.on_xuart0
  pub sbdma : IsServed t xdma1_mm2s_irq h.on_sbdma
  pub rtmsure : IsServed t rtmsure_irq h.on_rtmsure
  pub timer : IsServed t xtimer_irq h.on_timer
  pub ethdma_tx : IsServed t xdma2_mm2s_irq h.on_ethdma_tx
  pub ethdma_rx : IsServed t xdma2_s2mm_irq h.on_ethdma_rx
  pub phy : IsServed t xtemac_phy_irq h.on_phy
  pub others :
      (k : ℕ)
      → k ≢ xuart0_irq
      → k ≢ xdma1_mm2s_irq
      → k ≢ rtmsure_irq
      → k ≢ xtimer_irq
      → k ≢ xdma2_mm2s_irq
      → k ≢ xdma2_s2mm_irq
      → k ≢ xtemac_phy_irq
      → SameLine k s t
  pub master : t.mer ≡ 3

-- A line with a handler that is not at address 0.
abbrev set_line : (irq isr_addr : ℕ) → Intc → Intc
set_line irq isr_addr s = record s {
  imr = λ k. if k == irq then true else s.imr k;
  ivar = λ k. if k == irq then isr_addr else s.ivar k;
  ier = λ k. if k == irq then true else s.ier k;
}

enable_line-at : (irq a : ℕ) (s : Intc) → 0 < a → enable_line irq a s ≡ set_line irq a s
unfolding enable_line
enable_line-at irq a s l =
    let placed : (a == 0) ≡ false = ground arith in rw (placed, enable_line) refl

enable_line-set_line : (irq a : ℕ) → 0 < a → enable_line irq a ≡ set_line irq a
enable_line-set_line irq a l = λ i s. enable_line-at irq a s l i

-- All lines, over the seven enabling calls.
abbrev all_lines : (uart sound rtm timer tx rx phy : Intc → Intc) (isr : ℕ) → Intc → Intc
all_lines uart sound rtm timer tx rx phy isr s = xintc_start isr (
    uart (
      disable_line xuart0_irq (
        rtm (
          disable_line rtmsure_irq (
            phy (
              disable_line xtemac_phy_irq (
                timer (
                  rx (
                    tx (
                      sound (
                        disable_line xdma2_s2mm_irq
                          (disable_line xdma2_mm2s_irq (disable_line xdma1_mm2s_irq s)))))))))))))

set_lines-IsWired :
    (h : Handlers) (isr : ℕ) (s : Intc)
    → IsWired h s (
        all_lines
          (set_line xuart0_irq h.on_xuart0)
          (set_line xdma1_mm2s_irq h.on_sbdma)
          (set_line rtmsure_irq h.on_rtmsure)
          (set_line xtimer_irq h.on_timer)
          (set_line xdma2_mm2s_irq h.on_ethdma_tx)
          (set_line xdma2_s2mm_irq h.on_ethdma_rx)
          (set_line xtemac_phy_irq h.on_phy)
          isr
          s)
unfolding disable_line xintc_start mer_reg
set_lines-IsWired h isr s = record {
  xuart0 = record { enabled = refl; fast = refl; vector = refl };
  sbdma = record { enabled = refl; fast = refl; vector = refl };
  rtmsure = record { enabled = refl; fast = refl; vector = refl };
  timer = record { enabled = refl; fast = refl; vector = refl };
  ethdma_tx = record { enabled = refl; fast = refl; vector = refl };
  ethdma_rx = record { enabled = refl; fast = refl; vector = refl };
  phy = record { enabled = refl; fast = refl; vector = refl };
  others = λ k n0 n3 n4 n6 n9 n10 n11. record {
    same_ier = ground arith;
    same_imr = ground arith;
    same_ivar = ground arith;
  };
  master = refl;
}

lines-IsWired :
    (h : Handlers) (isr : ℕ) (s : Intc)
    → AllPlaced h
    → IsWired h s (
        xintc_start isr
          (xuart_lines h (rtmsure_lines h (phy_lines h (xtimer_lines h (xdma_lines h s))))))
unfolding xuart_lines rtmsure_lines phy_lines xtimer_lines xdma_lines
lines-IsWired h isr s v =
    subst (λ t. IsWired h s t)
      (sym (λ i.
        all_lines (enable_line-set_line xuart0_irq h.on_xuart0 v.xuart0 i)
          (enable_line-set_line xdma1_mm2s_irq h.on_sbdma v.sbdma i)
          (enable_line-set_line rtmsure_irq h.on_rtmsure v.rtmsure i)
          (enable_line-set_line xtimer_irq h.on_timer v.timer i)
          (enable_line-set_line xdma2_mm2s_irq h.on_ethdma_tx v.ethdma_tx i)
          (enable_line-set_line xdma2_s2mm_irq h.on_ethdma_rx v.ethdma_rx i)
          (enable_line-set_line xtemac_phy_irq h.on_phy v.phy i) isr s))
      (set_lines-IsWired h isr s)

-- Suppose that no handler is at address 0, that one of the reads of the PHY returns a word with the
-- reset bit clear, and that both engines of the Ethernet DMA are halted. Then the start of the drivers
-- ends, whether the commands to the PHY can be written or not. Each of the seven lines that the
-- drivers take is enabled in fast mode with the handler of its driver, no other line has changed, and
-- the controller is on. Both Ethernet rings are set up and empty, the default MAC address is set, no
-- reaction time is stored, and the timer runs from 0 with its interrupt enabled and no overflow
-- counted.
pub boot-IsWired :
    (h : Handlers) (r : BootReads) (before behind : List (Option ℕ)) (w : ℕ) (b : Board)
    → AllPlaced h
    → r.resets ≡ before ++ (some w ∷ behind)
    → bit_at w 15 ≡ false
    → sgdma_sgallowed r.tx_sr ≡ true
    → sgdma_sgallowed r.rx_sr ≡ true
    → (t : Board) × (boot h r b ≡ some t)
      × IsWired h b.intc t.intc
      × IsFresh t.mac.dma
      × (xtemac_mac [] 6 t.mac ≡ def_macaddr)
      × (t.rtm.bcd_time ≡ negsuc 0)
      × (t.timer ≡ running 0 0)
unfolding boot rtmsure_start
boot-IsWired h r before behind w b v reads low halted halted' =
    let mac = record b.mac { dma = xdma_start b.mac.dma } in
    let (started, ends, rings, address) =
      xtemac_start-IsFresh r.ready_reset r.ready_bmcr r.ready_imr before w behind r.tx_sr r.rx_sr
        mac low halted halted' in
    let ended =
      ap (λ rs. xtemac_start r.ready_reset r.ready_bmcr r.ready_imr rs r.tx_sr r.rx_sr mac) reads
      ∙ ends in
    rw (ended, boot)
      (_, refl, lines-IsWired h r.isr b.intc v, rings, address, refl, xtimer_start-running b.timer)
