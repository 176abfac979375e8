-- ===== src/Dma/Engine.antt =====
-- The engine helpers of xdma.c: start, stop and reset of a channel, and the acknowledge of its
-- interrupt. A value that the code reads from a status register is an argument.
use rpv_platforms_evt_driven.Base.{
  ℕ, ◌%◌, ◌^◌, ◌==◌, if◌then◌else◌, Bool, true, false, ◌&&◌, ◌||◌, Option, none, some, [], ◌∷◌,
}
use rpv_platforms_evt_driven.Dma.Registers.{Control, control_reg, Status, status_of}
use rpv_platforms_evt_driven.Dma.State.{
  Dma, Channel, xdma0_mm2s, xdma0_s2mm, xdma1_mm2s, write_cr, write_sr, write_currdesc,
  write_taildesc, write_buffer, write_trans_len, set_rs, set_reset, await_reset, await_halted,
  irq_disable, irq_enable, emits,
}

-- `= { 0 }`
abbrev pub zero_control : Control
zero_control = record {
  rs = false;
  reset = false;
  keyhole = false;
  cyclic_bd_enable = false;
  ioc_irq_en = false;
  dly_irq_en = false;
  err_irq_en = false;
  irq_thrshld = 0;
  irq_delay = 0;
}

abbrev pub stop_control : Control
stop_control = record zero_control { reset = true }

abbrev pub seq_control : Control
seq_control = record zero_control { rs = true; ioc_irq_en = true; err_irq_en = true }

abbrev pub cyclic_control : Control
cyclic_control = record seq_control { cyclic_bd_enable = true }

-- XDMA1_MM2S_IRQ, XDMA2_MM2S_IRQ and XDMA2_S2MM_IRQ
abbrev sound_irq : ℕ
sound_irq = 3

abbrev tx_irq : ℕ
tx_irq = 9

abbrev rx_irq : ℕ
rx_irq = 10

-- `_xdma_start`
unfoldable pub xdma_start : Dma → Dma
xdma_start s =
    emits
      (record s {
        rxhead = 0;
        rxtail = 0;
        rxcount = 0;
        txcount = 0;
        lostcount = 0;
        txtail = 0;
        txpkts = 0;
        txdepth = 0;
      })
      (irq_disable sound_irq
        ∷ irq_disable tx_irq
        ∷ irq_disable rx_irq
        ∷ set_reset xdma0_mm2s true
        ∷ set_reset xdma0_s2mm true
        ∷ set_reset xdma1_mm2s true
        ∷ await_reset xdma0_mm2s
        ∷ await_reset xdma0_s2mm
        ∷ await_reset xdma1_mm2s
        ∷ irq_enable sound_irq
        ∷ irq_enable tx_irq
        ∷ irq_enable rx_irq
        ∷ [])

-- `xsgdma_sgallowed`: scatter-gather is built in, and the channel does not run.
unfoldable pub sgdma_sgallowed : (sr : ℕ) → Bool
sgdma_sgallowed sr = let st = status_of sr in st.sg_incld && (st.halted || st.idle)

-- `xsgdma_engreset` and `xsgdma_engstop`
unfoldable pub sgdma_engreset : Channel → Dma → Dma
sgdma_engreset ch s = emits s (set_reset ch true ∷ await_reset ch ∷ [])

unfoldable pub sgdma_engstop : Channel → Dma → Dma
sgdma_engstop ch s = emits s (write_cr ch (control_reg stop_control) ∷ await_halted ch ∷ [])

-- `xsgdma_seqTrans`: the tail descriptor last, which starts the engine.
unfoldable pub sgdma_seq_trans : Channel → (head tail : ℕ) → Dma → Dma
sgdma_seq_trans ch head tail s =
    emits s
      (write_currdesc ch head ∷ write_cr ch (control_reg seq_control) ∷ write_taildesc ch tail ∷ [])

-- `xsgdma_cyclicTrans`
unfoldable pub sgdma_cyclic_trans : Channel → (head : ℕ) → Dma → Dma
sgdma_cyclic_trans ch head s = emits s (
    write_currdesc ch head ∷ write_cr ch (control_reg cyclic_control) ∷ write_taildesc ch 0x50 ∷ [])

-- `xdirectdma_trans`: no transfer unless the address is a multiple of XDMA_DATA_WIDTH.
unfoldable pub directdma_trans : Channel → (mem len : ℕ) → Dma → Option ℕ × Dma
directdma_trans ch mem len s =
    if mem % 2 ^ 5 == 0
    then (
      some mem,
      emits s (write_buffer ch mem ∷ set_rs ch true ∷ write_trans_len ch (len % 2 ^ 26) ∷ []),
    )
    else (none, s)

-- `xsgdma_ackirq`: what was read is written back.
unfoldable pub sgdma_ackirq : Channel → (sr : ℕ) → Dma → Status × Dma
sgdma_ackirq ch sr s = (status_of sr, emits s (write_sr ch sr ∷ []))
