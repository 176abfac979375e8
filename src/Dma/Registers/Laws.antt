-- ===== src/Dma/Registers/Laws.antt =====
-- No two fields of the control register overlap.
use rpv_platforms_evt_driven.Base.{ℕ, ◌^◌, ◌<◌, ◌≡◌}
use rpv_platforms_evt_driven.Base.Bits.{field, bit_at_of, bits}
use rpv_platforms_evt_driven.Dma.Registers.{Control, control_reg, control_of}

-- Reading back the word of a control value gives its fields, if the two bytes are bytes.
pub control_of-control_reg :
    (c : Control) → c.irq_thrshld < 2 ^ 8 → c.irq_delay < 2 ^ 8 → control_of (control_reg c) ≡ c
unfolding control_of control_reg
control_of-control_reg c ht hd = λ i. record {
  rs = bit_at_of reg 0 c.rs (omega bits) i;
  reset = bit_at_of reg 2 c.reset (omega bits) i;
  keyhole = bit_at_of reg 3 c.keyhole (omega bits) i;
  cyclic_bd_enable = bit_at_of reg 4 c.cyclic_bd_enable (omega bits) i;
  ioc_irq_en = bit_at_of reg 12 c.ioc_irq_en (omega bits) i;
  dly_irq_en = bit_at_of reg 13 c.dly_irq_en (omega bits) i;
  err_irq_en = bit_at_of reg 14 c.err_irq_en (omega bits) i;
  irq_thrshld = thrshld i;
  irq_delay = delay i;
}
  where
    reg : ℕ
    reg = control_reg c

    thrshld : field reg 16 8 ≡ c.irq_thrshld
    thrshld = omega bits

    delay : field reg 24 8 ≡ c.irq_delay
    delay = omega bits
