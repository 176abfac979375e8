-- ===== src/Dma/Registers.antt =====
-- The control and status registers of a DMA channel (`xdmacr_t`, `xdmasr_t`).
mod Laws
use rpv_platforms_evt_driven.Base.{ℕ, ◌+◌, ◌*◌, ◌^◌, Bool}
use rpv_platforms_evt_driven.Base.Bits.{to_bit, bit_at, field}

-- `xdmacr_t`, without its reserved bits.
pub record Control : Type 0 where
  pub rs : Bool
  pub reset : Bool
  pub keyhole : Bool
  pub cyclic_bd_enable : Bool
  pub ioc_irq_en : Bool
  pub dly_irq_en : Bool
  pub err_irq_en : Bool
  pub irq_thrshld : ℕ
  pub irq_delay : ℕ

-- The word of a control value, its reserved bits 0.
unfoldable pub control_reg : Control → ℕ
control_reg c =
    to_bit c.rs
    + to_bit c.reset * 2 ^ 2
    + to_bit c.keyhole * 2 ^ 3
    + to_bit c.cyclic_bd_enable * 2 ^ 4
    + to_bit c.ioc_irq_en * 2 ^ 12
    + to_bit c.dly_irq_en * 2 ^ 13
    + to_bit c.err_irq_en * 2 ^ 14
    + c.irq_thrshld * 2 ^ 16
    + c.irq_delay * 2 ^ 24

unfoldable pub control_of : ℕ → Control
control_of reg = record {
  rs = bit_at reg 0;
  reset = bit_at reg 2;
  keyhole = bit_at reg 3;
  cyclic_bd_enable = bit_at reg 4;
  ioc_irq_en = bit_at reg 12;
  dly_irq_en = bit_at reg 13;
  err_irq_en = bit_at reg 14;
  irq_thrshld = field reg 16 8;
  irq_delay = field reg 24 8;
}

-- `xdmasr_t`, without its reserved bits.
pub record Status : Type 0 where
  pub halted : Bool
  pub idle : Bool
  pub sg_incld : Bool
  pub dma_int_err : Bool
  pub dma_slv_err : Bool
  pub dma_dec_err : Bool
  pub sg_int_err : Bool
  pub sg_slv_err : Bool
  pub sg_dec_err : Bool
  pub ioc_irq : Bool
  pub dly_irq : Bool
  pub err_irq : Bool
  pub irq_thrshld_sts : ℕ
  pub irq_delay_sts : ℕ

-- The fields of the word that a read of the status register gives.
unfoldable pub status_of : ℕ → Status
status_of reg = record {
  halted = bit_at reg 0;
  idle = bit_at reg 1;
  sg_incld = bit_at reg 3;
  dma_int_err = bit_at reg 4;
  dma_slv_err = bit_at reg 5;
  dma_dec_err = bit_at reg 6;
  sg_int_err = bit_at reg 8;
  sg_slv_err = bit_at reg 9;
  sg_dec_err = bit_at reg 10;
  ioc_irq = bit_at reg 12;
  dly_irq = bit_at reg 13;
  err_irq = bit_at reg 14;
  irq_thrshld_sts = field reg 16 8;
  irq_delay_sts = field reg 24 8;
}
