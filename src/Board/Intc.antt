-- ===== src/Board/Intc.antt =====
-- src/arch/mb_le/sys/xintc.c: the interrupt controller.
pub mod Lines
use rpv_platforms_evt_driven.Base.{ℕ, ◌+◌, ◌*◌, ◌==◌, if◌then◌else◌, Bool, true, false, List, ◌∷◌}
use rpv_platforms_evt_driven.Base.Bits.{to_bit}

-- The registers after the waits of the code: the bits of `ier` and `imr`, the vectors, what was
-- written to `iar`, newest first, and `mer`. A bit that is set in `sie` sets that of `ier`, and one
-- that is set in `cie` clears it.
pub record Intc : Type 0 where
  pub ier : ℕ → Bool
  pub imr : ℕ → Bool
  pub ivar : ℕ → ℕ
  pub acked : List ℕ
  pub mer : ℕ

-- `xintc_mer_t`
unfoldable pub mer_reg : (me hie : Bool) → ℕ
mer_reg me hie = to_bit me + to_bit hie * 2

-- `_xintc_start`, with what it reads from `isr`.
unfoldable pub xintc_start : (isr : ℕ) → Intc → Intc
xintc_start isr s = record s {
  acked = if isr == 0 then s.acked else isr ∷ s.acked;
  mer = mer_reg true true;
}

-- `_xintc_disableIRQ`
unfoldable pub disable_line : (irq : ℕ) → Intc → Intc
disable_line irq s = record s { ier = λ k. if k == irq then false else s.ier k }

-- `_xintc_enableIRQ`, with the address of the handler.
unfoldable pub enable_line : (irq isr_addr : ℕ) → Intc → Intc
enable_line irq isr_addr s = if isr_addr == 0 then s else record s {
  imr = λ k. if k == irq then true else s.imr k;
  ivar = λ k. if k == irq then isr_addr else s.ivar k;
  ier = λ k. if k == irq then true else s.ier k;
}
