-- ===== src/Board/Intc/Lines.antt =====
-- What a line is set to.
use rpv_platforms_evt_driven.Base.{ℕ, ◌≡◌, true}
use rpv_platforms_evt_driven.Board.Intc.{Intc}

-- A line is enabled in fast mode, with this handler.
pub record IsServed (s : Intc) (irq isr_addr : ℕ) : Type 0 where
  pub enabled : s.ier irq ≡ true
  pub fast : s.imr irq ≡ true
  pub vector : s.ivar irq ≡ isr_addr

-- A line is as it was.
pub record SameLine (irq : ℕ) (s t : Intc) : Type 0 where
  pub same_ier : t.ier irq ≡ s.ier irq
  pub same_imr : t.imr irq ≡ s.imr irq
  pub same_ivar : t.ivar irq ≡ s.ivar irq
