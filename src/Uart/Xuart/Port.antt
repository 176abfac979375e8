-- ===== src/Uart/Xuart/Port.antt =====
-- src/arch/mb_le/sys/xuart.c: the start of the UART and its transmitter.
use rpv_platforms_evt_driven.Base.{ℕ, ◌+◌, ◌*◌, ◌%◌, ◌^◌, ◌≡◌, refl, Bool, true, List, [], ◌∷◌}
use rpv_platforms_evt_driven.Base.Bits.{to_bit}

-- `union xuartlite_ctrl_u`, without its reserved bits.
pub record UartCtrl : Type 0 where
  pub rst_txfifo : Bool
  pub rst_rxfifo : Bool
  pub enable_irq : Bool

unfoldable pub uart_ctrl_reg : UartCtrl → ℕ
uart_ctrl_reg c = to_bit c.rst_txfifo + to_bit c.rst_rxfifo * 2 + to_bit c.enable_irq * 2 ^ 4

-- What the code asks of the hardware. The wait is the loop on `txfifo_empty`.
pub data UartEffect : Type 0 where
  disable_irq enable_irq0 await_txfifo_empty : UartEffect
  write_ctrl write_tx_datafifo : ℕ → UartEffect

-- `_xuartlite_start`; newest effect first.
unfoldable pub xuartlite_start : List UartEffect → List UartEffect
xuartlite_start trace =
    write_ctrl (uart_ctrl_reg (record { rst_txfifo = true; rst_rxfifo = true; enable_irq = true }))
    ∷ enable_irq0
    ∷ disable_irq
    ∷ trace

-- `_xuartlite_write`; the FIFO takes the low byte of the word.
unfoldable pub xuartlite_write : (c : ℕ) → List UartEffect → List UartEffect
xuartlite_write c trace = write_tx_datafifo (c % 2 ^ 8) ∷ await_txfifo_empty ∷ trace

-- The start resets both queues and enables the interrupt.
ctrl_word : xuartlite_start [] ≡ write_ctrl 0x13 ∷ enable_irq0 ∷ disable_irq ∷ []
unfolding xuartlite_start uart_ctrl_reg
ctrl_word = refl
