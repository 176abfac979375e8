-- ===== src/Uart/Avr/Port.antt =====
-- src/arch/mc_avr/sys/uart.c: the registers that the start sets, and the transmitter.
use Prim.Native.Nat.{bit_or}
use rpv_platforms_evt_driven.Base.{ℕ, ◌-◌, ◌*◌, ◌/◌, ◌%◌, ◌^◌, List, ◌∷◌}

-- The bit numbers of the C library of the target, and F_CPU.
pub record UartBits : Type 0 where
  pub u2x0 : ℕ
  pub ucsz00 : ℕ
  pub ucsz01 : ℕ
  pub txen0 : ℕ
  pub rxen0 : ℕ
  pub rxcie0 : ℕ
  pub f_cpu : ℕ

pub record UartRegs : Type 0 where
  pub ucsr0a : ℕ
  pub ucsr0b : ℕ
  pub ucsr0c : ℕ
  pub ubrr0h : ℕ
  pub ubrr0l : ℕ

-- UBRR_VALUE
abbrev pub ubrr_value : UartBits → ℕ
ubrr_value b = b.f_cpu / (115200 * 8) - 1

-- `_uart_start`, behind the reset of the ring.
unfoldable pub uart_start : UartBits → UartRegs → UartRegs
uart_start b r = record {
  ucsr0a = bit_or r.ucsr0a (2 ^ b.u2x0);
  ucsr0b = bit_or r.ucsr0b (bit_or (bit_or (2 ^ b.txen0) (2 ^ b.rxen0)) (2 ^ b.rxcie0));
  ucsr0c = bit_or r.ucsr0c (bit_or (2 ^ b.ucsz00) (2 ^ b.ucsz01));
  ubrr0h = ubrr_value b / 2 ^ 8 % 2 ^ 8;
  ubrr0l = ubrr_value b % 2 ^ 8;
}

-- The wait is the loop on the bit of the empty data register.
pub data SendEffect : Type 0 where
  await_udre0 : SendEffect
  write_udr0 : ℕ → SendEffect

-- `_uart_write`; newest effect first.
unfoldable pub uart_write : (b : ℕ) → List SendEffect → List SendEffect
uart_write b trace = write_udr0 (b % 2 ^ 8) ∷ await_udre0 ∷ trace
