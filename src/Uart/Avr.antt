-- ===== src/Uart/Avr.antt =====
-- src/arch/mc_avr/sys/uart.c, the driver of the ATmega328p's UART, and the service of
-- src/arch/mc_avr/services/uart_service.c that empties its ring.
pub mod Port
pub mod Service
mod Tests
use rpv_platforms_evt_driven.Base.{
  ℕ, zero, suc, ◌/◌, ◌%◌, ◌^◌, ◌==◌, ltb, leb, if◌then◌else◌, Bool, ◌&&◌, ◌||◌, List, [], ◌∷◌,
  Option, none, some,
}
use rpv_platforms_evt_driven.Uart.Ring.{Ring, ring_size, put_char, read_char}

-- The error bits of UCSR0A: their numbers come from the C library of the target.
pub record ErrorBits : Type 0 where
  pub fe0 : ℕ
  pub dor0 : ℕ

-- Bit `n` of a register. `status & (a | b)` for two single bits is not 0 when one of them is set.
abbrev pub bit_set : ℕ → ℕ → Bool
bit_set reg n = reg / 2 ^ n % 2 == 1

-- The ring part of `_uart_start`.
pub start : Ring → Ring
start r = record r { head = 0; tail = 0 }

-- `uart_onRxCompleteISR`, with the values read from UCSR0A and UDR0.
pub on_rx_complete : ErrorBits → Ring → (status c : ℕ) → Ring
on_rx_complete e r status c =
    if bit_set status e.fe0 || bit_set status e.dor0 then r else put_char r c

-- The characters that the shell takes.
pub is_char_valid : ℕ → Bool
is_char_valid c =
    (leb b'0' c && leb c b'9')
    || (leb b'a' c && leb c b'z')
    || (leb b'A' c && leb c b'Z')
    || ((c == b':') || (c == b',') || (c == b'.'))
    || ((c == b' ') || (c == 0x0a) || (c == 0x09) || (c == 0x08) || (c == 0x7f))

-- `uart_service`: the published key codes in order, and the ring. `_uart_read` runs with the
-- interrupts off, so it is the whole read of the ring. `none` if the fuel runs out.
pub service_loop : ℕ → Ring → Option (List ℕ × Ring)
unfolding is_char_valid
service_loop zero r = none
service_loop (suc f) r =
    let (c, r') = read_char r in
    if c == 0 then some ([], r') else elim (service_loop f r') [
      | none ↦ none
      | some (keys, r'') ↦ some (if is_char_valid c then c ∷ keys else keys, r'')
    ]

pub service : Ring → Option (List ℕ × Ring)
unfolding service_loop
service r = service_loop ring_size r
