-- ===== src/Uart/Ring.antt =====
-- The receive ring of src/arch/mb_le/sys/xuart.c (`rx0_ring`, `rx0_head`, `rx0_tail`), which
-- src/arch/mc_avr/sys/uart.c repeats word for word (`rx_ring`, `rx_head`, `rx_tail`).
pub mod Refine
use rpv_platforms_evt_driven.Base.{
  ℕ, zero, suc, ◌+◌, ◌-◌, ◌%◌, ◌==◌, if◌then◌else◌, get_or, set, replicate, List, [], ◌∷◌,
}
use rpv_platforms_evt_driven.Base.Index.{next_index}

-- XUART_RX_BUFFER and UART_RX_RING_SIZE
abbrev pub ring_size : ℕ
ring_size = 8

pub record Ring : Type 0 where
  pub buf : List ℕ
  pub head : ℕ
  pub tail : ℕ

-- The static storage before the first byte.
abbrev pub empty_ring : Ring
empty_ring = record { buf = replicate ring_size 0; head = 0; tail = 0 }

-- One received byte: at a full ring the oldest byte gives way.
unfoldable pub put_char : Ring → ℕ → Ring
put_char r c =
    let next_tail = next_index ring_size r.tail in
    let head = if next_tail == r.head then next_index ring_size r.head else r.head in
    record { buf = set r.buf r.tail c; head = head; tail = next_tail }

-- The read of one byte, `'\0'` if there is none.
unfoldable pub read_char : Ring → ℕ × Ring
read_char r =
    if r.head == r.tail
    then (0, r)
    else (get_or r.buf r.head 0, record r { head = next_index ring_size r.head })
