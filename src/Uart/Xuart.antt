-- ===== src/Uart/Xuart.antt =====
-- src/arch/mb_le/sys/xuart.c, the driver of the MicroBlaze's UART, and the service of
-- src/arch/mb_le/services/uart_service.c that empties its ring.
pub mod Race
pub mod Port
pub mod Run
pub mod Service
mod Tests
use rpv_platforms_evt_driven.Base.{
  ℕ, zero, suc, ◌+◌, ◌%◌, ◌^◌, ◌==◌, if◌then◌else◌, get_or, List, [], ◌∷◌, Option, none, some,
}
use rpv_platforms_evt_driven.Base.Index.{next_index}
use rpv_platforms_evt_driven.Uart.Ring.{Ring, ring_size, put_char, read_char}

-- `onxUart0_irq`. The list holds the words that the receive FIFO delivers until its status bit
-- `rxfifo_valid` reads 0.
unfoldable pub on_irq : Ring → List ℕ → Ring
on_irq r [] = r
on_irq r (w ∷ ws) = on_irq (put_char r (w % 2 ^ 8)) ws

-- `_xuartlite_read` with an interrupt between its load of `rx0_head` and its store to it: `ws`
-- are the words that arrive there. With none it is the read of the ring.
unfoldable pub interrupted_read : Ring → List ℕ → ℕ × Ring
interrupted_read r ws =
    if r.head == r.tail
    then (0, r)
    else (get_or r.buf r.head 0, record (on_irq r ws) { head = next_index ring_size r.head })

-- `uart_service`: the published key codes in order, and the ring. `none` if the fuel runs out.
unfoldable pub service_loop : ℕ → Ring → Option (List ℕ × Ring)
service_loop zero r = none
service_loop (suc f) r =
    let (c, r') = read_char r in
    if c == 0
    then some ([], r')
    else elim (service_loop f r') [ none ↦ none | some (keys, r'') ↦ some (c ∷ keys, r'') ]

-- One round more than the ring can hold bytes.
unfoldable pub service : Ring → Option (List ℕ × Ring)
unfolding service_loop
service r = service_loop ring_size r
