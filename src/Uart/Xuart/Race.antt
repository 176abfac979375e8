-- ===== src/Uart/Xuart/Race.antt =====
-- What an interrupt does to a read that it falls into.
use rpv_platforms_evt_driven.Base.{
  ℕ, ◌+◌, ◌%◌, ◌^◌, ◌≤◌, ◌≡◌, ◌≢◌, refl, ap, ◌∙◌, arith, List, [], ◌∷◌, length,
}
use rpv_platforms_evt_driven.Base.Index.{next_index}
use rpv_platforms_evt_driven.Uart.Ring.{Ring, ring_size, put_char, read_char}
use rpv_platforms_evt_driven.Uart.Ring.Refine.{
  IsValid, contents, count, put_char-IsValid, read_char-IsValid, put_char-room,
}
use rpv_platforms_evt_driven.Uart.Xuart.{on_irq, interrupted_read}

-- What the interrupt stores, and where, does not depend on the head.
on_irq-set_head :
    (ws : List ℕ) (r s : Ring) (h : ℕ)
    → r.buf ≡ s.buf
    → r.tail ≡ s.tail
    → record (on_irq r ws) { head = h } ≡ record (on_irq s ws) { head = h }
unfolding on_irq put_char
on_irq-set_head [] r s h b t = λ i. record { buf = b i; head = h; tail = t i }
on_irq-set_head (w ∷ ws) r s h b t =
    on_irq-set_head ws (put_char r (w % 2 ^ 8)) (put_char s (w % 2 ^ 8)) h (cc) (cc)

pub on_irq-IsValid : (ws : List ℕ) {r : Ring} → IsValid r → IsValid (on_irq r ws)
unfolding on_irq
on_irq-IsValid [] v = v
on_irq-IsValid (w ∷ ws) v = on_irq-IsValid ws (put_char-IsValid (w % 2 ^ 8) v)

-- With room for all of them the words leave the head alone.
head-on_irq :
    (ws : List ℕ) {r : Ring} → IsValid r → count r + length ws ≤ 7 → (on_irq r ws).head ≡ r.head
unfolding on_irq
head-on_irq [] v room = refl
head-on_irq (w ∷ ws) {r} v room =
    let e = put_char-room (w % 2 ^ 8) v (omega arith) in
    head-on_irq ws (put_char-IsValid (w % 2 ^ 8) v) (omega (arith, ap (λ (s : Ring). count s) e))
    ∙ ap (λ (s : Ring). s.head) e

tail-on_irq :
    (ws : List ℕ) {r : Ring} → IsValid r → (on_irq r ws).tail ≡ (r.tail + length ws) % ring_size
unfolding on_irq put_char next_index
tail-on_irq [] v = omega arith
tail-on_irq (w ∷ ws) {r} v = ground (arith, tail-on_irq ws (put_char-IsValid (w % 2 ^ 8) v))

-- If bytes wait in a valid ring, and with those that arrive they are eight at most, a read that an
-- interrupt falls into does what the whole read and then the whole interrupt do.
pub interrupted_read-on_irq :
    {r : Ring} (ws : List ℕ)
    → IsValid r
    → count r ≢ 0
    → count r + length ws ≤ 8
    → let (c, r') = read_char r in interrupted_read r ws ≡ (c, on_irq r' ws)
unfolding interrupted_read read_char next_index
interrupted_read-on_irq {r} ws v some few = ground (
  arith,
  on_irq-set_head ws r (read_char r).1 (next_index ring_size r.head),
  head-on_irq ws (read_char-IsValid v),
)

-- If bytes wait in a valid ring, and with those that arrive during a read they are nine, the read's
-- store of the stale head leaves the ring empty.
pub contents-interrupted_read :
    {r : Ring} (ws : List ℕ)
    → IsValid r
    → count r ≢ 0
    → count r + length ws ≡ 9
    → contents (interrupted_read r ws).1 ≡ []
unfolding interrupted_read next_index
contents-interrupted_read {r} ws v some nine = ground (arith, tail-on_irq ws v)
