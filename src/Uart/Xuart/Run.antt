-- ===== src/Uart/Xuart/Run.antt =====
-- Any interleaving of whole interrupts and whole reads.
use rpv_platforms_evt_driven.Base.{ℕ, ◌%◌, ◌^◌, ◌≡◌, refl, ap, ap₂, ◌∙◌, List, [], ◌∷◌}
use rpv_platforms_evt_driven.Uart.Ring.{Ring, read_char}
use rpv_platforms_evt_driven.Uart.Ring.Refine.{
  IsValid, contents, push, pop, put_char-push, put_char-IsValid, read_char-contents,
  read_char-IsValid,
}
use rpv_platforms_evt_driven.Uart.Xuart.{on_irq}
use rpv_platforms_evt_driven.Uart.Xuart.Race.{on_irq-IsValid}

pub data Event : Type 0 where
  irq : List ℕ → Event
  read : Event

-- What the reads return, in order.
unfoldable pub run : Ring → List Event → List ℕ
run r [] = []
run r (irq ws ∷ es) = run (on_irq r ws) es
run r (read ∷ es) = let (c, r') = read_char r in c ∷ run r' es

-- The same on the queue: of the words of the FIFO it takes the low bytes.
unfoldable pub push_all : List ℕ → List ℕ → List ℕ
push_all q [] = q
push_all q (w ∷ ws) = push_all (push q (w % 2 ^ 8)) ws

unfoldable pub run_queue : List ℕ → List Event → List ℕ
run_queue q [] = []
run_queue q (irq ws ∷ es) = run_queue (push_all q ws) es
run_queue q (read ∷ es) = let (c, q') = pop q in c ∷ run_queue q' es

on_irq-push_all :
    (ws : List ℕ) {r : Ring} → IsValid r → contents (on_irq r ws) ≡ push_all (contents r) ws
unfolding on_irq push_all
on_irq-push_all [] v = refl
on_irq-push_all (w ∷ ws) v =
    on_irq-push_all ws (put_char-IsValid (w % 2 ^ 8) v)
    ∙ ap (λ q. push_all q ws) (put_char-push (w % 2 ^ 8) v)

-- No sequence of interrupts and reads tells a valid ring from the queue of its bytes, which holds
-- seven and drops its oldest byte when full.
pub run_refines : (es : List Event) {r : Ring} → IsValid r → run r es ≡ run_queue (contents r) es
unfolding run run_queue
run_refines [] v = refl
run_refines (irq ws ∷ es) v =
    run_refines es (on_irq-IsValid ws v) ∙ ap (λ q. run_queue q es) (on_irq-push_all ws v)
run_refines (read ∷ es) {r} v =
    let (c, rest) = read_char-contents (contents r) v refl in
    ap₂ ◌∷◌ c (run_refines es (read_char-IsValid v) ∙ ap (λ q. run_queue q es) rest)
