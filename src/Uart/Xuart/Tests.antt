-- ===== src/Uart/Xuart/Tests.antt =====
-- Runs of the ring, and the theorems at concrete rings.
use rpv_platforms_evt_driven.Base.{◌≡◌, refl, arith, [], ◌∷◌, some}
use rpv_platforms_evt_driven.Base.Index.{next_index}
use rpv_platforms_evt_driven.Uart.Ring.{Ring, put_char, read_char}
use rpv_platforms_evt_driven.Uart.Ring.Refine.{IsValid, contents}
use rpv_platforms_evt_driven.Uart.Xuart.{on_irq, interrupted_read, service}
use rpv_platforms_evt_driven.Uart.Xuart.Race.{contents-interrupted_read}
use rpv_platforms_evt_driven.Uart.Xuart.Run.{irq, read, run, run_queue, run_refines}
use rpv_platforms_evt_driven.Uart.Xuart.Service.{Served, service-Served}

-- Seven bytes, 1 to 7, round the end of the storage.
abbrev full : Ring
full = record { buf = 6 ∷ 7 ∷ 0 ∷ 1 ∷ 2 ∷ 3 ∷ 4 ∷ 5 ∷ []; head = 3; tail = 2 }

abbrev half : Ring
half = record { buf = 6 ∷ 0 ∷ 9 ∷ 9 ∷ 9 ∷ 3 ∷ 4 ∷ 5 ∷ []; head = 5; tail = 2 }

full-IsValid : IsValid full
full-IsValid = omega arith

half-IsValid : IsValid half
half-IsValid = omega arith

contents-full : contents full ≡ 1 ∷ 2 ∷ 3 ∷ 4 ∷ 5 ∷ 6 ∷ 7 ∷ []
contents-full = refl

irq_drops_oldest : contents (on_irq full (0x108 ∷ [])) ≡ 2 ∷ 3 ∷ 4 ∷ 5 ∷ 6 ∷ 7 ∷ 8 ∷ []
unfolding on_irq put_char next_index
irq_drops_oldest = refl

service-half : service half ≡ some (3 ∷ 4 ∷ 5 ∷ 6 ∷ [], record half { head = 2 })
unfolding service read_char next_index
service-half = refl

run_refines_example :
    run full (irq (8 ∷ 9 ∷ []) ∷ read ∷ read ∷ [])
    ≡ run_queue (contents full) (irq (8 ∷ 9 ∷ []) ∷ read ∷ read ∷ [])
run_refines_example = run_refines (irq (8 ∷ 9 ∷ []) ∷ read ∷ read ∷ []) full-IsValid

service-Served_example : Served (contents half) (service half)
service-Served_example = service-Served half-IsValid

contents-interrupted_read_example : contents (interrupted_read full (8 ∷ 9 ∷ [])).1 ≡ []
contents-interrupted_read_example =
    contents-interrupted_read (8 ∷ 9 ∷ []) full-IsValid (omega arith) (omega arith)
