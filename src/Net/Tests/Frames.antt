-- ===== src/Net/Tests/Frames.antt =====
-- Frames that lwIP gets after the start of the rings.
use rpv_platforms_evt_driven.Base.{ℕ, ◌+◌, ◌%◌, ◌^◌, ◌≡◌, refl, arith, List, [], ◌∷◌}
use rpv_platforms_evt_driven.Dma.Registers.{status_of}
use rpv_platforms_evt_driven.Dma.Fixture.{sr_ioc}
use rpv_platforms_evt_driven.Dma.Rx.Queue.{waiting}
use rpv_platforms_evt_driven.Net.Service.{new_input, eth_input}
use rpv_platforms_evt_driven.Net.Service.Drain.{Delivered}
use rpv_platforms_evt_driven.Net.Service.Frames.{AllFit, none_more_fit, fit, receive_all}
use rpv_platforms_evt_driven.Net.Service.Receive.{eth_input-receive_all}
use rpv_platforms_evt_driven.Net.Tests.{counter, counter_keeps, rings, rings-IsFresh}

-- Eleven frames: the first two are lost.
abbrev eleven : List (List ℕ)
eleven =
    (1 ∷ [])
    ∷ (2 ∷ [])
    ∷ (3 ∷ 3 ∷ [])
    ∷ (4 ∷ [])
    ∷ (5 ∷ [])
    ∷ (6 ∷ [])
    ∷ (7 ∷ [])
    ∷ (8 ∷ [])
    ∷ (9 ∷ [])
    ∷ (10 ∷ [])
    ∷ (11 ∷ 11 ∷ 11 ∷ [])
    ∷ []

-- Each of the frames has at most three bytes.
eleven-AllFit : AllFit eleven
eleven-AllFit = fit (omega arith) (
    fit (omega arith) (
      fit (omega arith) (
        fit (omega arith) (
          fit (omega arith) (
            fit (omega arith) (
              fit (omega arith) (
                fit (omega arith)
                  (fit (omega arith) (fit (omega arith) (fit (omega arith) none_more_fit))))))))))

eth_input-receive_all_example :
    let e = receive_all sr_ioc eleven rings in
    Delivered counter
      ((3 ∷ 3 ∷ [])
        ∷ (4 ∷ [])
        ∷ (5 ∷ [])
        ∷ (6 ∷ [])
        ∷ (7 ∷ [])
        ∷ (8 ∷ [])
        ∷ (9 ∷ [])
        ∷ (10 ∷ [])
        ∷ (11 ∷ 11 ∷ 11 ∷ [])
        ∷ [])
      (new_input counter 0 e)
      (eth_input counter 0 e)
    × (waiting (eth_input counter 0 e).dma ≡ 0)
    × (e.rxcount % 2 ^ 32 ≡ (rings.rxcount + 11) % 2 ^ 32)
    × (e.lostcount % 2 ^ 32 ≡ (rings.lostcount + 2) % 2 ^ 32)
unfolding status_of
eth_input-receive_all_example =
    eth_input-receive_all counter counter_keeps sr_ioc eleven 0 rings refl eleven-AllFit refl refl
      refl rings-IsFresh
