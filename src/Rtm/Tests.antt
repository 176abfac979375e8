-- ===== src/Rtm/Tests.antt =====
-- A reaction time of 253 ms.
use rpv_platforms_evt_driven.Base.{◌≡◌, refl, arith, Bool, true, some, [], ◌∷◌, pos, negsuc}
use rpv_platforms_evt_driven.Rtm.{
  Rtm, bcd_loop, bcd_to_dec, on_rtmsure_irq, rtmsure_service, rtmsure_m, reaction_time,
}
use rpv_platforms_evt_driven.Rtm.Decimal.{Digits, no_digit, digit}
use rpv_platforms_evt_driven.Rtm.Times.{rtmsure_m-irq, rtmsure_service-lost}

abbrev quiet : Rtm
quiet = record { bcd_time = negsuc 0; rt_msuretime = negsuc 0; notes = [] }

time_253 : Digits (3 ∷ 5 ∷ 2 ∷ [])
time_253 = digit (omega arith) (digit (omega arith) (digit (omega arith) no_digit))

not_bcd : bcd_to_dec 0x1A ≡ some 20
unfolding bcd_to_dec bcd_loop
not_bcd = refl

rtmsure_m-irq_example :
    (t : Rtm) × (rtmsure_service true [] (on_rtmsure_irq 0x253 quiet) ≡ some t)
    × (rtmsure_m t ≡ (pos 0, reaction_time 253 0))
    × (t.bcd_time ≡ negsuc 0)
    × ((pending : Bool)
        → (u : Rtm) × (rtmsure_service pending [] t ≡ some u)
          × (rtmsure_m u ≡ (pos 0, reaction_time 253 0))
          × (u.bcd_time ≡ negsuc 0))
rtmsure_m-irq_example = rtmsure_m-irq (3 ∷ 5 ∷ 2 ∷ []) quiet time_253 (omega arith) (omega arith)

rtmsure_service-lost_example :
    (t : Rtm) × (rtmsure_service true (0x311 ∷ []) (record quiet { bcd_time = pos 0x253 }) ≡ some t)
    × (t.rt_msuretime ≡ pos 253)
    × (t.bcd_time ≡ negsuc 0)
rtmsure_service-lost_example =
    rtmsure_service-lost (3 ∷ 5 ∷ 2 ∷ []) (0x311 ∷ []) (record quiet { bcd_time = pos 0x253 })
      time_253 (omega arith) refl
