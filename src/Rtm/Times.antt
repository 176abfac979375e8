-- ===== src/Rtm/Times.antt =====
-- A measured time on its way to the shell.
use rpv_platforms_evt_driven.Base.{
  ℕ, ◌^◌, ◌≤◌, ◌<◌, ◌≡◌, refl, ap, ◌∙◌, lt→ltb, Bool, true, false, some, List, [], length, pos,
  negsuc,
}
use rpv_platforms_evt_driven.Rtm.{
  int_of, Rtm, on_rtmsure_irq, rtm_irqs, loaded, rtmsure_time, rtmsure_service, rtmsure_m,
  reaction_time,
}
use rpv_platforms_evt_driven.Rtm.Decimal.{Digits, decimal, bcd, bcd_to_dec-bcd}

rtmsure_service_idle :
    (pending : Bool) (s : Rtm)
    → s.bcd_time ≡ negsuc 0
    → (u : Rtm) × (rtmsure_service pending [] s ≡ some u)
      × (rtmsure_m u ≡ rtmsure_m s)
      × (u.bcd_time ≡ negsuc 0)
unfolding rtmsure_service rtmsure_time rtm_irqs rtmsure_m
rtmsure_service_idle true s taken = rw taken (_, refl, refl, refl)
rtmsure_service_idle false s taken = (_, refl, refl, taken)

-- A time of at most eight decimal digits, with a code below 2 ^ 31, that the interrupt stored is what the
-- command prints after the next call of the service with the signal pending. The time is taken from the
-- driver then; the command prints it still after a further call of the service, with or without a
-- signal, if no time was measured in between.
pub rtmsure_m-irq :
    (ds : List ℕ) (s : Rtm)
    → Digits ds
    → length ds ≤ 8
    → bcd ds < 2 ^ 31
    → (t : Rtm) × (rtmsure_service true [] (on_rtmsure_irq (bcd ds) s) ≡ some t)
      × (rtmsure_m t ≡ (pos 0, reaction_time (decimal ds) 0))
      × (t.bcd_time ≡ negsuc 0)
      × ((pending : Bool)
          → (u : Rtm) × (rtmsure_service pending [] t ≡ some u)
            × (rtmsure_m u ≡ (pos 0, reaction_time (decimal ds) 0))
            × (u.bcd_time ≡ negsuc 0))
unfolding rtmsure_service rtmsure_time on_rtmsure_irq rtm_irqs rtmsure_m
rtmsure_m-irq ds s v few small =
    let positive : int_of (bcd ds) ≡ pos (bcd ds) = rw (lt→ltb (bcd ds) (2 ^ 31) small) refl in
    let time : loaded (int_of (bcd ds)) ≡ some (pos (decimal ds)) =
      ap loaded positive ∙ rw (bcd_to_dec-bcd ds v few, loaded) refl in
    rw time (_, refl, refl, refl, λ pending. rtmsure_service_idle pending _ refl)

-- Times that the interrupt stores while `_rtmsure_time` runs are lost: the service publishes the
-- time of before, and no time is left for its next call.
pub rtmsure_service-lost :
    (ds : List ℕ) (irqs : List ℕ) (s : Rtm)
    → Digits ds
    → length ds ≤ 8
    → s.bcd_time ≡ pos (bcd ds)
    → (t : Rtm) × (rtmsure_service true irqs s ≡ some t)
      × (t.rt_msuretime ≡ pos (decimal ds))
      × (t.bcd_time ≡ negsuc 0)
unfolding rtmsure_service rtmsure_time
rtmsure_service-lost ds irqs s v few stored =
    let time : loaded s.bcd_time ≡ some (pos (decimal ds)) =
      ap loaded stored ∙ rw (bcd_to_dec-bcd ds v few, loaded) refl in
    rw time (_, refl, refl, refl)
