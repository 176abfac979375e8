-- ===== src/Timer/Tests.antt =====
-- The clock after few ticks and after overflows.
use rpv_platforms_evt_driven.Base.{◌+◌, ◌≤◌, ◌≡◌, refl, true, arith, some, [], ◌∷◌}
use rpv_platforms_evt_driven.Timer.{
  max_ms, no_tcsr, Timer, write_csr, timer_irq, count_tick, xtimer_start, run_ticks, millis,
  xtimer_millis,
}
use rpv_platforms_evt_driven.Timer.Clock.{millis_lem}

-- The first round meets an overflow.
clock_after_overflow : xtimer_millis ((0, 3, 1) ∷ (1, 200000, 1) ∷ []) ≡ some 42951
unfolding xtimer_millis millis max_ms
clock_after_overflow = refl

-- A timer that was left running with an interrupt pending.
abbrev stray : Timer
stray = record {
  ovrflows = 7;
  csr = record no_tcsr { ent = true; udt = true; tint = true };
  lr = 9;
  cntr = 77;
}

-- The last tick before the overflow, and the overflow with its interrupt.
run_over :
    run_ticks 2 (record (xtimer_start stray) { cntr = 0xffff_fffe })
    ≡ record (xtimer_start stray) { ovrflows = 1 }
unfolding run_ticks count_tick timer_irq write_csr xtimer_start
run_over = refl

millis_lem_example :
    let t = run_ticks 3 (xtimer_start stray) in
    (millis t.ovrflows t.cntr + 0 ≤ 0) × (0 ≤ millis t.ovrflows t.cntr + 0 + 1)
millis_lem_example = millis_lem stray 3 (omega arith)
