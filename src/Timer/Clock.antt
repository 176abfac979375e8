-- ===== src/Timer/Clock.antt =====
-- src/arch/mb_le/sys/xtimer.c: what the millisecond clock says of the time that has passed.
use rpv_platforms_evt_driven.Base.{
  ℕ, zero, suc, ◌+◌, ◌*◌, ◌/◌, ◌%◌, ◌^◌, ◌≤◌, ◌<◌, ◌≡◌, refl, ap, ◌∙◌, arith, Bool, true, false,
  not, ◌&&◌,
}
use rpv_platforms_evt_driven.Timer.{
  ms_freq, max_ms, no_tcsr, Timer, write_csr, xtimer_start, timer_irq, count_tick, run_ticks,
  millis,
}

-- The timer as it runs after its start.
abbrev pub running : (ovrflows cntr : ℕ) → Timer
running ovrflows cntr = record {
  ovrflows = ovrflows;
  csr = record no_tcsr { ent = true; arht = true; enit = true };
  lr = 0;
  cntr = cntr;
}

acked : (b : Bool) → (((b && not b) && not (b && not b)) && not false) ≡ false
acked true = refl
acked false = refl

-- Whatever the timer was, its start lets it run from 0, with no overflow counted and no interrupt
-- pending.
pub xtimer_start-running : (t : Timer) → xtimer_start t ≡ running 0 0
unfolding xtimer_start write_csr
xtimer_start-running t =
    ap (λ (b : Bool). record (running 0 0) { csr = record (running 0 0).csr { tint = b } })
      (acked t.csr.tint)

one_tick :
    (o c : ℕ)
    → c < 2 ^ 32
    → o < 2 ^ 32
    → run_ticks 1 (running o c) ≡ running ((o + (c + 1) / 2 ^ 32) % 2 ^ 32) ((c + 1) % 2 ^ 32)
unfolding run_ticks count_tick timer_irq write_csr
one_tick o c b b' = ground arith

-- The counter and the count of overflows are the number of ticks, in two words of 32 bits.
run_ticks-running :
    (n o c : ℕ)
    → c < 2 ^ 32
    → o < 2 ^ 32
    → run_ticks n (running o c) ≡ running ((o + (c + n) / 2 ^ 32) % 2 ^ 32) ((c + n) % 2 ^ 32)
unfolding run_ticks
run_ticks-running zero o c b b' =
    let same : o ≡ (o + (c + 0) / 2 ^ 32) % 2 ^ 32 = omega arith in
    let same' : c ≡ (c + 0) % 2 ^ 32 = omega arith in λ i. running (same i) (same' i)
run_ticks-running (suc n) o c b b' =
    let (o', c') : ℕ × ℕ = ((o + (c + 1) / 2 ^ 32) % 2 ^ 32, (c + 1) % 2 ^ 32) in
    let rest = run_ticks-running n o' c' (omega arith) (omega arith) in
    let same : (o' + (c' + n) / 2 ^ 32) % 2 ^ 32 ≡ (o + (c + suc n) / 2 ^ 32) % 2 ^ 32 =
      omega arith in
    let same' : (c' + n) % 2 ^ 32 ≡ (c + suc n) % 2 ^ 32 = omega arith in
    ap (run_ticks n) (one_tick o c b b') ∙ rest ∙ (λ i. running (same i) (same' i))

-- In the first 2 ^ 32 milliseconds after the start, after any number of ticks and whatever the timer
-- was before, the clock lags behind the time: by 67296 / 100000 of a millisecond for each overflow of
-- the counter, to one millisecond.
pub millis_lem :
    (before : Timer) (n : ℕ)
    → n < 2 ^ 32 * ms_freq
    → let t = run_ticks n (xtimer_start before) in
      let lag = n / 2 ^ 32 * 67296 / ms_freq in
      (millis t.ovrflows t.cntr + lag ≤ n / ms_freq)
      × (n / ms_freq ≤ millis t.ovrflows t.cntr + lag + 1)
unfolding millis max_ms
millis_lem before n early =
    let runs =
      ap (run_ticks n) (xtimer_start-running before)
      ∙ run_ticks-running n 0 0 (omega arith) (omega arith) in
    let o = ap (λ (t : Timer). t.ovrflows) runs in
    let c = ap (λ (t : Timer). t.cntr) runs in
    (omega (arith, early, o, c), omega (arith, early, o, c))
