-- ===== src/Timer.antt =====
-- src/arch/mb_le/sys/xtimer.c: the millisecond clock; Wait is
-- src/arch/mb_le/services/timer_service.c.
pub mod Clock
pub mod Wait
mod Tests
use rpv_platforms_evt_driven.Base.{
  ℕ, zero, suc, ◌+◌, ◌*◌, ◌/◌, ◌%◌, ◌^◌, ◌==◌, ltb, if◌then◌else◌, Bool, true, false, not, ◌&&◌,
  ◌||◌, List, [], ◌∷◌, Option, none, some,
}

-- XTIMER_MS_FREQ, the ticks of a millisecond
abbrev pub ms_freq : ℕ
ms_freq = 100000

-- XTIMER_MAX_MS, the whole milliseconds of an overflow
unfoldable pub max_ms : ℕ
max_ms = 2 ^ 32 / ms_freq

-- `xtimer_tcsr_t`
pub record Tcsr : Type 0 where
  pub mdt : Bool
  pub udt : Bool
  pub gent : Bool
  pub capt : Bool
  pub arht : Bool
  pub load : Bool
  pub enit : Bool
  pub ent : Bool
  pub tint : Bool
  pub pwma : Bool
  pub enall : Bool
  pub casc : Bool

abbrev pub no_tcsr : Tcsr
no_tcsr = record {
  mdt = false;
  udt = false;
  gent = false;
  capt = false;
  arht = false;
  load = false;
  enit = false;
  ent = false;
  tint = false;
  pwma = false;
  enall = false;
  casc = false;
}

-- `tmr_ovrflows` and the registers of channel 0: status, load value and counter.
pub record Timer : Type 0 where
  pub ovrflows : ℕ
  pub csr : Tcsr
  pub lr : ℕ
  pub cntr : ℕ

-- What the timer does on a write of its status: a 1 written to TINT clears it, and LOAD copies the
-- load value to the counter.
unfoldable pub write_csr : Tcsr → Timer → Timer
write_csr c t = record t {
  csr = record c { tint = t.csr.tint && not c.tint };
  cntr = if c.load then t.lr else t.cntr;
}

-- `_xtimer_start`
unfoldable pub xtimer_start : Timer → Timer
xtimer_start t =
    let stopped = write_csr (record t.csr { ent = false }) (record t { ovrflows = 0 }) in
    let emptied : Timer = record stopped { lr = 0 } in
    let loaded = write_csr (record emptied.csr { load = true }) emptied in
    write_csr (record no_tcsr { ent = true; arht = true; enit = true }) loaded

-- `timer_irq`
unfoldable pub timer_irq : Timer → Timer
timer_irq t =
    let counted : Timer = record t { ovrflows = (t.ovrflows + 1) % 2 ^ 32 } in
    write_csr (record counted.csr { tint = true }) counted

-- A tick of the counter, which counts up while it is enabled and not held by LOAD. At its end it is
-- loaded again with ARHT and stays without, and sets TINT.
unfoldable pub count_tick : Timer → Timer
count_tick t =
    if not t.csr.ent || t.csr.load
    then t
    else if t.cntr + 1 == 2 ^ 32
    then record t { cntr = if t.csr.arht then t.lr else t.cntr; csr = record t.csr { tint = true } }
    else record t { cntr = t.cntr + 1 }

-- `n` ticks, with the interrupt at once where TINT is set and it is enabled.
unfoldable pub run_ticks : (n : ℕ) → Timer → Timer
run_ticks zero t = t
run_ticks (suc n) t =
    let next = count_tick t in
    run_ticks n (if next.csr.tint && next.csr.enit then timer_irq next else next)

-- What the loop of `_xtimer_millis` returns: `ovr` and `ticks` are read in one round in which no
-- overflow is counted. The sum is computed in 64 bits and cut to 32.
unfoldable pub millis : (ovr ticks : ℕ) → ℕ
millis ovr ticks = (max_ms * ovr + ticks / ms_freq) % 2 ^ 32

-- The loop over the values that its rounds read: the count before, the counter, the count after.
unfoldable pub xtimer_millis : List (ℕ × ℕ × ℕ) → Option ℕ
xtimer_millis [] = none
xtimer_millis ((before, ticks, after) ∷ rounds) =
    let rest = xtimer_millis rounds in if before == after then some (millis before ticks) else rest
