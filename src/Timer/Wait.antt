-- ===== src/Timer/Wait.antt =====
-- src/arch/mb_le/services/timer_service.c: the command that waits for five seconds.
use rpv_platforms_evt_driven.Base.{
  ℕ, ◌+◌, ◌%◌, ◌^◌, ◌≤◌, ◌<◌, ◌≡◌, refl, arith, ltb, if◌then◌else◌, List, [], ◌∷◌, ◌++◌, Option,
  none, some, ℤ, pos,
}

-- WAIT_TIME_MILLIS
abbrev pub wait_time_millis : ℕ
wait_time_millis = 5000

pub data TimeOut : Type 0 where
  time_since_startup wait_milliseconds : ℕ → TimeOut

-- The loop of `systime_m`, over what its reads of the clock return: the read that ends it, or `none`
-- if it wants one more.
unfoldable pub wait_loop : (end_time : ℕ) → List ℕ → Option ℕ
wait_loop end_time [] = none
wait_loop end_time (now ∷ later) =
    let rest = wait_loop end_time later in if ltb now end_time then rest else some now

-- `systime_m`, with the two reads before the loop: its answer, what it prints, and the last read.
unfoldable pub systime_m : (first second : ℕ) → List ℕ → Option (ℤ × List TimeOut × ℕ)
systime_m first second later = elim (wait_loop ((second + wait_time_millis) % 2 ^ 32) later) [
  | none ↦ none
  | some now ↦ some (pos 0, time_since_startup first ∷ wait_milliseconds wait_time_millis ∷ [], now)
]

-- Every read is below the end.
pub data AllBefore (end_time : ℕ) : List ℕ → Type 0 where
  none_before : AllBefore end_time []
  before :
      {now : ℕ} {later : List ℕ}
      → now < end_time
      → AllBefore end_time later
      → AllBefore end_time (now ∷ later)

wait_loop-ends :
    (end_time : ℕ) (early : List ℕ) (now : ℕ) (later : List ℕ)
    → AllBefore end_time early
    → end_time ≤ now
    → wait_loop end_time (early ++ (now ∷ later)) ≡ some now
unfolding wait_loop
wait_loop-ends end_time [] now later none_before h = ground arith
wait_loop-ends end_time (e ∷ es) now later (before l ls) h =
    ground (arith, wait_loop-ends end_time es now later ls h)

-- If the clock does not wrap within five seconds of the start, the command returns at the first read
-- that is five seconds or more behind it.
pub systime_m-waits :
    (first start : ℕ) (early : List ℕ) (now : ℕ) (later : List ℕ)
    → start + wait_time_millis < 2 ^ 32
    → AllBefore (start + wait_time_millis) early
    → start + wait_time_millis ≤ now
    → systime_m first start (early ++ (now ∷ later))
      ≡ some (pos 0, time_since_startup first ∷ wait_milliseconds wait_time_millis ∷ [], now)
unfolding systime_m
systime_m-waits first start early now later small all done =
    let same : (start + wait_time_millis) % 2 ^ 32 ≡ start + wait_time_millis = omega arith in
    rw (systime_m, same, wait_loop-ends (start + wait_time_millis) early now later all done) refl

-- In the last five seconds before the clock wraps the command returns at its first read.
pub systime_m-at_once :
    (first start now : ℕ) (later : List ℕ)
    → start < 2 ^ 32
    → 2 ^ 32 ≤ start + wait_time_millis
    → start ≤ now
    → systime_m first start (now ∷ later)
      ≡ some (pos 0, time_since_startup first ∷ wait_milliseconds wait_time_millis ∷ [], now)
unfolding systime_m
systime_m-at_once first start now later small wraps behind =
    let ends =
      wait_loop-ends ((start + wait_time_millis) % 2 ^ 32) [] now later none_before (omega arith) in
    rw (systime_m, ends) refl
