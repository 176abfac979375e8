-- ===== src/Rtm.antt =====
-- src/arch/mb_le/sys/rtmsure.c and src/arch/mb_le/services/rtmsure_service.c: the measured reaction
-- time, from the interrupt to the shell.
pub mod Decimal
pub mod Times
mod Tests
use rpv_platforms_evt_driven.Base.{
  ℕ, zero, suc, ◌+◌, ◌-◌, ◌*◌, ◌/◌, ◌%◌, ◌^◌, ◌==◌, ltb, if◌then◌else◌, Bool, true, false, not,
  Option, none, some, List, [], ◌∷◌, ℤ, pos, negsuc,
}

-- The conversion of a 32-bit word to `int`.
abbrev pub int_of : ℕ → ℤ
int_of w = if ltb w (2 ^ 31) then pos w else negsuc (2 ^ 32 - 1 - w)

-- The loop of `bcd_toDec`, with fuel for its rounds; `none` if that runs out.
unfoldable pub bcd_loop : (rounds base dec time : ℕ) → Option ℕ
bcd_loop zero base dec time = none
bcd_loop (suc rounds) base dec time =
    let dec_nth = time % 2 ^ 4 * base % 2 ^ 32 in
    let rest = bcd_loop rounds (base * 10) ((dec + dec_nth) % 2 ^ 32) (time / 2 ^ 4) in
    if time == 0 then some dec else rest

-- `bcd_toDec`: eight digits at most, and a round that sees none.
unfoldable pub bcd_to_dec : (bcd_time : ℕ) → Option ℕ
bcd_to_dec bcd_time = bcd_loop 9 1 0 bcd_time

-- What the code tells the kernel and the hardware.
pub data RtmNote : Type 0 where
  irq_ack block_signals unblock_signals raise_sigint : RtmNote

-- `bcd_time` of the driver and `rt_msuretime` of the service; newest note first.
pub record Rtm : Type 0 where
  pub bcd_time : ℤ
  pub rt_msuretime : ℤ
  pub notes : List RtmNote

-- `_rtmsure_start`, but for the interrupt controller
unfoldable pub rtmsure_start : Rtm → Rtm
rtmsure_start s = record s { bcd_time = negsuc 0 }

-- `onRtmsure_irq`, with the data register.
unfoldable pub on_rtmsure_irq : (dtr : ℕ) → Rtm → Rtm
on_rtmsure_irq dtr s = record s { bcd_time = int_of dtr; notes = raise_sigint ∷ irq_ack ∷ s.notes }

unfoldable pub rtm_irqs : List ℕ → Rtm → Rtm
rtm_irqs [] s = s
rtm_irqs (dtr ∷ dtrs) s = rtm_irqs dtrs (on_rtmsure_irq dtr s)

-- The end of `_rtmsure_time`, for the time that it loaded.
abbrev pub loaded : ℤ → Option ℤ
loaded (negsuc n) = some (negsuc n)
loaded (pos t) = elim (bcd_to_dec t) [ none ↦ none | some d ↦ some (pos d) ]

-- `_rtmsure_time`, with interrupts between its load of `bcd_time` and its store; `none` if the loop
-- does not end.
unfoldable pub rtmsure_time : (irqs : List ℕ) → Rtm → Option ℤ × Rtm
rtmsure_time irqs s = (loaded s.bcd_time, record (rtm_irqs irqs s) { bcd_time = negsuc 0 })

-- The end of `rtmsure_service`, for the time that it got.
abbrev pub publish : Option ℤ → Rtm → Option Rtm
publish none s = none
publish (some (negsuc zero)) s = some s
publish (some (negsuc (suc n))) s =
    some (record s { rt_msuretime = negsuc (suc n); notes = unblock_signals ∷ s.notes })
publish (some (pos t)) s =
    some (record s { rt_msuretime = pos t; notes = unblock_signals ∷ s.notes })

-- `rtmsure_service`. `pending` says whether SIGINT is.
unfoldable pub rtmsure_service : (pending : Bool) (irqs : List ℕ) → Rtm → Option Rtm
rtmsure_service pending irqs s0 =
    let s : Rtm = record s0 { notes = block_signals ∷ s0.notes } in
    let (time, s') = rtmsure_time irqs s in if not pending then some s else publish time s'

pub data RtmLine : Type 0 where
  no_time unexpected_format : RtmLine
  reaction_time : (short long : ℕ) → RtmLine

-- `rtmsure_m`
unfoldable pub rtmsure_m : Rtm → ℤ × RtmLine
rtmsure_m s = elim s.rt_msuretime [
  | negsuc zero ↦ (negsuc 0, no_time)
  | negsuc (suc n) ↦ (negsuc 0, unexpected_format)
  | pos t ↦ (pos 0, reaction_time t 0)
]
