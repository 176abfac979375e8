-- ===== src/Keyb/Modifiers.antt =====
-- Shift and control over presses and releases of whole keys.
use rpv_platforms_evt_driven.Base.{
  ℕ, ◌≡◌, ◌≢◌, refl, ap, ◌∙◌, arith, Bool, true, false, List, [], ◌∷◌, ◌++◌, append-nil,
  append_assoc,
}
use rpv_platforms_evt_driven.Keyb.Tables.{make}
use rpv_platforms_evt_driven.Keyb.Events.{text_of, texts_under, typed_key, key_event-typed_key}
use rpv_platforms_evt_driven.Keyb.{
  KeybState, ConsoleKey, key_event, on_break, on_keyb_scan, scan_code_decode, decode_from,
}

-- The keys of a keyboard as this driver tells them apart.
pub data Key : Type 0 where
  lshift rshift ctrl : Key
  plain : ℕ → Key

pub data Action : Type 0 where
  press release : Key → Action

abbrev pub scan_code : Key → ℕ
scan_code lshift = 0x12
scan_code rshift = 0x59
scan_code ctrl = 0x14
scan_code (plain c) = c

-- The scan codes that the keyboard sends.
abbrev pub scan_codes : Action → List ℕ
scan_codes (press k) = scan_code k ∷ []
scan_codes (release k) = 0xf0 ∷ scan_code k ∷ []

-- The interrupts for a list of scan codes.
unfoldable pub scan_run : List ℕ → KeybState → KeybState × List ConsoleKey
scan_run [] s = (s, [])
scan_run (c ∷ cs) s =
    let first = on_keyb_scan c s in let rest = scan_run cs first.0 in (rest.0, first.1 ++ rest.1)

-- What the state should say: which modifier is down.
pub record Held : Type 0 where
  pub lshift_down : Bool
  pub rshift_down : Bool
  pub ctrl_down : Bool

abbrev pub set_held : Key → Bool → Held → Held
set_held lshift b h = record h { lshift_down = b }
set_held rshift b h = record h { rshift_down = b }
set_held ctrl b h = record h { ctrl_down = b }
set_held (plain c) b h = h

abbrev pub act : Action → Held → Held
act (press k) = set_held k true
act (release k) = set_held k false

abbrev pub is_held : Key → Held → Bool
is_held lshift h = h.lshift_down
is_held rshift h = h.rshift_down
is_held ctrl h = h.ctrl_down
is_held (plain c) h = true

abbrev pub state_of : Held → KeybState
state_of h = record {
  lshift_holds = h.lshift_down;
  rshift_holds = h.rshift_down;
  ctrl_holds = h.ctrl_down;
  key_break = false;
}

-- The events of the keys that are no modifier.
abbrev pub events_of : Action → Held → List ConsoleKey
events_of (press (plain c)) h =
    typed_key c (text_of make (texts_under h.lshift_down h.rshift_down) c)
events_of a h = []

-- A code of a key that is neither a modifier nor the break code.
pub data IsKey : Key → Type 0 where
  a_lshift : IsKey lshift
  a_rshift : IsKey rshift
  a_ctrl : IsKey ctrl
  a_plain : {c : ℕ} → c ≢ 0xf0 → c ≢ 0x12 → c ≢ 0x59 → c ≢ 0x14 → IsKey (plain c)

-- Actions in which a modifier is released only while it is down.
pub data Typed : Held → List Action → Held → Type 0 where
  done : {h : Held} → Typed h [] h
  pressed :
      {h t : Held} {k : Key} {acts : List Action}
      → IsKey k
      → Typed (act (press k) h) acts t
      → Typed h (press k ∷ acts) t
  released :
      {h t : Held} {k : Key} {acts : List Action}
      → IsKey k
      → is_held k h ≡ true
      → Typed (act (release k) h) acts t
      → Typed h (release k ∷ acts) t

abbrev pub codes_of : List Action → List ℕ
codes_of [] = []
codes_of (a ∷ acts) = scan_codes a ++ codes_of acts

abbrev pub typed_events : List Action → Held → List ConsoleKey
typed_events [] h = []
typed_events (a ∷ acts) h = events_of a h ++ typed_events acts (act a h)

plain_press :
    (k : ℕ) (h : Held)
    → k ≢ 0xf0
    → k ≢ 0x12
    → k ≢ 0x59
    → k ≢ 0x14
    → on_keyb_scan k (state_of h) ≡ (state_of h, key_event k (state_of h))
unfolding on_keyb_scan
plain_press k h f l r c = ground arith

press_lem :
    {k : Key} (h : Held)
    → IsKey k
    → on_keyb_scan (scan_code k) (state_of h) ≡ (state_of (act (press k) h), events_of (press k) h)
unfolding on_keyb_scan
press_lem h a_lshift = refl
press_lem h a_rshift = refl
press_lem h a_ctrl = refl
press_lem {k = plain k} h (a_plain f l r c) =
    plain_press k h f l r c ∙ ap (λ es. (state_of h, es)) (key_event-typed_key k (state_of h))

release_lem :
    {k : Key} (h : Held)
    → IsKey k
    → is_held k h ≡ true
    → scan_run (scan_codes (release k)) (state_of h) ≡ (state_of (act (release k) h), [])
unfolding scan_run on_keyb_scan on_break
release_lem h a_lshift down = rw down refl
release_lem h a_rshift down = rw down refl
release_lem h a_ctrl down = rw down refl
release_lem h (a_plain f l r c) down = ground arith

scan_run-append :
    (cs ds : List ℕ) (s : KeybState)
    → scan_run (cs ++ ds) s
      ≡ (let first = scan_run cs s in let rest = scan_run ds first.0 in (rest.0, first.1 ++ rest.1))
unfolding scan_run
scan_run-append [] ds s = refl
scan_run-append (c ∷ cs) ds s =
    rw (scan_run-append cs ds (on_keyb_scan c s).0) (rw (append_assoc (on_keyb_scan c s).1) refl)

action_lem :
    (a : Action) (h : Held) (rest : List ℕ) (h' : Held) (es fs : List ConsoleKey) (t : Held)
    → scan_run (scan_codes a) (state_of h) ≡ (state_of h', es)
    → scan_run rest (state_of h') ≡ (state_of t, fs)
    → scan_run (scan_codes a ++ rest) (state_of h) ≡ (state_of t, es ++ fs)
action_lem a h rest h' es fs t first later =
    rw (scan_run-append (scan_codes a) rest (state_of h)) (rw first (rw later refl))

press_run :
    {k : Key} (h : Held)
    → IsKey k
    → scan_run (scan_codes (press k)) (state_of h)
      ≡ (state_of (act (press k) h), events_of (press k) h)
unfolding scan_run
press_run h k = rw (press_lem h k) (rw append-nil refl)

-- Over presses and releases in which a modifier is released only while it is down, a modifier counts
-- as held exactly while it is down, and each press of another key with a known scan code publishes that
-- code with its character in `Keys`, in the half for shift while one of the shift keys is down and in
-- the other half while none is, or 0 for a key with a name.
pub scan_run_lem :
    {h t : Held} {acts : List Action}
    → Typed h acts t
    → scan_run (codes_of acts) (state_of h) ≡ (state_of t, typed_events acts h)
unfolding scan_run
scan_run_lem done = refl
scan_run_lem {h} {t} (pressed {k} {acts} known rest) =
    action_lem (press k) h (codes_of acts) (act (press k) h) (events_of (press k) h)
      (typed_events acts (act (press k) h)) t (press_run h known) (scan_run_lem rest)
scan_run_lem {h} {t} (released {k} {acts} known down rest) =
    action_lem (release k) h (codes_of acts) (act (release k) h) []
      (typed_events acts (act (release k) h)) t (release_lem h known down) (scan_run_lem rest)

-- After the left and then the right control key (0x14, and 0x14 behind 0xe0) were pressed and both
-- were released, outside a break sequence, control still counts as held.
pub scan_run-controls :
    (s : KeybState)
    → s.key_break ≡ false
    → scan_run (0x14 ∷ 0xe0 ∷ 0x14 ∷ 0xf0 ∷ 0x14 ∷ 0xe0 ∷ 0xf0 ∷ 0x14 ∷ []) s
      ≡ (record s { ctrl_holds = true }, [])
unfolding scan_run on_keyb_scan on_break key_event scan_code_decode decode_from
scan_run-controls s idle = rw idle refl
