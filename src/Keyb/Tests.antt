-- ===== src/Keyb/Tests.antt =====
-- Runs of the keyboard's decoder and uses of its theorems.
use rpv_platforms_evt_driven.Base.{◌≡◌, refl, arith, true, false, List, [], ◌∷◌}
use rpv_platforms_evt_driven.Keyb.{
  KeybState, scan_code_decode, on_keyb_scan, on_break, key_event, decode_from, key_code,
}
use rpv_platforms_evt_driven.Keyb.Modifiers.{
  Held, lshift, plain, Action, press, release, Typed, done, pressed, released, a_lshift, a_plain,
  IsKey, state_of, codes_of, typed_events, scan_run, scan_run_lem, scan_run-controls,
}

abbrev nothing_held : Held
nothing_held = record { lshift_down = false; rshift_down = false; ctrl_down = false }

abbrev shift_held : KeybState
shift_held = record {
  lshift_holds = true;
  rshift_holds = false;
  ctrl_holds = false;
  key_break = false;
}

-- Shift and `A`, then `A` alone.
abbrev typing : List Action
typing =
    press lshift
    ∷ press (plain 0x1c)
    ∷ release (plain 0x1c)
    ∷ release lshift
    ∷ press (plain 0x1c)
    ∷ []

typing-keys :
    (scan_run (codes_of typing) (state_of nothing_held)).1
    ≡ record { code = b'A'; scan_code = 0x1c } ∷ record { code = b'a'; scan_code = 0x1c } ∷ []
unfolding scan_run on_keyb_scan on_break key_event scan_code_decode decode_from key_code
typing-keys = refl

plain_a : IsKey (plain 0x1c)
plain_a = a_plain (omega arith) (omega arith) (omega arith) (omega arith)

typing-Typed : Typed nothing_held typing nothing_held
typing-Typed =
    pressed a_lshift
      (pressed plain_a (released plain_a refl (released a_lshift refl (pressed plain_a done))))

scan_run_lem_example :
    scan_run (codes_of typing) (state_of nothing_held)
    ≡ (state_of nothing_held, typed_events typing nothing_held)
scan_run_lem_example = scan_run_lem typing-Typed

scan_run-controls_example :
    scan_run (0x14 ∷ 0xe0 ∷ 0x14 ∷ 0xf0 ∷ 0x14 ∷ 0xe0 ∷ 0xf0 ∷ 0x14 ∷ []) (state_of nothing_held)
    ≡ (record (state_of nothing_held) { ctrl_holds = true }, [])
scan_run-controls_example = scan_run-controls (state_of nothing_held) refl
