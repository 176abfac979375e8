-- ===== src/Keyb.antt =====
-- src/arch/x86_64/keyb.c: scan codes of set 2 become key events.
pub mod Tables
pub mod Decode
pub mod Events
pub mod Modifiers
mod Tests
use rpv_platforms_evt_driven.Base.{
  ℕ, ◌+◌, ◌*◌, ◌==◌, ltb, if◌then◌else◌, Bool, true, false, not, ◌||◌, List, [], ◌∷◌, length,
  get_or,
}
use rpv_platforms_evt_driven.Keyb.Tables.{make, keys}

-- `KeybState`, a bit field of which these four bits are used: `|=` of a bit makes it true, `^=`
-- negates it.
pub record KeybState : Type 0 where
  pub lshift_holds : Bool
  pub rshift_holds : Bool
  pub ctrl_holds : Bool
  pub key_break : Bool

-- The key event.
pub record ConsoleKey : Type 0 where
  pub code : ℕ
  pub scan_code : ℕ

-- `keybScanCodeDecode`: the first index of the code, 0xff if it has none.
unfoldable pub decode_from : (codes : List ℕ) (index scan_code : ℕ) → ℕ
decode_from [] index scan_code = 0xff
decode_from (c ∷ codes) index scan_code =
    if c == scan_code then index else decode_from codes (index + 1) scan_code

unfoldable pub scan_code_decode : ℕ → ℕ
scan_code_decode scan_code = decode_from make 0 scan_code

-- `strlen(decoded) > 1 ? 0 : *decoded`
unfoldable pub key_code : (decoded : List ℕ) → ℕ
key_code decoded = if ltb 1 (length decoded) then 0 else get_or decoded 0 0

-- The index into `Keys`: the second half is for shift.
abbrev pub key_index : (index : ℕ) → KeybState → ℕ
key_index index s = index + 85 * (if s.lshift_holds || s.rshift_holds then 1 else 0)

-- The release of a key.
unfoldable pub on_break : (scan_code : ℕ) → KeybState → KeybState
on_break scan_code s =
    if scan_code == 0x12
    then record s { lshift_holds = not s.lshift_holds; key_break = false }
    else if scan_code == 0x59
    then record s { rshift_holds = not s.rshift_holds; key_break = false }
    else if scan_code == 0x14
    then record s { ctrl_holds = not s.ctrl_holds; key_break = false }
    else record s { key_break = false }

-- The event of a key that is no modifier.
unfoldable pub key_event : (scan_code : ℕ) → KeybState → List ConsoleKey
key_event scan_code s =
    let index = scan_code_decode scan_code in
    if index == 0xff
    then []
    else (record { code = key_code (get_or keys (key_index index s) []); scan_code = scan_code }
        ∷ [])

-- `_kernel_onKeybScan`: the new state and the published events.
unfoldable pub on_keyb_scan : (scan_code : ℕ) → KeybState → KeybState × List ConsoleKey
on_keyb_scan scan_code s =
    if scan_code == 0xf0
    then (record s { key_break = true }, [])
    else if s.key_break
    then (on_break scan_code s, [])
    else if scan_code == 0x12
    then (record s { lshift_holds = true }, [])
    else if scan_code == 0x59
    then (record s { rshift_holds = true }, [])
    else if scan_code == 0x14
    then (record s { ctrl_holds = true }, [])
    else (s, key_event scan_code s)
