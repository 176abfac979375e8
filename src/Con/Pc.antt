-- ===== src/Con/Pc.antt =====
-- src/arch/x86_64/console.c: the console over the text screen and the cursor of the hardware.
use rpv_platforms_evt_driven.Base.{ℕ, Bool, true, List}
use rpv_platforms_evt_driven.Cga.Screen.{
  Screen, print_char, print_string, print_setxy, print_clear, print_color,
}
use rpv_platforms_evt_driven.Con.{Console}

-- The screen, and what the assembly routines were last told: the row and the column of the cursor,
-- and whether it is shown.
pub record Pc : Type 0 where
  pub screen : Screen
  pub cursor_row : ℕ
  pub cursor_col : ℕ
  pub shown : Bool

-- PRINT_COLOR_BLACK and PRINT_COLOR_YELLOW
abbrev pub color_black : ℕ
color_black = 0

abbrev pub color_yellow : ℕ
color_yellow = 14

-- `move_cursor`
unfoldable pub move_cursor : Pc → Pc
move_cursor s = record s { cursor_row = s.screen.y; cursor_col = s.screen.x }

abbrev pub on_screen : (Screen → Screen) → Pc → Pc
on_screen f s = record s { screen = f s.screen }

-- `con_ln`
unfoldable pub con_ln : Pc → Pc
con_ln s = move_cursor (on_screen (λ t. print_char 0x0a (print_char 0x0d t)) s)

-- `con_tab`
unfoldable pub con_tab : Pc → Pc
con_tab s = move_cursor (on_screen (print_char 0x09) s)

-- `con_char`
unfoldable pub con_char : (code : ℕ) → Pc → Pc
con_char code s = move_cursor (on_screen (print_char code) s)

-- `con_string`
unfoldable pub con_string : List ℕ → Pc → Pc
con_string str s = move_cursor (on_screen (print_string str) s)

-- `con_xy`
unfoldable pub con_xy : (cx cy : ℕ) → Pc → Pc
con_xy cx cy s0 =
    let s = on_screen (print_setxy cx cy) s0 in
    record s { cursor_row = s.screen.y; cursor_col = s.screen.x }

-- `con_clear`
unfoldable pub con_clear : Pc → Pc
con_clear s = move_cursor (on_screen print_clear s)

-- `con_getx` and `con_gety`
unfoldable pub con_getx : Pc → ℕ
con_getx s = s.screen.x

unfoldable pub con_gety : Pc → ℕ
con_gety s = s.screen.y

-- `set_con`
unfoldable pub set_con : Pc → Pc
set_con s =
    record (move_cursor (on_screen (λ t. print_color color_yellow color_black (print_clear t)) s)) {
      shown = true;
    }

abbrev pub pc : Console
pc = record {
  State = Pc;
  con_ln = con_ln;
  con_tab = con_tab;
  con_char = con_char;
  con_string = con_string;
  con_xy = con_xy;
  con_clear = con_clear;
  con_getx = con_getx;
  con_gety = con_gety;
}
