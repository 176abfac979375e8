-- ===== src/Con/Cursor.antt =====
-- The cursor of the hardware stands where the next character goes.
use rpv_platforms_evt_driven.Base.{ℕ, ◌≡◌, refl, arith, List, [], ◌∷◌, true}
use rpv_platforms_evt_driven.Cga.Screen.{Screen, print_setxy, print_clear, print_color}
use rpv_platforms_evt_driven.Cga.Screen.Rows.{print_clear_lem}
use rpv_platforms_evt_driven.Cga.Screen.Bounds.{
  IsOnScreen, Kept, Kept-trans, print_char-Kept, print_string-Kept,
}
use rpv_platforms_evt_driven.Con.{
  ConCall, a_ln, a_tab, a_clear, a_char, a_string, an_xy, con_call, con_calls,
}
use rpv_platforms_evt_driven.Con.Pc.{
  Pc, pc, set_con, con_ln, con_tab, con_char, con_string, con_xy, con_clear, move_cursor,
}

-- Since the screen was `s` nothing behind the buffer changed, and the cursor is shown where the
-- screen has it, which is on the screen.
pub record IsShown (s : Screen) (p : Pc) : Type 0 where
  pub row : p.cursor_row ≡ p.screen.y
  pub column : p.cursor_col ≡ p.screen.x
  pub visible : p.shown ≡ true
  pub kept : Kept s p.screen

print_clear-Kept : (s : Screen) → Kept s (print_clear s)
print_clear-Kept s =
    let (x, y, cells) = print_clear_lem s in
    record {
      on_screen = record { column = omega (arith, x); row = omega (arith, y) };
      outside = λ j b. ground (arith, cells j);
    }

print_setxy-Kept : (x y : ℕ) {s : Screen} → IsOnScreen s → Kept s (print_setxy x y s)
unfolding print_setxy
print_setxy-Kept x y {s} v = record { on_screen = ground arith; outside = λ j b. ground arith }

-- A call that prints and moves the cursor.
moved :
    {s t : Screen} {p : Pc}
    → IsShown s p
    → Kept p.screen t
    → IsShown s (move_cursor (record p { screen = t }))
unfolding move_cursor
moved v h = record { row = refl; column = refl; visible = v.visible; kept = Kept-trans v.kept h }

con_call-IsShown :
    (s : Screen) (call : ConCall) (p : Pc) → IsShown s p → IsShown s (con_call pc call p)
unfolding con_call con_ln con_tab con_char con_string con_xy con_clear move_cursor
con_call-IsShown s a_ln p v =
    let h = print_char-Kept 0x0d v.kept.on_screen in
    moved v (Kept-trans h (print_char-Kept 0x0a h.on_screen))
con_call-IsShown s a_tab p v = moved v (print_char-Kept 0x09 v.kept.on_screen)
con_call-IsShown s a_clear p v = moved v (print_clear-Kept p.screen)
con_call-IsShown s (a_char code) p v = moved v (print_char-Kept code v.kept.on_screen)
con_call-IsShown s (a_string str) p v = moved v (print_string-Kept str v.kept.on_screen)
con_call-IsShown s (an_xy cx cy) p v = moved v (print_setxy-Kept cx cy v.kept.on_screen)

con_calls-IsShown :
    (s : Screen) (calls : List ConCall) (p : Pc) → IsShown s p → IsShown s (con_calls pc calls p)
unfolding con_calls
con_calls-IsShown s [] p v = v
con_calls-IsShown s (call ∷ calls) p v =
    con_calls-IsShown s calls (con_call pc call p) (con_call-IsShown s call p v)

set_con-IsShown : (p : Pc) → IsShown p.screen (set_con p)
unfolding set_con move_cursor print_color
set_con-IsShown p =
    let h = print_clear-Kept p.screen in
    record {
      row = refl;
      column = refl;
      visible = refl;
      kept = record {
        on_screen = record { column = h.on_screen.column; row = h.on_screen.row };
        outside = h.outside;
      };
    }

-- After the console of the PC was set up, in any state, any sequence of calls on it leaves the cursor
-- of the hardware at the row and the column of the cursor of the screen, on the screen or just behind
-- a full row, and shown; no cell behind the buffer has changed.
pub con_calls-set_con :
    (calls : List ConCall) (p : Pc) → IsShown p.screen (con_calls pc calls (set_con p))
con_calls-set_con calls p = con_calls-IsShown p.screen calls (set_con p) (set_con-IsShown p)
