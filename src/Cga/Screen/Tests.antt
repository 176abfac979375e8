-- ===== src/Cga/Screen/Tests.antt =====
-- Runs of the text screen and uses of its theorems.
use rpv_platforms_evt_driven.Base.{◌≡◌, refl, arith, [], ◌∷◌}
use rpv_platforms_evt_driven.Base.Loop.{count_up}
use rpv_platforms_evt_driven.Cga.Screen.{
  Screen, write_cell, print_del, put_glyph, print_tab, print_char, print_string,
}
use rpv_platforms_evt_driven.Cga.Screen.Bounds.{IsOnScreen}

-- Each cell holds its own number; the cursor is on the last row.
abbrev numbered : Screen
numbered = record { x = 5; y = 24; char_color = 7; cells = λ i. record { code = i; color = 1 } }

typed_x : (print_string (b'h' ∷ b'i' ∷ 0x08 ∷ 0x09 ∷ []) numbered).x ≡ 10
unfolding print_string print_char print_del print_tab put_glyph write_cell count_up
typed_x = refl

numbered-IsOnScreen : IsOnScreen numbered
numbered-IsOnScreen = record { column = omega arith; row = omega arith }
