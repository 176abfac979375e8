-- ===== src/Cga/Screen/Bounds.antt =====
-- No operation of the screen writes outside the buffer or loses the cursor.
use rpv_platforms_evt_driven.Base.{
  ℕ, ◌+◌, ◌-◌, ◌*◌, ◌≤◌, ◌<◌, ◌≡◌, refl, ap, ◌∙◌, arith, ◌||◌, ◌==◌, leb, List, [], ◌∷◌, dec_lt,
  inl, inr, Bool-cases, if-both,
}
use rpv_platforms_evt_driven.Base.Loop.{count_up_inv}
use rpv_platforms_evt_driven.Cga.Screen.{
  CgaChar, Screen, num_cols, num_rows, write_cell, print_newline, print_del, put_glyph, print_tab,
  print_char, print_string,
}
use rpv_platforms_evt_driven.Cga.Screen.Rows.{print_newline-scrolls, print_newline-moves}

-- The cursor is on the screen, or just behind the last column.
pub record IsOnScreen (s : Screen) : Type 0 where
  pub column : s.x ≤ num_cols
  pub row : s.y < num_rows

-- From `s` to `t` the cursor stayed on the screen, and nothing behind the buffer changed.
pub record Kept (s t : Screen) : Type 0 where
  pub on_screen : IsOnScreen t
  pub outside : (j : ℕ) → num_rows * num_cols ≤ j → t.cells j ≡ s.cells j

pub Kept-trans : {s t u : Screen} → Kept s t → Kept t u → Kept s u
Kept-trans h k = record { on_screen = k.on_screen; outside = λ j b. k.outside j b ∙ h.outside j b }

print_newline-Kept : {s : Screen} → IsOnScreen s → Kept s (print_newline s)
print_newline-Kept {s} v = elim (dec_lt s.y (num_rows - 1)) [
  | yes above ↦
      rw (print_newline-moves s above) (record { on_screen = omega arith; outside = λ j b. refl })
  | no bottom ↦
      let n = print_newline-scrolls s (omega arith) in
      record {
        on_screen = record { column = omega (arith, n.0); row = omega (arith, n.1, v.row) };
        outside = λ j b. ground (arith, n.3 j);
      }
]

print_del-Kept : {s : Screen} → IsOnScreen s → Kept s (print_del s)
unfolding print_del write_cell
print_del-Kept {s} v = record { on_screen = ground arith; outside = λ j b. ground arith }

-- A new line always goes to the first column.
pub print_newline-x : (s : Screen) → s.y < num_rows → (print_newline s).x ≡ 0
print_newline-x s v = elim (dec_lt s.y (num_rows - 1)) [
  | yes above ↦ ap (λ t. t.x) (print_newline-moves s above)
  | no bottom ↦ (print_newline-scrolls s (omega arith)).0
]

-- A write at the cursor, which then moves by one.
put_cell-Kept :
    {s : Screen} (c : CgaChar)
    → s.x < num_cols
    → s.y < num_rows
    → Kept s (record (write_cell s (s.x + s.y * num_cols) c) { x = s.x + 1 })
unfolding write_cell
put_cell-Kept {s} c left row = record {
  on_screen = record { column = omega arith; row = row };
  outside = λ j b. ground arith;
}

put_glyph-Kept : {s : Screen} (c : ℕ) → IsOnScreen s → Kept s (put_glyph c s)
unfolding put_glyph
put_glyph-Kept {s} c v = elim (Bool-cases (leb num_cols s.x)) [
  | inl wraps ↦ rw wraps (
      let n = print_newline-Kept v in
      Kept-trans n (
        put_cell-Kept (record { code = c; color = (print_newline s).char_color })
          (omega (arith, print_newline-x s v.row)) n.on_screen.row))
  | inr fits ↦
      rw fits (put_cell-Kept (record { code = c; color = s.char_color }) (ground arith) v.row)
]

print_tab-Kept : {s : Screen} → IsOnScreen s → Kept s (print_tab s)
unfolding print_tab
print_tab-Kept {s} v =
    count_up_inv (λ _ t. Kept s t) (λ _. put_glyph b' ')
      (λ i t h. Kept-trans h (put_glyph-Kept b' ' h.on_screen)) 4 0 4 s refl
      (record { on_screen = v; outside = λ j b. refl })

pub print_char-Kept : {s : Screen} (c : ℕ) → IsOnScreen s → Kept s (print_char c s)
unfolding print_char
print_char-Kept {s} c v = if-both (Kept s) (c == 0x09) (print_tab-Kept v) (
    if-both (Kept s) (c == 0x0d)
      (record { on_screen = record { column = omega arith; row = v.row }; outside = λ j b. refl })
      (if-both (Kept s) (c == 0x0a) (print_newline-Kept v)
        (if-both (Kept s) ((c == 0x08) || (c == 0x7f)) (print_del-Kept v) (put_glyph-Kept c v))))

-- With the cursor on the screen, whatever text is printed, the cursor stays there and every write
-- falls into the buffer.
pub print_string-Kept : (cs : List ℕ) {s : Screen} → IsOnScreen s → Kept s (print_string cs s)
unfolding print_string
print_string-Kept [] v = record { on_screen = v; outside = λ j b. refl }
print_string-Kept (c ∷ cs) {s} v =
    let h : Kept s (print_char c s) = print_char-Kept c v in
    Kept-trans h (print_string-Kept cs h.on_screen)
