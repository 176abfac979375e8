-- ===== src/Cga/Screen.antt =====
-- src/arch/x86_64/print.c: the cursor, the colour and the cells of the 80 by 25 text buffer.
pub mod Rows
pub mod Bounds
pub mod Edit
mod Tests
use Prim.Native.Nat.{bit_or}
use rpv_platforms_evt_driven.Base.{
  ℕ, ◌+◌, ◌-◌, ◌*◌, ◌%◌, ◌^◌, ◌==◌, ltb, leb, if◌then◌else◌, Bool, ◌&&◌, ◌||◌, List, [], ◌∷◌,
}
use rpv_platforms_evt_driven.Base.Loop.{count_up}

-- CGA_NUM_COLS and CGA_NUM_ROWS
abbrev pub num_cols : ℕ
num_cols = 80

abbrev pub num_rows : ℕ
num_rows = 25

pub record CgaChar : Type 0 where
  pub code : ℕ
  pub color : ℕ

-- `cursor`, `char_color` and the buffer, from its first cell on.
pub record Screen : Type 0 where
  pub x : ℕ
  pub y : ℕ
  pub char_color : ℕ
  pub cells : ℕ → CgaChar

abbrev pub empty_cell : Screen → CgaChar
empty_cell s = record { code = 0; color = s.char_color }

unfoldable pub write_cell : Screen → ℕ → CgaChar → Screen
write_cell s a c = record s { cells = λ i. if i == a then c else s.cells i }

-- CGA_COLOR and `print_color`
unfoldable pub print_color : (fore_color back_color : ℕ) → Screen → Screen
print_color fore_color back_color s = record s {
  char_color = bit_or fore_color (back_color * 2 ^ 4) % 2 ^ 8;
}

-- `print_setxy`
unfoldable pub print_setxy : (x y : ℕ) → Screen → Screen
print_setxy x y s = if leb num_cols x || leb num_rows y then s else record s { x = x; y = y }

-- `clear_row`
unfoldable pub clear_row : (row : ℕ) → Screen → Screen
clear_row row s = count_up num_cols 0 (λ i t. write_cell t (i + row * num_cols) (empty_cell s)) s

-- `print_clear`
unfoldable pub print_clear : Screen → Screen
print_clear s = count_up num_rows 0 clear_row (record s { x = 0; y = 0 })

-- The copy of one cell, of a row and of all rows to the row above.
unfoldable pub copy_row : (row : ℕ) → Screen → Screen
copy_row row s =
    count_up num_cols 0
      (λ col t. write_cell t (col + (row - 1) * num_cols) (t.cells (col + row * num_cols))) s

unfoldable pub scroll : Screen → Screen
scroll s = count_up (num_rows - 1) 1 copy_row s

-- `print_newLine`
unfoldable pub print_newline : Screen → Screen
print_newline s0 =
    let s = record s0 { x = 0 } in
    if ltb s.y (num_rows - 1) then record s { y = s.y + 1 } else clear_row (num_rows - 1) (scroll s)

-- `print_del`
unfoldable pub print_del : Screen → Screen
print_del s =
    let back =
      if ltb 0 s.x
      then record s { x = s.x - 1 }
      else if ltb 0 s.y
      then record s { y = s.y - 1; x = num_cols - 1 }
      else s in
    if (s.x == 0) && (s.y == 0)
    then s
    else write_cell back (back.x + back.y * num_cols) (empty_cell s)

-- The last case of `print_char`.
unfoldable pub put_glyph : ℕ → Screen → Screen
put_glyph c s0 =
    let s = if leb num_cols s0.x then print_newline s0 else s0 in
    record (write_cell s (s.x + s.y * num_cols) (record { code = c; color = s.char_color })) {
      x = s.x + 1;
    }

-- `print_tab`: four blanks, which take the last case of `print_char`.
unfoldable pub print_tab : Screen → Screen
print_tab s = count_up 4 0 (λ _. put_glyph b' ') s

-- `print_char`
unfoldable pub print_char : ℕ → Screen → Screen
print_char c s =
    if c == 0x09
    then print_tab s
    else if c == 0x0d
    then record s { x = 0 }
    else if c == 0x0a
    then print_newline s
    else if (c == 0x08) || (c == 0x7f)
    then print_del s
    else put_glyph c s

-- `print_string`, over the characters before the NUL.
unfoldable pub print_string : List ℕ → Screen → Screen
print_string [] s = s
print_string (c ∷ cs) s = print_string cs (print_char c s)
