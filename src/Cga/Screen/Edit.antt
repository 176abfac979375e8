-- ===== src/Cga/Screen/Edit.antt =====
-- Deleting undoes typing: what `print_del` does after a character.
use rpv_platforms_evt_driven.Base.{ℕ, ◌+◌, ◌*◌, ◌<◌, ◌≡◌, arith, ◌==◌, if◌then◌else◌}
use rpv_platforms_evt_driven.Cga.Screen.{
  Screen, num_cols, empty_cell, write_cell, print_del, put_glyph,
}

-- Left of the last column, deleting after a character takes the cursor back to where it was and
-- leaves an empty cell there; all other cells are as before.
pub print_del-put_glyph :
    (c : ℕ) (s : Screen)
    → s.x < num_cols
    → ((print_del (put_glyph c s)).x ≡ s.x)
      × ((print_del (put_glyph c s)).y ≡ s.y)
      × ((j : ℕ)
          → (print_del (put_glyph c s)).cells j
            ≡ (if j == s.x + s.y * num_cols then empty_cell s else s.cells j))
unfolding print_del put_glyph write_cell
print_del-put_glyph c s inside = (ground arith, ground arith, λ j. ground arith)
