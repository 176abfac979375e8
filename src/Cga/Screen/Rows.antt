-- ===== src/Cga/Screen/Rows.antt =====
-- What clearing a row and scrolling do to each cell.
use rpv_platforms_evt_driven.Base.{
  ℕ, ◌+◌, ◌-◌, ◌*◌, ◌≤◌, ◌<◌, ◌≡◌, refl, ap, arith, ◌&&◌, ltb, leb, if◌then◌else◌,
}
use rpv_platforms_evt_driven.Base.Loop.{count_up_inv}
use rpv_platforms_evt_driven.Cga.Screen.{
  Screen, num_cols, num_rows, empty_cell, write_cell, clear_row, print_clear, copy_row, scroll,
  print_newline,
}

-- Cursor and colour are the same.
pub record SameCursor (s t : Screen) : Type 0 where
  pub same_x : t.x ≡ s.x
  pub same_y : t.y ≡ s.y
  pub same_color : t.char_color ≡ s.char_color

-- Clearing a row empties its cells and no other.
pub clear_row_lem :
    (row : ℕ) (s : Screen)
    → SameCursor s (clear_row row s)
      × ((j : ℕ)
          → (clear_row row s).cells j ≡ (
              if leb (row * num_cols) j && ltb j (row * num_cols + num_cols)
              then empty_cell s
              else s.cells j))
unfolding clear_row write_cell
clear_row_lem row s =
    count_up_inv
      (λ i t.
        SameCursor s t
        × ((j : ℕ)
            → t.cells j ≡ (
                if leb (row * num_cols) j && ltb j (row * num_cols + i)
                then empty_cell s
                else s.cells j)))
      (λ i t. write_cell t (i + row * num_cols) (empty_cell s))
      (λ i t h. (ground (arith, h.0), λ j. ground (arith, h.1 j))) num_cols 0 num_cols s refl
      (record { same_x = refl; same_y = refl; same_color = refl }, λ j. ground arith)

-- Copying row `row` replaces the cells of the row above it.
copy_row_lem :
    (row : ℕ) (s : Screen)
    → 0 < row
    → SameCursor s (copy_row row s)
      × ((j : ℕ)
          → (copy_row row s).cells j ≡ (
              if leb ((row - 1) * num_cols) j && ltb j ((row - 1) * num_cols + num_cols)
              then s.cells (j + num_cols)
              else s.cells j))
unfolding copy_row write_cell
copy_row_lem row s some_row =
    count_up_inv
      (λ i t.
        SameCursor s t
        × ((j : ℕ)
            → t.cells j ≡ (
                if leb ((row - 1) * num_cols) j && ltb j ((row - 1) * num_cols + i)
                then s.cells (j + num_cols)
                else s.cells j)))
      (λ col t. write_cell t (col + (row - 1) * num_cols) (t.cells (col + row * num_cols)))
      (λ i t h. (
        ground (arith, h.0),
        λ j. ground (
          arith,
          h.1 j,
          h.1 (i + row * num_cols),
          ap s.cells {x = i + (row - 1) * num_cols + num_cols} {y = i + row * num_cols}
              (omega arith),
        ),
      ))
      num_cols 0 num_cols s refl
      (record { same_x = refl; same_y = refl; same_color = refl }, λ j. ground arith)

-- Scrolling moves each row to the one above it; the last row stays.
pub scroll_lem :
    (s : Screen)
    → SameCursor s (scroll s)
      × ((j : ℕ)
          → (scroll s).cells j
            ≡ (if ltb j ((num_rows - 1) * num_cols) then s.cells (j + num_cols) else s.cells j))
unfolding scroll
scroll_lem s = inv.1
  where
    Inv : ℕ → Screen → Type 0
    Inv i t =
        (0 < i)
        × (SameCursor s t
            × ((j : ℕ)
                → t.cells j
                  ≡ (if ltb j ((i - 1) * num_cols) then s.cells (j + num_cols) else s.cells j)))

    inv : Inv num_rows (scroll s)
    inv =
        count_up_inv Inv copy_row
          (λ i t h. (
            omega arith,
            (
              ground (arith, h.1.0, (copy_row_lem i t h.0).0),
              λ j. ground (arith, (copy_row_lem i t h.0).1 j, h.1.1 j, h.1.1 (j + num_cols)),
            ),
          ))
          (num_rows - 1) 1 num_rows s refl
          (
            omega arith,
            (record { same_x = refl; same_y = refl; same_color = refl }, λ j. ground arith),
          )

-- On the last row a new line scrolls: each row takes the text of the one below it, the last row is
-- blank, and nothing behind the buffer changes. The cursor goes to the start of the last row.
pub print_newline-scrolls :
    (s : Screen)
    → num_rows - 1 ≤ s.y
    → ((print_newline s).x ≡ 0)
      × ((print_newline s).y ≡ s.y)
      × ((print_newline s).char_color ≡ s.char_color)
      × ((j : ℕ)
          → (print_newline s).cells j ≡ (
              if ltb j ((num_rows - 1) * num_cols)
              then s.cells (j + num_cols)
              else if ltb j (num_rows * num_cols)
              then empty_cell s
              else s.cells j))
unfolding print_newline
print_newline-scrolls s bottom =
    let start : Screen = record s { x = 0 } in
    let moved = scroll_lem start in
    let blank = clear_row_lem (num_rows - 1) (scroll start) in
    (
      ground (arith, moved.0, blank.0),
      ground (arith, moved.0, blank.0),
      ground (arith, moved.0, blank.0),
      λ j. ground (arith, moved.0, moved.1 j, blank.1 j),
    )

-- Above it a new line only moves the cursor.
pub print_newline-moves :
    (s : Screen) → s.y < num_rows - 1 → print_newline s ≡ record s { x = 0; y = s.y + 1 }
unfolding print_newline
print_newline-moves s above = ground arith

-- Clearing empties every cell of the buffer, and no other, and takes the cursor home.
pub print_clear_lem :
    (s : Screen)
    → ((print_clear s).x ≡ 0)
      × ((print_clear s).y ≡ 0)
      × ((j : ℕ)
          → (print_clear s).cells j
            ≡ (if ltb j (num_rows * num_cols) then empty_cell s else s.cells j))
unfolding print_clear
print_clear_lem s = (inv.0.same_x, inv.0.same_y, inv.1)
  where
    home : Screen
    home = record s { x = 0; y = 0 }

    Inv : ℕ → Screen → Type 0
    Inv i t =
        SameCursor home t
        × ((j : ℕ) → t.cells j ≡ (if ltb j (i * num_cols) then empty_cell s else s.cells j))

    inv : Inv num_rows (print_clear s)
    inv =
        count_up_inv Inv clear_row
          (λ i t h. (
            ground (arith, h.0, (clear_row_lem i t).0),
            λ j. ground (arith, (clear_row_lem i t).1 j, h.1 j, h.0),
          ))
          num_rows 0 num_rows home refl
          (record { same_x = refl; same_y = refl; same_color = refl }, λ j. ground arith)
