-- ===== src/Wheels.antt =====
-- src/arch/mc_avr/services/wheels_service.c: the shell command `whls`.
pub mod Words
pub mod Port
pub mod Select
mod Tests
use rpv_platforms_evt_driven.Base.{
  ℕ, ◌==◌, if◌then◌else◌, Bool, true, false, ◌&&◌, List, [], ◌∷◌, ℤ, pos, negsuc,
}

-- `whl_command`: the bytes that it writes from `command` on, and the argument behind the colon.
unfoldable pub whl_command : List ℕ → List ℕ × List ℕ
whl_command [] = (0 ∷ [], [])
whl_command (c ∷ argv) =
    let rest = whl_command argv in if c == b':' then (0 ∷ [], argv) else (c ∷ rest.0, rest.1)

-- `strcmp(...) == 0`, with the NUL in both texts.
unfoldable pub same_text : List ℕ → List ℕ → Bool
same_text [] [] = true
same_text [] (d ∷ ds) = false
same_text (c ∷ cs) [] = false
same_text (c ∷ cs) (d ∷ ds) = let rest = same_text cs ds in if c == d then rest else false

-- What the command does: the text it prints, the select pin and the counter it reads.
pub data Output : Type 0 where
  no_command unknown_action unknown_command selected unselected : Output
  select_pin : (level : Bool) → Output
  count_is : ℕ → Output

-- The first character of a text, its NUL if it has none.
abbrev first_char : List ℕ → ℕ
first_char [] = 0
first_char (c ∷ s) = c

-- The part behind `cs`: `cnt` is looked at next, but the two words differ.
unfoldable pub select_command : (c : ℕ) → ℤ × List Output
select_command c =
    if c == b'0'
    then (pos 0, selected ∷ select_pin false ∷ [])
    else if c == b'1'
    then (pos 0, unselected ∷ select_pin true ∷ [])
    else (negsuc 0, unknown_action ∷ unknown_command ∷ [])

-- `whls_m`, over the arguments behind the command's name; `spi_count` is what `_spi_write` returns.
-- The buffer of the command is taken to be large enough.
unfoldable pub whls_m : (spi_count : ℕ) → List (List ℕ) → ℤ × List Output
whls_m spi_count [] = (negsuc 0, no_command ∷ [])
whls_m spi_count (argv ∷ more) =
    let (cmd, arg) = whl_command argv in
    if same_text cmd (b'c' ∷ b's' ∷ 0 ∷ [])
    then select_command (first_char arg)
    else if same_text cmd (b'c' ∷ b'n' ∷ b't' ∷ 0 ∷ [])
    then (pos 0, count_is spi_count ∷ [])
    else (negsuc 0, unknown_command ∷ [])
