-- ===== src/Con.antt =====
-- The consoles of the three targets behind one interface, the calls of the shell on it, and the
-- prompts.
pub mod Pc
pub mod Serial
pub mod Cursor
pub mod Wire
pub mod Prompt
mod Tests
use rpv_platforms_evt_driven.Base.{ℕ, List, [], ◌∷◌}

-- What the shell calls of a console.
pub record Console : Type 1 where
  pub State : Type 0
  pub con_ln : State → State
  pub con_tab : State → State
  pub con_char : (code : ℕ) → State → State
  pub con_string : List ℕ → State → State
  pub con_xy : (cx cy : ℕ) → State → State
  pub con_clear : State → State
  pub con_getx : State → ℕ
  pub con_gety : State → ℕ

pub data ConCall : Type 0 where
  a_ln a_tab a_clear : ConCall
  a_char : ℕ → ConCall
  a_string : List ℕ → ConCall
  an_xy : (cx cy : ℕ) → ConCall

module _ (c : Console) where
  unfoldable pub con_call : ConCall → c.State → c.State
  con_call a_ln s = c.con_ln s
  con_call a_tab s = c.con_tab s
  con_call a_clear s = c.con_clear s
  con_call (a_char code) s = c.con_char code s
  con_call (a_string str) s = c.con_string str s
  con_call (an_xy cx cy) s = c.con_xy cx cy s

  unfoldable pub con_calls : List ConCall → c.State → c.State
  con_calls [] s = s
  con_calls (call ∷ calls) s = con_calls calls (con_call call s)
