-- ===== src/Con/Tests.antt =====
-- Runs of the consoles and the prompts, and uses of the theorems on them.
use rpv_platforms_evt_driven.Base.{◌≤◌, ◌≡◌, false, [], ◌∷◌, length}
use rpv_platforms_evt_driven.Fat.Fixture.{empty_files, no_files, letters_dir}
use rpv_platforms_evt_driven.Fat.Dir.{fat_getcwd}
use rpv_platforms_evt_driven.Con.{a_ln, a_char, a_string, an_xy, con_calls}
use rpv_platforms_evt_driven.Con.Pc.{Pc, pc, set_con}
use rpv_platforms_evt_driven.Con.Cursor.{IsShown, con_calls-set_con}
use rpv_platforms_evt_driven.Con.Serial.Mb.{mb}
use rpv_platforms_evt_driven.Con.Serial.Avr.{avr}
use rpv_platforms_evt_driven.Con.Wire.{mb_sent, avr_sent, con_calls-wire}
use rpv_platforms_evt_driven.Con.Prompt.{mb_prompt, avr_prompt, pc_text, pc_prompt, prompt_bounds}

abbrev dark : Pc
dark = record {
  screen = record { x = 7; y = 30; char_color = 0; cells = λ i. record { code = b'x'; color = 0 } };
  cursor_row = 1;
  cursor_col = 2;
  shown = false;
}

con_calls-set_con_example :
    IsShown dark.screen
      (con_calls pc (a_string (b'o' ∷ b'k' ∷ []) ∷ a_ln ∷ an_xy 4 90 ∷ []) (set_con dark))
con_calls-set_con_example =
    con_calls-set_con (a_string (b'o' ∷ b'k' ∷ []) ∷ a_ln ∷ an_xy 4 90 ∷ []) dark

con_calls-wire_example :
    (mb_sent (con_calls mb (a_char b'a' ∷ a_char 0x7f ∷ a_ln ∷ []) [])
      ≡ 0x0a ∷ 0x08 ∷ b' ' ∷ 0x08 ∷ b'a' ∷ [])
    × (avr_sent (con_calls avr (a_char b'a' ∷ a_char 0x7f ∷ a_ln ∷ []) [])
        ≡ 0x0a ∷ 0x08 ∷ b' ' ∷ 0x08 ∷ b'a' ∷ [])
con_calls-wire_example = con_calls-wire (a_char b'a' ∷ a_char 0x7f ∷ a_ln ∷ []) [] []

-- The text of the prompt without a drive is two characters long and overruns a buffer of two bytes.
prompt_bounds_example :
    (length (mb_prompt false 2) ≤ 2)
    × (length (avr_prompt false 2) ≤ 2)
    × (length (pc_prompt empty_files letters_dir false 2 0 no_files).0 ≡ 3)
unfolding pc_text fat_getcwd
prompt_bounds_example = prompt_bounds empty_files letters_dir false 2 0 no_files
