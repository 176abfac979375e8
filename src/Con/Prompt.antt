-- ===== src/Con/Prompt.antt =====
-- src/arch/x86_64/prompt.c, src/arch/mb_le/prompt.c and src/arch/mc_avr/sys/prompt.c: the prompt of
-- the shell. What a function writes to the caller's buffer is a list of bytes, from its start on.
use rpv_platforms_evt_driven.Base.{
  ℕ, ◌+◌, ◌≤◌, ◌≡◌, arith, ◌==◌, ltb, leb, if◌then◌else◌, Bool, ◌||◌, List, [], ◌∷◌, ◌++◌, length,
  length-append, get_or,
}
use rpv_platforms_evt_driven.Fat.Interface.{FatFs}
use rpv_platforms_evt_driven.Fat.Table.{Fat}
use rpv_platforms_evt_driven.Fat.Dir.{FatDir, fat_getcwd}

-- `_shell_prompt` of the MicroBlaze
unfoldable pub mb_prompt : (is_null : Bool) (p_len : ℕ) → List ℕ
mb_prompt is_null p_len = if is_null || ltb p_len 3 then [] else b'#' ∷ b' ' ∷ 0 ∷ []

-- `_shell_prompt` of the AVR
unfoldable pub avr_prompt : (is_null : Bool) (p_len : ℕ) → List ℕ
avr_prompt is_null p_len = if is_null || ltb p_len 3 then [] else b'>' ∷ b' ' ∷ 0 ∷ []

module _ (ff : FatFs) (fd : FatDir ff) where
  -- `s_prompt`, up to its NUL, for the current drive that the kernel returns, and the table behind the
  -- call of `fat_getcwd`.
  unfoldable pub pc_text : (cdrive : ℕ) → Fat ff → List ℕ × Fat ff
  pc_text cdrive f =
      let (cwd, f') = fat_getcwd ff fd (b'>' ∷ b' ' ∷ []) f in
      if cdrive == 0
      then (b'>' ∷ b' ' ∷ [], f)
      else (if get_or cwd 0 0 == cdrive then cwd ++ (b'>' ∷ []) else cwd, f')

  -- `_shell_prompt` of the PC
  unfoldable pub pc_prompt : (is_null : Bool) (p_len cdrive : ℕ) → Fat ff → List ℕ × Fat ff
  pc_prompt is_null p_len cdrive f =
      let (text, f') = pc_text cdrive f in
      if is_null || (p_len == 0)
      then ([], f)
      else (if leb (length text) p_len then text ++ (0 ∷ []) else [], f')

  -- The prompts of the MicroBlaze and of the AVR, with their NUL, fit into the buffer. The prompt of
  -- the PC takes a byte more than its text has characters, if the text has no more characters than
  -- the buffer has bytes; so it takes a byte more than the buffer has when these are as many.
  pub prompt_bounds :
      (is_null : Bool) (p_len cdrive : ℕ) (f : Fat ff)
      → let len = length (pc_text cdrive f).0 in
        (length (mb_prompt is_null p_len) ≤ p_len)
        × (length (avr_prompt is_null p_len) ≤ p_len)
        × (length (pc_prompt is_null p_len cdrive f).0
            ≡ (if is_null || ((p_len == 0) || ltb p_len len) then 0 else len + 1))
  unfolding mb_prompt avr_prompt pc_prompt
  prompt_bounds is_null p_len cdrive f =
      let whole = length-append (pc_text cdrive f).0 (0 ∷ []) in
      (ground arith, ground arith, ground (arith, whole))
