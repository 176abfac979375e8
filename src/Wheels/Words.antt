-- ===== src/Wheels/Words.antt =====
-- src/arch/mc_avr/services/wheels_service.c: how `whl_command` splits its argument, and how much of the
-- caller's four bytes it writes.
use rpv_platforms_evt_driven.Base.{ℕ, ◌+◌, ◌≡◌, ◌≢◌, refl, arith, List, [], ◌∷◌, ◌++◌, length}
use rpv_platforms_evt_driven.Wheels.{whl_command}

-- No character of the word is a colon.
pub data IsWord : List ℕ → Type 0 where
  no_more : IsWord []
  a_char : {c : ℕ} {s : List ℕ} → c ≢ b':' → IsWord s → IsWord (c ∷ s)

-- A word and an argument behind a colon are split there; the word is written with a NUL behind it,
-- which is one byte more than the word has, whatever room there is.
pub whl_command_lem :
    {word : List ℕ} (arg : List ℕ)
    → IsWord word
    → let (written, found) = whl_command (word ++ (b':' ∷ arg)) in
      (written ≡ word ++ (0 ∷ [])) × (found ≡ arg) × (length written ≡ length word + 1)
unfolding whl_command
whl_command_lem arg no_more = (refl, refl, refl)
whl_command_lem arg (a_char {c} {s} other word) =
    let rest = whl_command_lem arg word in
    (ground (arith, rest.0), ground (arith, rest.1), ground (arith, rest.2))
