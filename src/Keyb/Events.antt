-- ===== src/Keyb/Events.antt =====
-- The event of a key against the two halves of the table `Keys`, read side by side with `Make`.
use rpv_platforms_evt_driven.Base.{
  ℕ, zero, suc, ◌+◌, ◌≤◌, ◌<◌, ◌≡◌, ◌⊎◌, inl, inr, refl, sym, ap, ◌∙◌, arith, Bool, true, false,
  ◌==◌, if◌then◌else◌, Bool-cases, List, [], ◌∷◌, length, get_or, drop, Option, none, some,
}
use rpv_platforms_evt_driven.Keyb.{
  KeybState, ConsoleKey, key_event, key_code, scan_code_decode, decode_from,
}
use rpv_platforms_evt_driven.Keyb.Tables.{make, keys}

-- The text beside a scan code, in two lists side by side.
abbrev pub text_of : (codes : List ℕ) (texts : List (List ℕ)) (c : ℕ) → Option (List ℕ)
text_of [] texts c = none
text_of (d ∷ codes) [] c = none
text_of (d ∷ codes) (t ∷ texts) c =
    let rest = text_of codes texts c in if d == c then some t else rest

-- The character of a key; a key with a name has none.
abbrev pub char_of : List ℕ → ℕ
char_of [] = 0
char_of (c ∷ []) = c
char_of (c ∷ d ∷ s) = 0

-- The keys with a shift key down: those behind the first 85.
abbrev pub texts_under : (lshift_down rshift_down : Bool) → List (List ℕ)
texts_under true rshift_down = drop 85 keys
texts_under false true = drop 85 keys
texts_under false false = keys

-- The event of a press: none for an unknown scan code.
abbrev pub typed_key : (c : ℕ) → Option (List ℕ) → List ConsoleKey
typed_key c none = []
typed_key c (some text) = record { code = char_of text; scan_code = c } ∷ []

key_code-char_of : (text : List ℕ) → key_code text ≡ char_of text
unfolding key_code
key_code-char_of [] = refl
key_code-char_of (c ∷ []) = refl
key_code-char_of (c ∷ d ∷ s) = ground arith

get_or-drop : (n : ℕ) (xs : List (List ℕ)) (i : ℕ) → get_or (drop n xs) i [] ≡ get_or xs (i + n) []
get_or-drop zero xs i = ap (λ j. get_or xs j []) (omega arith)
get_or-drop (suc n) [] i = refl
get_or-drop (suc n) (x ∷ xs) i =
    get_or-drop n xs i ∙ ap (λ j. get_or (x ∷ xs) j []) {x = suc (i + n)} (omega arith)

-- Where the decoder finds a scan code, and the text beside it.
record Beside (codes : List ℕ) (texts : List (List ℕ)) (index c : ℕ) : Type 0 where
  place : ℕ
  in_list : place < length codes
  at_place : decode_from codes index c ≡ index + place
  beside : text_of codes texts c ≡ some (get_or texts place [])

decode_from-text_of :
    (codes : List ℕ) (texts : List (List ℕ)) (index c : ℕ)
    → length codes ≤ length texts
    → ((decode_from codes index c ≡ 0xff) × (text_of codes texts c ≡ none))
      ⊎ Beside codes texts index c
unfolding decode_from
decode_from-text_of [] texts index c long = inl (refl, refl)
decode_from-text_of (d ∷ codes) [] index c long = absurd (omega arith)
decode_from-text_of (d ∷ codes) (t ∷ texts) index c long = elim (Bool-cases (d == c)) [
  | inl same ↦ inr (record {
    place = 0;
    in_list = omega arith;
    at_place = rw same (omega arith);
    beside = rw same refl;
  })
  | inr other ↦ elim (decode_from-text_of codes texts (index + 1) c (omega arith)) [
    | inl gone ↦ inl (rw other (gone.0), rw other (gone.1))
    | inr found ↦ inr (record {
      place = suc found.place;
      in_list = omega (arith, found.in_list);
      at_place = rw other (found.at_place ∙ omega arith);
      beside = rw other (found.beside);
    })
  ]
]

-- The event of a press, with the texts from `offset` on.
half_event :
    (c offset : ℕ) (texts : List (List ℕ))
    → length make ≤ length (drop offset texts)
    → (if scan_code_decode c == 0xff
        then []
        else (record {
          code = key_code (get_or texts (scan_code_decode c + offset) []);
          scan_code = c;
        }
            ∷ []))
      ≡ typed_key c (text_of make (drop offset texts) c)
unfolding scan_code_decode
half_event c offset texts long = elim (decode_from-text_of make (drop offset texts) 0 c long) [
  | inl gone ↦
      let unknown : (scan_code_decode c == 0xff) ≡ true = ap (λ n. n == 0xff) gone.0 in
      rw (unknown, gone.1) refl
  | inr found ↦
      let place = found.place in
      let index : scan_code_decode c ≡ place = found.at_place ∙ omega arith in
      let known : (scan_code_decode c == 0xff) ≡ false = ground (arith, index, found.in_list) in
      let code : key_code (get_or texts (scan_code_decode c + offset) [])
          ≡ char_of (get_or (drop offset texts) place []) =
        ap (λ n. key_code (get_or texts (n + offset) [])) index
        ∙ key_code-char_of (get_or texts (place + offset) [])
        ∙ ap char_of (sym (get_or-drop offset texts place)) in
      rw (known, found.beside) (ap (λ k. record { code = k; scan_code = c } ∷ []) code)
]

-- The event of the key of a scan code has the character beside it in the half of the table for the
-- shift keys, and the scan code.
pub key_event-typed_key :
    (c : ℕ) (s : KeybState)
    → key_event c s ≡ typed_key c (text_of make (texts_under s.lshift_holds s.rshift_holds) c)
unfolding key_event
key_event-typed_key c s = by_shift s.lshift_holds s.rshift_holds
  where
    by_shift :
        (l r : Bool)
        → key_event c (record s { lshift_holds = l; rshift_holds = r })
          ≡ typed_key c (text_of make (texts_under l r) c)
    by_shift true true = half_event c 85 keys (omega arith)
    by_shift true false = half_event c 85 keys (omega arith)
    by_shift false true = half_event c 85 keys (omega arith)
    by_shift false false = half_event c 0 keys (omega arith)
