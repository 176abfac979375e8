-- ===== src/Keyb/Decode.antt =====
-- The lookup of a scan code and of its key stay inside the tables.
use rpv_platforms_evt_driven.Base.{
  ℕ, suc, zero, ◌+◌, ◌≤◌, ◌<◌, ◌≡◌, ◌≢◌, refl, ap, ◌∙◌, arith, Bool, true, ◌&&◌, ◌==◌, List, [],
  ◌∷◌, length, get_or, ◌⊎◌, inl, inr, Bool-cases, ==_iff, ◌-◌, ℕ_discrete,
}
use rpv_platforms_evt_driven.Keyb.{KeybState, decode_from, scan_code_decode, key_index}
use rpv_platforms_evt_driven.Keyb.Tables.{make, keys}

-- Where a search that started at `index` ended.
record FoundAt (codes : List ℕ) (index c result : ℕ) : Type 0 where
  not_before : index ≤ result
  in_list : result < index + length codes
  is_code : get_or codes (result - index) 0 ≡ c

FoundAt-suc :
    {codes : List ℕ} {index c result : ℕ} (d : ℕ)
    → FoundAt codes (index + 1) c result
    → FoundAt (d ∷ codes) index c result
FoundAt-suc {codes} {index} {c} {result} d h = record {
  not_before = omega (arith, h.not_before);
  in_list = omega (arith, h.in_list);
  is_code =
      ap (λ i. get_or (d ∷ codes) i 0) {y = suc (result - (index + 1))}
        (omega (arith, h.not_before))
      ∙ h.is_code;
}

decode_from_lem :
    (codes : List ℕ) (index c : ℕ)
    → (decode_from codes index c ≡ 0xff) ⊎ FoundAt codes index c (decode_from codes index c)
unfolding decode_from
decode_from_lem [] index c = inl refl
decode_from_lem (d ∷ codes) index c = elim (Bool-cases (d == c)) [
  | inl same ↦ rw same (
      inr (record {
        not_before = omega arith;
        in_list = omega arith;
        is_code = ap (λ i. get_or (d ∷ codes) i 0) {y = 0} (omega arith) ∙ (==_iff d c).0 same;
      }))
  | inr other ↦ rw other (elim (decode_from_lem codes (index + 1) c) [
    | inl none ↦ inl none
    | inr found ↦ inr (FoundAt-suc d found)
  ])
]

-- The decoder answers 0xff or the index of the scan code in `Make`.
pub scan_code_decode_lem :
    (c : ℕ)
    → (scan_code_decode c ≡ 0xff)
      ⊎ ((scan_code_decode c < length make) × (get_or make (scan_code_decode c) 0 ≡ c))
unfolding scan_code_decode
scan_code_decode_lem c = elim (decode_from_lem make 0 c) [
  | inl none ↦ inl none
  | inr found ↦ inr (
    found.in_list,
    ap (λ i. get_or make i 0) {x = decode_from make 0 c} {y = decode_from make 0 c - 0}
          (omega arith)
        ∙ found.is_code,
  )
]

-- The index of the key of a scan code that the decoder knows, shifted or not, is inside `Keys`.
pub key_index-lt :
    (c : ℕ) (s : KeybState)
    → scan_code_decode c ≢ 0xff
    → key_index (scan_code_decode c) s < length keys
key_index-lt c s known = elim (scan_code_decode_lem c) [
  | inl none ↦ absurd (known none)
  | inr found ↦ ground (arith, found.0)
]

-- All tests below `n`.
abbrev all_below : ℕ → (ℕ → Bool) → Bool
all_below zero test = true
all_below (suc n) test = test n && all_below n test

all_below_lem :
    (n : ℕ) (test : ℕ → Bool) → all_below n test ≡ true → (i : ℕ) → i < n → test i ≡ true
all_below_lem zero test h i b = absurd (omega arith)
all_below_lem (suc n) test h i b = elim (Bool-cases (test n)) [
  | inr fails ↦ absurd (ground (arith, h, fails))
  | inl holds ↦ elim (ℕ_discrete i n) [
    | yes last ↦ rw last holds
    | no other ↦ all_below_lem n test (ground (arith, h, holds)) i (omega (arith, other))
  ]
]

-- The decoder finds each scan code of `Make` at its own index.
pub scan_code_decode-make : (i : ℕ) → i < length make → scan_code_decode (get_or make i 0) ≡ i
unfolding scan_code_decode decode_from
scan_code_decode-make i b =
    (==_iff (scan_code_decode (get_or make i 0)) i).0
      (all_below_lem (length make) (λ j. scan_code_decode (get_or make j 0) == j) refl i b)
