-- ===== src/Uart/Xuart/Service.antt =====
-- The service empties the ring up to the first NUL, and always ends.
use rpv_platforms_evt_driven.Base.{
  ℕ, zero, suc, ◌<◌, ◌≡◌, refl, arith, List, [], ◌∷◌, ◌==◌, if◌then◌else◌, length, Option, some,
  Bool-cases, inl, inr,
}
use rpv_platforms_evt_driven.Uart.Ring.{Ring, ring_size, read_char}
use rpv_platforms_evt_driven.Uart.Ring.Refine.{
  IsValid, contents, pop, read_char-contents, read_char-IsValid, length-contents,
}
use rpv_platforms_evt_driven.Uart.Xuart.{service_loop, service}

-- The bytes before the first NUL, and those behind it.
unfoldable pub split_nul : List ℕ → List ℕ × List ℕ
split_nul [] = ([], [])
split_nul (c ∷ q) = let (keys, rest) = split_nul q in if c == 0 then ([], q) else (c ∷ keys, rest)

-- What a run of the service publishes and leaves.
pub record Served (q : List ℕ) (o : Option (List ℕ × Ring)) : Type 0 where
  pub keys : List ℕ
  pub ring : Ring
  pub ends : o ≡ some (keys, ring)
  pub valid : IsValid ring
  pub split : (keys, contents ring) ≡ split_nul q

service_loop-Served :
    (f : ℕ) (q : List ℕ) {r : Ring}
    → IsValid r
    → contents r ≡ q
    → length q < f
    → Served q (service_loop f r)
unfolding service_loop split_nul pop
service_loop-Served zero q v e h = absurd (omega arith)
service_loop-Served (suc f) [] {r} v e h =
    let (c0, rest) = read_char-contents [] v e in
    record {
      keys = [];
      ring = (read_char r).1;
      ends = rw c0;
      valid = read_char-IsValid v;
      split = rw rest;
    }
service_loop-Served (suc f) (c ∷ q) {r} v e h =
    let (c0, rest) = read_char-contents (c ∷ q) v e in
    let ih : Served q (service_loop f (read_char r).1) =
      service_loop-Served f q (read_char-IsValid v) rest (omega arith) in
    elim (Bool-cases (c == 0)) [
      | inl nul ↦ record {
        keys = [];
        ring = (read_char r).1;
        ends = rw (c0, nul);
        valid = read_char-IsValid v;
        split = rw (nul, rest);
      }
      | inr key ↦ record {
        keys = c ∷ ih.keys;
        ring = ih.ring;
        ends = ground (arith, ih.ends);
        valid = ih.valid;
        split = rw key (cc (ih.split));
      }
    ]

-- From a valid ring the service ends; it publishes, in order, the bytes that wait before the first
-- NUL, and leaves those behind it.
pub service-Served : {r : Ring} → IsValid r → Served (contents r) (service r)
unfolding service
service-Served {r} v =
    service_loop-Served ring_size (contents r) v refl (omega (arith, length-contents r))
