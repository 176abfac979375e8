-- ===== src/Uart/Ring/Refine.antt =====
-- A valid ring behaves as a queue of at most seven bytes that drops its oldest byte when full.
use rpv_platforms_evt_driven.Base.{
  ℕ, zero, suc, ◌+◌, ◌-◌, ◌%◌, ◌<◌, ◌≡◌, ◌≢◌, refl, ap, ap₂, arith, List, [], ◌∷◌, ◌++◌, ◌==◌,
  if◌then◌else◌, length, get_or, set, get_or-set_self, get_or-set_ne, length-set, drop, sym, ◌∙◌,
  dec_lt,
}
use rpv_platforms_evt_driven.Base.Index.{next_index}
use rpv_platforms_evt_driven.Uart.Ring.{Ring, ring_size, put_char, read_char}

pub record IsValid (r : Ring) : Type 0 where
  pub storage : length r.buf ≡ ring_size
  pub head_in : r.head < ring_size
  pub tail_in : r.tail < ring_size

-- The `n` bytes from index `h` on, going round.
abbrev pub window : List ℕ → ℕ → ℕ → List ℕ
window buf h zero = []
window buf h (suc n) = get_or buf h 0 ∷ window buf ((h + 1) % ring_size) n

abbrev pub count : Ring → ℕ
count r = (r.tail + ring_size - r.head) % ring_size

-- The bytes that wait, oldest first.
abbrev pub contents : Ring → List ℕ
contents r = window r.buf r.head (count r)

-- The queue that the ring stands for.
unfoldable pub push : List ℕ → ℕ → List ℕ
push q c = (if length q == ring_size - 1 then drop 1 q else q) ++ (c ∷ [])

unfoldable pub pop : List ℕ → ℕ × List ℕ
pop [] = (0, [])
pop (x ∷ q) = (x, q)

pub length-window : (buf : List ℕ) (h n : ℕ) → length (window buf h n) ≡ n
length-window buf h zero = refl
length-window buf h (suc n) = ap suc (length-window buf ((h + 1) % ring_size) n)

-- Writing the byte just past a window extends it.
window-set :
    (buf : List ℕ) (c h n i : ℕ)
    → length buf ≡ ring_size
    → h < ring_size
    → n < ring_size
    → i ≡ (h + n) % ring_size
    → window (set buf i c) h (suc n) ≡ window buf h n ++ (c ∷ [])
window-set buf c h zero i hs hh hn e = ap₂ ◌∷◌ (get_or-set_self') refl
  where
    get_or-set_self' : get_or (set buf i c) h 0 ≡ c
    get_or-set_self' =
        let e' : i ≡ h = omega arith in rw e' (get_or-set_self buf h c 0 (omega arith))
window-set buf c h (suc n) i hs hh hn e =
    ap₂ ◌∷◌ (get_or-set_ne buf i h c 0 (omega arith))
      (window-set buf c ((h + 1) % ring_size) n i hs (omega arith) (omega arith) (omega arith))

pub put_char-IsValid : {r : Ring} (c : ℕ) → IsValid r → IsValid (put_char r c)
unfolding put_char next_index
put_char-IsValid {r} c v = ground (arith, length-set r.buf r.tail c)

pub read_char-IsValid : {r : Ring} → IsValid r → IsValid (read_char r).1
unfolding read_char next_index
read_char-IsValid v = ground arith

pub length-contents : (r : Ring) → length (contents r) ≡ count r
length-contents r = length-window r.buf r.head (count r)

module _ {r : Ring} (c : ℕ) (v : IsValid r) where
  pub put_char-room :
      count r < 7
      → put_char r c
        ≡ record { buf = set r.buf r.tail c; head = r.head; tail = (r.tail + 1) % ring_size }
  unfolding put_char next_index
  put_char-room room = ground arith

  pub put_char-full :
      count r ≡ 7
      → put_char r c ≡ record {
        buf = set r.buf r.tail c;
        head = (r.head + 1) % ring_size;
        tail = (r.tail + 1) % ring_size;
      }
  unfolding put_char next_index
  put_char-full full = ground arith

  -- With room the byte is appended.
  contents-room : count r < 7 → contents (put_char r c) ≡ contents r ++ (c ∷ [])
  contents-room room = rw (put_char-room room) (
      ap (window (set r.buf r.tail c) r.head) {y = suc (count r)} (omega arith)
      ∙ window-set r.buf c r.head (count r) r.tail v.storage v.head_in (omega arith) (omega arith))

  -- At a full ring the oldest byte goes first.
  contents-full : count r ≡ 7 → contents (put_char r c) ≡ drop 1 (contents r) ++ (c ∷ [])
  contents-full full = rw (put_char-full full) (
      ap (window (set r.buf r.tail c) ((r.head + 1) % ring_size)) {y = 7} (omega arith)
      ∙ window-set r.buf c ((r.head + 1) % ring_size) 6 r.tail v.storage (omega arith) (omega arith)
          (omega arith)
      ∙ ap (λ n. drop 1 (window r.buf r.head n) ++ (c ∷ [])) {x = 7} {y = count r} (sym full))

  -- A received byte is queued behind those that wait; at seven of them the oldest is lost.
  pub put_char-push : contents (put_char r c) ≡ push (contents r) c
  unfolding push
  put_char-push = elim (dec_lt (count r) 7) [
    | yes room ↦ rw (contents-room room) (ground (arith, length-window r.buf r.head (count r)))
    | no full ↦
        rw (contents-full (omega arith)) (ground (arith, length-window r.buf r.head (count r)))
  ]

-- `window` matches on `suc`, the code tests `head == tail`.
window_of_pos :
    (buf : List ℕ) (h n : ℕ)
    → n ≢ 0
    → window buf h n ≡ get_or buf h 0 ∷ window buf ((h + 1) % ring_size) (n - 1)
window_of_pos buf h zero p = absurd (p refl)
window_of_pos buf h (suc n) p = ap (λ k. window buf h (suc k)) (omega arith)

-- A read takes the oldest byte, and gives `'\0'` and changes nothing when none waits.
pub read_char-pop :
    {r : Ring} → IsValid r → let (c, r') = read_char r in (c, contents r') ≡ pop (contents r)
unfolding read_char next_index pop
read_char-pop {r} v = ground (arith, window_of_pos r.buf r.head (count r))

-- The two parts of a read, at known contents.
pub read_char-contents :
    {r : Ring} (q : List ℕ)
    → IsValid r
    → contents r ≡ q
    → ((read_char r).0 ≡ (pop q).0) × (contents (read_char r).1 ≡ (pop q).1)
read_char-contents q v e = (
  ap (λ p. p.0) (read_char-pop v) ∙ ap (λ l. (pop l).0) e,
  ap (λ p. p.1) (read_char-pop v) ∙ ap (λ l. (pop l).1) e,
)
