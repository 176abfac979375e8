-- ===== src/Sec/Hash.antt =====
-- The hash stays in its block.
use rpv_platforms_evt_driven.Base.{ℕ, zero, suc, ◌+◌, ◌*◌, ◌%◌, ◌^◌, ◌<◌, ◌≤◌, ◌≡◌, refl, arith}
use native.Mathlib.Nat.{mod-lt}
use rpv_platforms_evt_driven.Sec.{
  put_byte, init_loop, mix_byte, mix_loop, final_byte, final_loop, sec_hash,
}

-- The first `k` bytes of `h` are bytes, and from `size` on it is `h0`.
pub record IsHash (size k : ℕ) (h0 h : ℕ → ℕ) : Type 0 where
  pub bytes : (j : ℕ) → j < k → h j < 2 ^ 8
  pub behind : (j : ℕ) → size ≤ j → h j ≡ h0 j

put_byte-IsHash :
    (size k : ℕ) (h0 h : ℕ → ℕ) (at v : ℕ)
    → at < size
    → IsHash size k h0 h
    → IsHash size k h0 (put_byte h at v)
put_byte-IsHash size k h0 h at v l is = record {
  bytes = λ j b. ground (arith, is.bytes j b);
  behind = λ j b. ground (arith, is.behind j b);
}

init_loop-IsHash :
    (size n i : ℕ) (h0 h : ℕ → ℕ)
    → i + n ≡ size
    → IsHash size i h0 h
    → IsHash size size h0 (init_loop n i h)
unfolding init_loop
init_loop-IsHash size zero i h0 h e is = record {
  bytes = λ j b. is.bytes j (omega arith);
  behind = is.behind;
}
init_loop-IsHash size (suc n) i h0 h e is =
    init_loop-IsHash size n (suc i) h0 (put_byte h i (i * 31 + 17)) (omega arith) (record {
      bytes = λ j b. ground (arith, is.bytes j);
      behind = λ j b. ground (arith, is.behind j b);
    })

mix_byte-IsHash :
    (size b i : ℕ) (h0 h : ℕ → ℕ)
    → 0 < size
    → IsHash size size h0 h
    → IsHash size size h0 (mix_byte size b i h)
unfolding mix_byte
mix_byte-IsHash size b i h0 h some_byte is =
    put_byte-IsHash size size h0 _ _ _ (mod-lt (i % size + 1) some_byte) (
      put_byte-IsHash size size h0 _ _ _ (mod-lt i some_byte)
        (put_byte-IsHash size size h0 _ _ _ (mod-lt i some_byte) is))

mix_loop-IsHash :
    (size : ℕ) (region : ℕ → ℕ) (n i : ℕ) (h0 h : ℕ → ℕ)
    → 0 < size
    → IsHash size size h0 h
    → IsHash size size h0 (mix_loop size region n i h)
unfolding mix_loop
mix_loop-IsHash size region zero i h0 h some_byte is = is
mix_loop-IsHash size region (suc n) i h0 h some_byte is =
    mix_loop-IsHash size region n (suc i) h0 (mix_byte size (region i) i h) some_byte
      (mix_byte-IsHash size (region i) i h0 h some_byte is)

final_loop-IsHash :
    (size n i : ℕ) (h0 h : ℕ → ℕ)
    → i + n ≡ size
    → IsHash size size h0 h
    → IsHash size size h0 (final_loop size n i h)
unfolding final_loop final_byte
final_loop-IsHash size zero i h0 h e is = is
final_loop-IsHash size (suc n) i h0 h e is =
    final_loop-IsHash size n (suc i) h0 (final_byte size i h) (omega arith) (
      put_byte-IsHash size size h0 _ i _ (omega arith)
        (put_byte-IsHash size size h0 h i _ (omega arith) is))

-- For every region and every size of the hash but 0, the bytes of the hash are below 256, and no byte
-- behind it is written.
pub sec_hash-IsHash :
    (region : ℕ → ℕ) (region_size : ℕ) (hash : ℕ → ℕ) (hash_size : ℕ)
    → 0 < hash_size
    → IsHash hash_size hash_size hash (sec_hash region region_size hash hash_size)
unfolding sec_hash
sec_hash-IsHash region region_size hash hash_size some_byte =
    final_loop-IsHash hash_size hash_size 0 hash _ (omega arith) (
      mix_loop-IsHash hash_size region region_size 0 hash _ some_byte (
        init_loop-IsHash hash_size hash_size 0 hash hash (omega arith)
          (record { bytes = λ j b. absurd (omega arith); behind = λ j b. refl })))
