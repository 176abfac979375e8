-- ===== src/Sec/Store.antt =====
-- The secure store, and the proof of the protected code.
use rpv_platforms_evt_driven.Base.{
  ℕ, ◌≡◌, refl, arith, ltb, leb, ◌==◌, if◌then◌else◌, ◌&&◌, Bool, true, false, zero, suc,
}
use rpv_platforms_evt_driven.Sec.{
  Sec, store_read, store_write, memcmp_is_zero, sec_verify, memcpy, region_size,
}

-- A write of `n` bytes to a block, and a read of `m` bytes of a block behind it, each succeed exactly
-- if the block is one of the two and the size at most that of a hash. The bytes read are those written
-- if both name the same block and the write succeeded, those of the store before elsewhere, and the
-- destination is as before behind `m` bytes and when the read is refused.
pub store_read-store_write :
    {A : Type 0} (hash_size u n v m : ℕ) (src dst : ℕ → ℕ) (s : Sec A) (i : ℕ)
    → let (wrote, s') = store_write hash_size u src n s in
      let (got, out) = store_read hash_size v dst m s' in
      (wrote ≡ (leb u 1 && leb n hash_size))
      × (got ≡ (leb v 1 && leb m hash_size))
      × (out i ≡ (
          if got && ltb i m
          then (if wrote && ((v == u) && ltb i n) then src i else s.secure_store v i)
          else dst i))
unfolding store_read store_write
store_read-store_write hash_size u n v m src dst s i = ground arith

memcmp_is_zero-same : (n : ℕ) (a : ℕ → ℕ) → memcmp_is_zero n a a ≡ true
unfolding memcmp_is_zero
memcmp_is_zero-same zero a = refl
memcmp_is_zero-same (suc n) a = ground (arith, memcmp_is_zero-same n a)

-- Whatever the protected code is, a proof is given exactly for its own address, and it is the code.
pub sec_verify_lem :
    {A : Type 0} (proof : ℕ → ℕ) (is_code : Bool) (proof_size : ℕ) (s : Sec A)
    → sec_verify proof is_code proof_size s
      ≡ (is_code, (if is_code then memcpy proof s.protected_code proof_size else proof))
unfolding sec_verify
sec_verify_lem proof true proof_size s = rw (memcmp_is_zero-same region_size s.protected_code) refl
sec_verify_lem proof false proof_size s = refl
