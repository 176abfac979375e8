-- ===== src/Sec.antt =====
-- src/arch/mb_le/services/sec_service.c: the service around the security runtime, which is a
-- submodule, and what the runtime calls of it.
pub mod Store
pub mod Hash
pub mod Run
pub mod Tests
use rpv_platforms_evt_driven.Base.{
  ℕ, zero, suc, ◌+◌, ◌*◌, ◌/◌, ◌%◌, ◌^◌, ◌==◌, ltb, leb, if◌then◌else◌, Bool, true, false, not,
  ◌&&◌, Option, none, some, List, ◌∷◌, bit_xor,
}

-- `secsvc_reg`
abbrev pub sec_svc_run : ℕ
sec_svc_run = 0

abbrev pub sec_svc_bind : ℕ
sec_svc_bind = 1

abbrev pub region_size : ℕ
region_size = 1024

pub data SecNote : Type 0 where
  breach_detected in_progress : SecNote

-- The statics of the service, with the state of the runtime. Newest message first.
pub record Sec (Rt : Type 0) : Type 0 where
  pub rt : Rt
  pub reg : ℕ
  pub secure_store : (blck_uid i : ℕ) → ℕ
  pub protected_code : ℕ → ℕ
  pub notes : List SecNote

-- What the service calls of the runtime; `_sec_runtime` is given `_sec_recovery`, which it may call.
-- `seed_r` is what the timers and the address of a local make of the seed.
pub record SecRt : Type 1 where
  pub Rt : Type 0
  pub seed_r : Sec Rt → ℕ
  pub prngseed : ℕ → Rt → Rt
  pub context : (code : ℕ → ℕ) (size : ℕ) → Rt → Rt
  pub runtime : (recovery : Sec Rt → Option (Sec Rt)) → Sec Rt → Option (Sec Rt)
  pub genprngseq : (size : ℕ) → Rt → (ℕ → ℕ) × Rt

-- `memcpy`
abbrev pub memcpy : (dst src : ℕ → ℕ) (n : ℕ) → ℕ → ℕ
memcpy dst src n i = if ltb i n then src i else dst i

-- `SEC_HASH_SIZE` is of the submodule.
abbrev pub is_blckvalid : (hash_size blck_uid blck_size : ℕ) → Bool
is_blckvalid hash_size blck_uid blck_size = leb blck_uid 1 && leb blck_size hash_size

module _ {A : Type 0} (hash_size : ℕ) where
  -- `_sec_storeread`: its answer, and the bytes at `blck` after it.
  unfoldable pub store_read : (blck_uid : ℕ) (blck : ℕ → ℕ) (blck_size : ℕ) → Sec A → Bool × (ℕ → ℕ)
  store_read blck_uid blck blck_size s =
      if is_blckvalid hash_size blck_uid blck_size
      then (true, memcpy blck (s.secure_store blck_uid) blck_size)
      else (false, blck)

  -- `_sec_storewrite`
  unfoldable pub store_write : (blck_uid : ℕ) (blck : ℕ → ℕ) (blck_size : ℕ) → Sec A → Bool × Sec A
  store_write blck_uid blck blck_size s =
      if is_blckvalid hash_size blck_uid blck_size
      then (
        true,
        record s {
          secure_store = λ u.
              if u == blck_uid then memcpy (s.secure_store u) blck blck_size else s.secure_store u;
        },
      )
      else (false, s)

-- `memcmp` of `n` bytes is 0.
unfoldable pub memcmp_is_zero : (n : ℕ) (a b : ℕ → ℕ) → Bool
memcmp_is_zero zero a b = true
memcmp_is_zero (suc n) a b = memcmp_is_zero n a b && (a n == b n)

-- `_sec_verify`: `is_code` says whether the pointer is that of the protected code. Its answer, and the
-- bytes of the proof.
unfoldable pub sec_verify :
    {A : Type 0} (region_proof : ℕ → ℕ) (is_code : Bool) (proof_size : ℕ) → Sec A → Bool × (ℕ → ℕ)
sec_verify region_proof is_code proof_size s =
    if not is_code
    then (false, region_proof)
    else if not (memcmp_is_zero region_size s.protected_code s.protected_code)
    then (false, region_proof)
    else (true, memcpy region_proof s.protected_code proof_size)

module _ (sr : SecRt) where
  -- `_sec_nonce`
  unfoldable pub sec_nonce :
      (nonce : ℕ → ℕ) (nonce_size : ℕ) → Sec sr.Rt → Bool × (ℕ → ℕ) × Sec sr.Rt
  sec_nonce nonce nonce_size s =
      let (bytes, rt) = sr.genprngseq nonce_size s.rt in
      (true, memcpy nonce bytes nonce_size, record s { rt = rt })

  -- `SEC_SVC_BIND`, before the service calls itself
  unfoldable pub bind_case : Sec sr.Rt → Sec sr.Rt
  bind_case s =
      let code = memcpy s.protected_code (λ i. (i + 1) % 2 ^ 8) region_size in
      let s' = record s { protected_code = code } in
      record s' {
        rt = sr.context code region_size (sr.prngseed (sr.seed_r s') s.rt);
        reg = sec_svc_run;
      }

  -- `_sec_recovery`, with the call of the service
  unfoldable pub recovery :
      (again : Sec sr.Rt → Option (Sec sr.Rt)) → Sec sr.Rt → Option (Sec sr.Rt)
  recovery again s =
      again (record s { notes = in_progress ∷ breach_detected ∷ s.notes; reg = sec_svc_bind })

  -- `sec_service`, on fuel for its calls of itself.
  unfoldable pub sec_service : (fuel : ℕ) → Sec sr.Rt → Option (Sec sr.Rt)
  sec_service zero s = none
  sec_service (suc n) s =
      let bound = sec_service n (bind_case s) in
      let run = sr.runtime (λ v. recovery (λ w. sec_service n w) v) s in
      let recovered = recovery (λ w. sec_service n w) s in
      if s.reg == sec_svc_bind then bound else if s.reg == sec_svc_run then run else recovered

-- `_sec_hash`: a byte of the block is stored.
abbrev pub put_byte : (ℕ → ℕ) → (k v : ℕ) → ℕ → ℕ
put_byte h k v i = if i == k then v % 2 ^ 8 else h i

-- Its three loops, with `n` rounds left.
unfoldable pub init_loop : (n i : ℕ) → (ℕ → ℕ) → ℕ → ℕ
init_loop zero i h = h
init_loop (suc n) i h = init_loop n (suc i) (put_byte h i (i * 31 + 17))

unfoldable pub mix_byte : (hash_size : ℕ) (b i : ℕ) → (ℕ → ℕ) → ℕ → ℕ
mix_byte hash_size b i h =
    let hash_i = i % hash_size in
    let h1 = put_byte h hash_i (bit_xor (h hash_i) (b + i % 2 ^ 8)) in
    let h2 = put_byte h1 hash_i (h1 hash_i * 2 ^ 5 + h1 hash_i / 2 ^ 3) in
    let next = (hash_i + 1) % hash_size in put_byte h2 next (bit_xor (h2 next) (b * 3))

unfoldable pub mix_loop : (hash_size : ℕ) (region : ℕ → ℕ) (n i : ℕ) → (ℕ → ℕ) → ℕ → ℕ
mix_loop hash_size region zero i h = h
mix_loop hash_size region (suc n) i h =
    mix_loop hash_size region n (suc i) (mix_byte hash_size (region i) i h)

unfoldable pub final_byte : (hash_size : ℕ) (i : ℕ) → (ℕ → ℕ) → ℕ → ℕ
final_byte hash_size i h =
    let h1 = put_byte h i (bit_xor (h i) (h ((i + 7) % hash_size))) in
    put_byte h1 i (h1 i * 2 ^ 3 + h1 i / 2 ^ 5)

unfoldable pub final_loop : (hash_size : ℕ) (n i : ℕ) → (ℕ → ℕ) → ℕ → ℕ
final_loop hash_size zero i h = h
final_loop hash_size (suc n) i h = final_loop hash_size n (suc i) (final_byte hash_size i h)

-- `_sec_hash`
unfoldable pub sec_hash : (region : ℕ → ℕ) (region_size : ℕ) (hash : ℕ → ℕ) (hash_size : ℕ) → ℕ → ℕ
sec_hash region region_size hash hash_size =
    final_loop hash_size hash_size 0
      (mix_loop hash_size region region_size 0 (init_loop hash_size 0 hash))
