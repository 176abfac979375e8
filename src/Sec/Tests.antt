-- ===== src/Sec/Tests.antt =====
-- A runtime that recovers when it finds the protected code changed, and uses of the theorems.
use rpv_platforms_evt_driven.Base.{
  ℕ, ◌+◌, ◌≤◌, ◌≡◌, refl, arith, ◌==◌, if◌then◌else◌, true, Option, none, some, [],
}
use rpv_platforms_evt_driven.Sec.{
  Sec, SecRt, sec_svc_run, sec_service, recovery, bind_case, store_read, store_write, sec_hash,
  init_loop, mix_loop, mix_byte, final_loop, final_byte,
}
use rpv_platforms_evt_driven.Sec.Store.{store_read-store_write}
use rpv_platforms_evt_driven.Sec.Hash.{IsHash, sec_hash-IsHash}
use rpv_platforms_evt_driven.Sec.Run.{Entered, sec_service-Entered}

-- It counts its calls and looks at the first byte of the code.
abbrev watcher : SecRt
watcher = record {
  Rt = ℕ;
  seed_r = λ s. 7;
  prngseed = λ seed rt. rt;
  context = λ code size rt. rt;
  runtime = λ recovery s.
      if s.protected_code 0 == 1 then some (record s { rt = s.rt + 1 }) else recovery s;
  genprngseq = λ size rt. ((λ i. rt), rt);
}

-- The first byte was overwritten while the service ran.
abbrev tampered : Sec ℕ
tampered = record {
  rt = 0;
  reg = sec_svc_run;
  secure_store = λ u i. 0;
  protected_code = λ i. 9;
  notes = [];
}

-- A state register that was overwritten.
abbrev lost : Sec ℕ
lost = record tampered { reg = 77 }

sec_service-Entered_example :
    (k : ℕ) × (v : Sec ℕ) × (0 ≤ k)
    × (sec_service watcher 3 lost
        ≡ watcher.runtime (λ w. recovery watcher (λ x. sec_service watcher k x) w) v)
    × Entered watcher lost v
sec_service-Entered_example = sec_service-Entered watcher 0 lost

abbrev code_at : ℕ → Option (Sec ℕ) → ℕ
code_at i none = 0
code_at i (some t) = t.protected_code i

recovers : code_at 4 (sec_service watcher 3 lost) ≡ 5
unfolding sec_service recovery bind_case
recovers = refl

-- Three bytes are written to block 1, and four bytes of it are read.
store_read-store_write_example :
    let (wrote, s') = store_write 16 1 (λ i. i + 5) 3 tampered in
    let (got, out) = store_read 16 1 (λ i. 8) 4 s' in (wrote ≡ true) × (got ≡ true) × (out 2 ≡ 7)
unfolding store_read store_write
store_read-store_write_example = store_read-store_write 16 1 3 1 4 (λ i. i + 5) (λ i. 8) tampered 2

sec_hash-IsHash_example : IsHash 4 4 (λ i. 300) (sec_hash (λ i. i) 100 (λ i. 300) 4)
sec_hash-IsHash_example = sec_hash-IsHash (λ i. i) 100 (λ i. 300) 4 (omega arith)

-- The first byte of the hash of three bytes, in a block of two.
abbrev three : ℕ → ℕ
three i = i + 1

hash_run : (sec_hash three 3 (λ i. 0) 2 0 ≡ 121) × (sec_hash three 3 (λ i. 0) 2 1 ≡ 179)
unfolding sec_hash init_loop mix_loop mix_byte final_loop final_byte
hash_run = (refl, refl)
