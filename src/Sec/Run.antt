-- ===== src/Sec/Run.antt =====
-- How the service comes to call the runtime.
use rpv_platforms_evt_driven.Base.{
  ℕ, ap, ◌∙◌, suc, ◌+◌, ◌%◌, ◌^◌, ◌≤◌, ◌<◌, ◌≡◌, ◌≢◌, ℕ_discrete, ◌∷◌, refl, arith, ◌==◌,
  if◌then◌else◌,
}
use rpv_platforms_evt_driven.Sec.{
  Sec, SecRt, breach_detected, in_progress, sec_svc_run, sec_svc_bind, region_size, bind_case,
  recovery, sec_service,
}

-- The service runs, and the protected code is what binding stores.
pub record IsBound {A : Type 0} (s : Sec A) : Type 0 where
  pub runs : s.reg ≡ sec_svc_run
  pub code : (i : ℕ) → i < region_size → s.protected_code i ≡ (i + 1) % 2 ^ 8

case_of : {A : Type 0} (reg : ℕ) → (bound run recovered : A) → A
case_of reg bound run recovered =
    if reg == sec_svc_bind then bound else if reg == sec_svc_run then run else recovered

case_of-bind :
    {A : Type 0} (reg : ℕ) (bound run recovered : A)
    → reg ≡ sec_svc_bind
    → case_of reg bound run recovered ≡ bound
unfolding case_of
case_of-bind reg bound run recovered h = ap (λ r. case_of r bound run recovered) h

case_of-run :
    {A : Type 0} (reg : ℕ) (bound run recovered : A)
    → reg ≡ sec_svc_run
    → case_of reg bound run recovered ≡ run
unfolding case_of
case_of-run reg bound run recovered h = ap (λ r. case_of r bound run recovered) h

case_of-other :
    {A : Type 0} (reg : ℕ) (bound run recovered : A)
    → reg ≢ sec_svc_bind
    → reg ≢ sec_svc_run
    → case_of reg bound run recovered ≡ recovered
unfolding case_of
case_of-other reg bound run recovered b r = ground arith

module _ (sr : SecRt) where
  by_case :
      (n : ℕ) (s : Sec sr.Rt)
      → sec_service sr (suc n) s
        ≡ case_of s.reg
            (sec_service sr n (bind_case sr s))
            (sr.runtime (λ v. recovery sr (λ w. sec_service sr n w) v) s)
            (recovery sr (λ w. sec_service sr n w) s)
  unfolding sec_service case_of
  by_case n s = refl

  -- The state in which the runtime is entered: that of the call if the service runs, and else one that
  -- was bound, with the context over the protected code that binding stores and the messages of the
  -- recovery if the register had no valid value.
  pub data Entered (s : Sec sr.Rt) : Sec sr.Rt → Type 0 where
    running : s.reg ≡ sec_svc_run → Entered s s
    bound :
        {v : Sec sr.Rt} (seed : ℕ)
        → s.reg ≡ sec_svc_bind
        → IsBound v
        → v.rt ≡ sr.context v.protected_code region_size (sr.prngseed seed s.rt)
        → v.secure_store ≡ s.secure_store
        → v.notes ≡ s.notes
        → Entered s v
    recovered :
        {v : Sec sr.Rt} (seed : ℕ)
        → s.reg ≢ sec_svc_run
        → s.reg ≢ sec_svc_bind
        → IsBound v
        → v.rt ≡ sr.context v.protected_code region_size (sr.prngseed seed s.rt)
        → v.secure_store ≡ s.secure_store
        → v.notes ≡ in_progress ∷ breach_detected ∷ s.notes
        → Entered s v

  bind_case-IsBound : (s : Sec sr.Rt) → IsBound (bind_case sr s)
  unfolding bind_case
  bind_case-IsBound s = record { runs = refl; code = λ i l. ground arith }

  run_step :
      (n : ℕ) (s : Sec sr.Rt)
      → s.reg ≡ sec_svc_run
      → sec_service sr (suc n) s ≡ sr.runtime (λ v. recovery sr (λ w. sec_service sr n w) v) s
  run_step n s runs = by_case n s ∙ case_of-run s.reg _ _ _ runs

  bind_step :
      (n : ℕ) (s : Sec sr.Rt)
      → s.reg ≡ sec_svc_bind
      → sec_service sr (suc (suc n)) s
        ≡ sr.runtime (λ v. recovery sr (λ w. sec_service sr n w) v) (bind_case sr s)
  bind_step n s binds =
      by_case (suc n) s
      ∙ case_of-bind s.reg _ _ _ binds
      ∙ run_step n (bind_case sr s) (bind_case-IsBound s).runs

  -- With fuel for three nested calls and any number more, a call of the service in any state ends in
  -- the call of the runtime, whatever the runtime is, with the rest of the fuel for the recovery that
  -- the runtime is given. If the service runs, the runtime is given its state as it is. If not, the
  -- protected code was stored anew, the generator seeded and the context set over that code before, with
  -- the secure store as it was; and if the register was neither of its two values, the recovery was
  -- reported by its two messages.
  pub sec_service-Entered :
      (n : ℕ) (s : Sec sr.Rt)
      → (k : ℕ) × (v : Sec sr.Rt) × (n ≤ k)
        × (sec_service sr (suc (suc (suc n))) s
            ≡ sr.runtime (λ w. recovery sr (λ x. sec_service sr k x) w) v)
        × Entered s v
  unfolding bind_case recovery
  sec_service-Entered n s = elim (ℕ_discrete s.reg sec_svc_bind) [
    | yes binds ↦ (
      suc n,
      bind_case sr s,
      omega arith,
      bind_step (suc n) s binds,
      bound _ binds (bind_case-IsBound s) refl refl refl,
    )
    | no unbound ↦ elim (ℕ_discrete s.reg sec_svc_run) [
      | yes runs ↦ (suc (suc n), s, omega arith, run_step (suc (suc n)) s runs, running runs)
      | no stopped ↦
          let r : Sec sr.Rt = record s {
            notes = in_progress ∷ breach_detected ∷ s.notes;
            reg = sec_svc_bind;
          } in
          (
            n,
            bind_case sr r,
            omega arith,
            by_case (suc (suc n)) s
                ∙ case_of-other s.reg _ _ _ unbound stopped
                ∙ bind_step n r refl,
            recovered _ stopped unbound (bind_case-IsBound r) refl refl refl,
          )
    ]
  ]
