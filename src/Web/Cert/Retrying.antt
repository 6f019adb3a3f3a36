-- ===== src/Web/Cert/Retrying.antt =====
-- The attempts of `Setup`.
use betterkey.Prelude.{
  ℕ, zero, suc, ◌+◌, ◌*◌, ◌≡◌, ◌⊎◌, inl, inr, refl, Bool, true, false, arith, Bool-cases, ◌<◌, ap,
  ◌∙◌,
}
use betterkey.Web.Cert.{AcmeConfig, Managed, manage, setup}

-- The run of the loop from an attempt on: it ends at the first attempt that succeeds, or behind the
-- last one, and waits behind each attempt that fails.
pub record IsRun (manages : ℕ → Bool) (delay count first : ℕ) (m : Managed) : Type 0 where
  pub failed : ℕ
  pub all_failed : (i : ℕ) → i < failed → manages (first + i) ≡ false
  pub waits : m.waited ≡ failed * delay
  pub ends :
      (failed < count
        × (m.attempts ≡ suc failed)
        × (m.managed ≡ true)
        × (manages (first + failed) ≡ true))
      ⊎ ((failed ≡ count) × (m.attempts ≡ count) × (m.managed ≡ false))

manage-IsRun :
    (manages : ℕ → Bool) (delay count first : ℕ)
    → IsRun manages delay count first (manage manages delay count first)
unfolding manage
manage-IsRun manages delay zero first = record {
  failed = 0;
  all_failed = λ i h. absurd (omega arith);
  waits = omega arith;
  ends = inr (refl, refl, refl);
}
manage-IsRun manages delay (suc count) first = elim (Bool-cases (manages first)) [
  | inl h ↦ rw h (record {
    failed = 0;
    all_failed = λ i lt. absurd (omega arith);
    waits = omega arith;
    ends = inl (omega arith, refl, refl, ap manages (omega arith) ∙ h);
  })
  | inr h ↦ rw h (longer h (manage-IsRun manages delay count (suc first)))
]
  where
    also_failed :
        manages first ≡ false
        → (failed : ℕ) → ((i : ℕ) → i < failed → manages (suc first + i) ≡ false)
        → (i : ℕ) → i < suc failed
        → manages (first + i) ≡ false
    also_failed h failed rest zero lt = ap manages (omega arith) ∙ h
    also_failed h failed rest (suc i) lt = ap manages (omega arith) ∙ rest i (omega (arith, lt))

    longer :
        manages first ≡ false
        → IsRun manages delay count (suc first) (manage manages delay count (suc first))
        → IsRun manages delay (suc count) first (record {
          attempts = suc (manage manages delay count (suc first)).attempts;
          waited = delay + (manage manages delay count (suc first)).waited;
          managed = (manage manages delay count (suc first)).managed;
        })
    longer h r = record {
      failed = suc r.failed;
      all_failed = also_failed h r.failed r.all_failed;
      waits = omega (arith, r.waits);
      ends = elim r.ends [
        | inl (lt, made, done, last) ↦
            inl (omega (arith, lt), ap suc made, done, ap manages (omega arith) ∙ last)
        | inr (all, made, done) ↦ inr (ap suc all, ap suc made, done)
      ];
    }

-- Setup ends with the first attempt that brings the certificates, if one of the configured number does,
-- and else behind the last one; it waits the configured time behind each attempt that fails.
pub setup-IsRun :
    (a : AcmeConfig) (manages : ℕ → Bool)
    → IsRun manages a.retry_delay a.retry_count 0 (setup a manages)
unfolding setup
setup-IsRun a manages = manage-IsRun manages a.retry_delay a.retry_count 0
