-- ===== src/Reconcile/Tally.antt =====
-- What the progress of the loop over the certificates says of the observed states that it leaves.
use certificate_job_operator.Prelude.{
  ℕ, zero, suc, Bool, false, ◌&&◌, ◌||◌, some, List, [], ◌∷◌, ◌++◌, Str, any, contains, Distinct,
  get_elem?, set, lookup, ==_iff, ◌≡◌, refl, inl, inr, arith, Option-cases,
}
use certificate_job_operator.Api.{ExecutionPhase, Certificate, CertificateExecutionState}
use certificate_job_operator.Status.{
  certificate_key, key_of, new_state, ensure_observed_certificate_state, filter_observed_states,
}
use certificate_job_operator.Prelude.{Map}
use certificate_job_operator.Reconcile.Entries.{keys_of, key_of_entry}

module _ (p : ExecutionPhase → Bool) where
  -- Some state of one of the keys has such a phase.
  abbrev pub tally : List Str → List CertificateExecutionState → Bool
  tally keys = any (λ state. contains keys (key_of state) && p state.phase)

  pub tally-none : (observed : List CertificateExecutionState) → tally [] observed ≡ false
  unfolding contains
  tally-none [] = refl
  tally-none (s ∷ observed) = ground (arith, tally-none observed)

  pub tally-filter :
      (keys : List Str) (observed : List CertificateExecutionState)
      → any (λ state. p state.phase) (filter_observed_states observed keys) ≡ tally keys observed
  unfolding filter_observed_states
  tally-filter keys [] = refl
  tally-filter keys (s ∷ observed) = ground (arith, tally-filter keys observed)

  tally-other :
      (keys : List Str) (key : Str) (observed : List CertificateExecutionState)
      → contains (keys_of observed) key ≡ false
      → tally (key ∷ keys) observed ≡ tally keys observed
  unfolding contains
  tally-other keys key [] absent = refl
  tally-other keys key (s ∷ observed) absent =
      ground (arith, tally-other keys key observed, ==_iff key (key_of s), ==_iff (key_of s) key)

  -- A first visit of a certificate adds the phase that it leaves.
  pub tally-set :
      (keys : List Str) (observed : List CertificateExecutionState) (i : ℕ)
      (entry state : CertificateExecutionState)
      → get_elem? observed i ≡ some entry
      → key_of state ≡ key_of entry
      → Distinct (keys_of observed)
      → contains keys (key_of entry) ≡ false
      → tally (key_of entry ∷ keys) (set observed i state) ≡ (tally keys observed || p state.phase)
  unfolding contains
  tally-set keys [] i entry state at same d fresh = absurd (cc)
  tally-set keys (s ∷ observed) zero entry state at same d fresh =
      ground (arith, tally-other keys (key_of entry) observed, ==_iff (key_of entry) (key_of state))
  tally-set keys (s ∷ observed) (suc i) entry state at same d fresh = ground (
    arith,
    tally-set keys observed i entry state,
    key_of_entry observed i entry,
    ==_iff (key_of entry) (key_of s),
  )

  tally-snoc :
      (keys : List Str) (observed : List CertificateExecutionState)
      (state : CertificateExecutionState)
      → contains keys (key_of state) ≡ false
      → tally keys (observed ++ state ∷ []) ≡ tally keys observed
  tally-snoc keys [] state fresh = ground arith
  tally-snoc keys (s ∷ observed) state fresh = ground (arith, tally-snoc keys observed state fresh)

  pub tally-ensure :
      (keys : List Str) (index : Map ℕ) (observed : List CertificateExecutionState)
      (cert : Certificate)
      → contains keys (certificate_key cert.namespace cert.name) ≡ false
      → tally keys (ensure_observed_certificate_state index observed cert).observed
        ≡ tally keys observed
  unfolding ensure_observed_certificate_state
  tally-ensure keys index observed cert fresh =
      elim (Option-cases (lookup (certificate_key cert.namespace cert.name) index)) [
        | inl absent ↦
            rw (absent, ensure_observed_certificate_state)
              (tally-snoc keys observed (new_state cert) fresh)
        | inr (i, found) ↦ rw (found, ensure_observed_certificate_state) refl
      ]
