-- ===== src/Reconcile/Hidden.antt =====
-- About a failed run whose secret cannot be read (`reconcileObservedCertificate`).
use certificate_job_operator.Prelude.{
  true, some, [], ◌∷◌, Str, str, ==_iff, ◌≡◌, ◌≢◌, arith, contains, lookup, subst, Option-cases,
  inl, inr,
}
use certificate_job_operator.Api.{
  Time, failed, Certificate, CertificateExecutionState, CertificateJob,
}
use certificate_job_operator.Client.{Client, Session, ApiError, ok, failed_with}
use certificate_job_operator.Workflow.Nodes.{is_terminal_phase}
use certificate_job_operator.Workflow.Graph.{Graph}
use certificate_job_operator.Certificates.{
  no_progress, merge, read_secret, reconcile_observed_certificate,
}
use certificate_job_operator.Status.{
  key_of, observed_state_index, ensure_observed_certificate_state, filter_observed_states,
  apply_certificate_job_conditions,
}
use certificate_job_operator.Status.Conditions.{
  SetsStatus, IsReported, apply_certificate_job_conditions_lem,
}
use certificate_job_operator.Reconcile.{
  with_observed, WorkflowContext, context, JobResult, reconcile_entry, reconcile_round,
  reconcile_each, reconcile_certificates, build_workflow_context, list_matching_certificates,
  reconcile_certificate_job,
}
use certificate_job_operator.Reconcile.Rounds.{key_of_certificate}

module _ (c : Client) (cjob : CertificateJob) (cert : Certificate) where
  open c use {World, get_secret, set_status_condition, condition_time}

  -- The API server does not give the secret, from any world.
  abbrev pub IsUnreadable : ApiError → Type 0
  IsUnreadable e =
      (w : World) → (get_secret w cert.namespace cert.spec.secret_name).1 ≡ failed_with e

  unreadable_is_left :
      (graph : Graph) (workflow_hash : Str) (t : Time) (state : CertificateExecutionState)
      (s : Session World) (e : ApiError)
      → cert.spec.secret_name ≢ []
      → IsUnreadable e
      → is_terminal_phase state.phase ≡ true
      → reconcile_observed_certificate c cjob cert graph workflow_hash t state s
        ≡ some (record {
          state = state;
          session = record s {
            world = (get_secret s.world cert.namespace cert.spec.secret_name).0;
          };
          progress = no_progress;
        })
  unfolding reconcile_observed_certificate read_secret
  unreadable_is_left graph workflow_hash t state s e named unreadable over =
      ground (arith, ==_iff cert.spec.secret_name [], unreadable s.world)

  -- The state of the one certificate is found.
  ensured_alone :
      (state : CertificateExecutionState)
      → key_of state ≡ key_of_certificate cert
      → ensure_observed_certificate_state (observed_state_index (state ∷ [])) (state ∷ []) cert
        ≡ record { index = observed_state_index (state ∷ []); observed = state ∷ []; position = 0 }
  unfolding ensure_observed_certificate_state observed_state_index lookup
  ensured_alone state same = ground (arith, ==_iff (key_of state) (key_of_certificate cert))

  -- The loop over the one certificate.
  each_alone :
      (ctx : WorkflowContext c) (state : CertificateExecutionState) (s : Session World)
      (e : ApiError)
      → key_of state ≡ key_of_certificate cert
      → cert.spec.secret_name ≢ []
      → IsUnreadable e
      → is_terminal_phase state.phase ≡ true
      → reconcile_each c cjob ctx (cert ∷ []) (record {
        index = observed_state_index (state ∷ []);
        observed = state ∷ [];
        matched_keys = [];
        progress = no_progress;
        session = s;
      })
        ≡ some (record {
          index = observed_state_index (state ∷ []);
          observed = state ∷ [];
          matched_keys = key_of_certificate cert ∷ [];
          progress = no_progress;
          session = record s {
            world = (get_secret s.world cert.namespace cert.spec.secret_name).0;
          };
        })
  unfolding reconcile_each reconcile_round reconcile_entry merge
  each_alone ctx state s e same named unreadable over = ground (
    arith,
    ensured_alone state same,
    unreadable_is_left ctx.graph ctx.workflow_spec_hash ctx.now state s e named unreadable over,
  )

  filter_alone :
      (state : CertificateExecutionState)
      → key_of state ≡ key_of_certificate cert
      → filter_observed_states (state ∷ []) (key_of_certificate cert ∷ []) ≡ state ∷ []
  unfolding filter_observed_states contains
  filter_alone state same = ground (arith, ==_iff (key_of_certificate cert) (key_of state))

  -- Where the one matching certificate has a failed run and its secret cannot be read, a reconcile
  -- reports the CertificateJob as ready and not degraded, although the state still says Failed.
  -- `SetStatusCondition` sets the status of one type of condition.
  pub unreadable_secret_hides_failure :
      (state : CertificateExecutionState) (s : Session World) {ctx : WorkflowContext c}
      {e : ApiError}
      → SetsStatus set_status_condition
      → build_workflow_context c cjob.spec s.world ≡ context ctx
      → (list_matching_certificates c cjob s.world).1 ≡ ok (cert ∷ [])
      → cjob.status.observed_certificates ≡ state ∷ []
      → key_of state ≡ key_of_certificate cert
      → cert.spec.secret_name ≢ []
      → IsUnreadable e
      → state.phase ≡ failed
      → (r : JobResult c) × (reconcile_certificate_job c cjob s ≡ some r)
        × (r.cjob.status.observed_certificates ≡ state ∷ [])
        × IsReported (str "True") (str "False") (str "False") r.cjob.status.conditions
  unfolding reconcile_certificate_job
  unreadable_secret_hides_failure state s {ctx} {e} sets valid listed observed same named unreadable
        is_over =
      let s' = record s { world = (list_matching_certificates c cjob s.world).0 } in
      let over : is_terminal_phase state.phase ≡ true = unfold is_terminal_phase in ground arith in
      let runs = each_alone ctx state s' e same named unreadable over in
      let kept = filter_alone state same in
      let w = (get_secret s'.world cert.namespace cert.spec.secret_name).0 in
      let done =
        apply_certificate_job_conditions set_status_condition (condition_time w)
          (with_observed cjob (state ∷ [])) 1 no_progress in
      elim (Option-cases (reconcile_certificates c cjob ctx (cert ∷ []) s')) [
        | inl panic ↦ absurd (unfold reconcile_certificates in ground arith)
        | inr (r, e') ↦ (
          r,
          rw (valid, listed, reconcile_certificate_job) e',
          unfold reconcile_certificates apply_certificate_job_conditions in ground arith,
          subst
              (λ (x : CertificateJob).
                IsReported (str "True") (str "False") (str "False") x.status.conditions)
              {x = done} {y = r.cjob} (unfold reconcile_certificates in ground arith)
              (apply_certificate_job_conditions_lem set_status_condition sets (condition_time w)
                (with_observed cjob (state ∷ [])) 1 no_progress),
        )
      ]
