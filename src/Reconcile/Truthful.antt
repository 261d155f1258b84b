-- ===== src/Reconcile/Truthful.antt =====
-- About the conditions that a whole reconcile reports (`reconcileCertificateJob`).
use certificate_job_operator.Prelude.{
  ℕ, Bool, not, Option, none, some, List, [], any, contains, Distinct, length, All, ◌≡◌, refl, sym,
  ap, ◌∙◌, arith, subst, if◌then◌else◌,
}
use certificate_job_operator.Api.{
  Certificate, CertificateExecutionState, CertificateJob, CertificateJobStatus,
}
use certificate_job_operator.Client.{Client, Session, ok}
use certificate_job_operator.Workflow.Nodes.{is_failed}
use certificate_job_operator.Workflow.Graph.{build_workflow_graph, built}
use certificate_job_operator.Certificates.{no_progress}
use certificate_job_operator.Status.{
  observed_state_index, filter_observed_states, apply_certificate_job_conditions,
}
use certificate_job_operator.Status.Index.{observed_state_index-IsIndexOf}
use certificate_job_operator.Status.Conditions.{
  SetsStatus, IsReported, truth, apply_certificate_job_conditions_lem,
}
use certificate_job_operator.Reconcile.{
  with_observed, WorkflowContext, context, Loop, JobResult, reconcile_certificates,
  build_workflow_context, list_matching_certificates, reconcile_certificate_job,
}
use certificate_job_operator.Reconcile.Entries.{keys_of}
use certificate_job_operator.Reconcile.Tally.{tally-none, tally-filter}
use certificate_job_operator.Reconcile.Total.{keys_of_certificates, context-accepted}
use certificate_job_operator.Reconcile.Counted.{goes_on, IsReadable, each-IsTally}

abbrev pub some_failed : List CertificateExecutionState → Bool
some_failed = any (λ state. is_failed state.phase)

abbrev pub some_go_on : List CertificateExecutionState → Bool
some_go_on = any (λ state. goes_on state.phase)

-- The conditions and the requeue follow from the observed states.
pub record IsTruthful (status : CertificateJobStatus) (requeue_after : Option ℕ) : Type 0 where
  pub conditions :
      IsReported
        (truth (not (some_failed status.observed_certificates)))
        (truth (some_go_on status.observed_certificates))
        (truth (some_failed status.observed_certificates))
        status.conditions
  pub requeue : requeue_after ≡ (if some_go_on status.observed_certificates then some 10 else none)

module _ (c : Client) where
  open c use {World, get_secret, set_status_condition, condition_time}

  certificates-IsTally :
      (cjob : CertificateJob) (ctx : WorkflowContext c) (certs : List Certificate)
      (s : Session World)
      → SetsStatus set_status_condition
      → build_workflow_graph cjob.spec ≡ built ctx.graph
      → All (IsReadable c ctx.workflow_spec_hash) certs
      → Distinct (keys_of_certificates certs)
      → Distinct (keys_of cjob.status.observed_certificates)
      → (r : JobResult c) × (reconcile_certificates c cjob ctx certs s ≡ some r)
        × IsTruthful r.cjob.status r.requeue_after
  unfolding reconcile_certificates apply_certificate_job_conditions
  certificates-IsTally cjob ctx certs s sets accepted reads own d =
      let old = cjob.status.observed_certificates in
      let first : Loop c = record {
        index = observed_state_index old;
        observed = old;
        matched_keys = [];
        progress = no_progress;
        session = s;
      } in
      let (l, runs, counted) =
        each-IsTally c cjob ctx accepted (keys_of old) certs first d
          (record {
            index = observed_state_index-IsIndexOf old;
            distinct = λ d. d;
            matched = λ k m. unfold contains in ground arith;
          })
          (record {
            failure = sym (tally-none is_failed old);
            activity = sym (tally-none goes_on old);
            requeue = refl;
          })
          reads own (λ k m. unfold contains in refl) in
      let states = filter_observed_states l.observed l.matched_keys in
      let filtered = with_observed cjob states in
      let failure = counted.failure ∙ sym (tally-filter is_failed l.matched_keys l.observed) in
      let busy = counted.activity ∙ sym (tally-filter goes_on l.matched_keys l.observed) in
      let done =
        apply_certificate_job_conditions set_status_condition (condition_time l.session.world)
          filtered (length certs) l.progress in
      let reported =
        apply_certificate_job_conditions_lem set_status_condition sets
          (condition_time l.session.world) filtered (length certs) l.progress in
      (
        record {
          cjob = done;
          session = l.session;
          requeue_after = if l.progress.needs_requeue then some 10 else none;
          error = none;
        },
        rw (runs, reconcile_certificates) refl,
        record {
          conditions =
              subst
                (λ f.
                  IsReported (truth (not f)) (truth (some_go_on states)) (truth f)
                    done.status.conditions)
                failure
                (subst
                  (λ b.
                    IsReported (truth (not l.progress.any_failed)) (truth b)
                      (truth l.progress.any_failed) done.status.conditions)
                  busy reported);
          requeue = ap (λ b. if b then some 10 else none) (counted.requeue ∙ busy);
        },
      )

  -- What a reconcile reports is true of the observed states that it leaves, when the spec is valid,
  -- the certificates are listed, no two of them and no two of the old states have one key, and each
  -- certificate names no secret, or one that can be read at any time, with an input that can be
  -- hashed: then Ready is False and Degraded is True exactly when the run of some observed state is
  -- Failed, Progressing is True exactly when the run of some observed state is not terminal, and a
  -- requeue after ten seconds is asked for exactly then. `SetStatusCondition` sets the status of one
  -- type of condition.
  pub reconcile_certificate_job-IsTruthful :
      (cjob : CertificateJob) (s : Session World) {ctx : WorkflowContext c}
      {certs : List Certificate}
      → SetsStatus set_status_condition
      → build_workflow_context c cjob.spec s.world ≡ context ctx
      → (list_matching_certificates c cjob s.world).1 ≡ ok certs
      → All (IsReadable c ctx.workflow_spec_hash) certs
      → Distinct (keys_of_certificates certs)
      → Distinct (keys_of cjob.status.observed_certificates)
      → (r : JobResult c) × (reconcile_certificate_job c cjob s ≡ some r)
        × IsTruthful r.cjob.status r.requeue_after
  unfolding reconcile_certificate_job
  reconcile_certificate_job-IsTruthful cjob s {ctx} {certs} sets valid listed reads own d =
      let s' = record s { world = (list_matching_certificates c cjob s.world).0 } in
      let (r, runs, truthful) =
        certificates-IsTally cjob ctx certs s' sets
          (context-accepted c cjob.spec s.world {ctx = ctx} valid) reads own d in
      (r, rw (valid, listed, reconcile_certificate_job) runs, truthful)
