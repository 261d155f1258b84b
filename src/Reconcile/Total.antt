-- ===== src/Reconcile/Total.antt =====
-- About the results of a reconcile (`Reconcile`, `reconcileCertificateJob`).
use certificate_job_operator.Prelude.{
  none, some, List, [], map, Str, str, contains, Distinct, ◌≡◌, refl, ◌⊎◌, arith, inl, inr,
  Option-cases,
}
use certificate_job_operator.Api.{
  Certificate, CertificateExecutionState, CertificateJob, CertificateJobSpec,
}
use certificate_job_operator.Client.{Client, Session, Response-cases, ok}
use certificate_job_operator.Workflow.Graph.{
  Graph, BuildResult, build_workflow_graph, built, refused,
}
use certificate_job_operator.Workflow.Graph.Built.{IsWorkflow, build_workflow_graph_sound}
use certificate_job_operator.Certificates.{no_progress}
use certificate_job_operator.Status.{
  observed_state_index, filter_observed_states, apply_certificate_job_conditions,
  apply_invalid_spec_conditions,
}
use certificate_job_operator.Status.Index.{observed_state_index-IsIndexOf}
use certificate_job_operator.Status.Conditions.{
  SetsStatus, IsReported, apply_invalid_spec_conditions_lem,
}
use certificate_job_operator.Reconcile.{
  with_conditions, WorkflowContext, ContextResult, context, invalid, Loop, JobResult,
  reconcile_certificates, build_workflow_context, build_workflow_spec_hash,
  list_matching_certificates, reconcile_certificate_job, Reconciled, reconcile,
}
use certificate_job_operator.Reconcile.Entries.{keys_of, filter-keys_of, filter-Distinct}
use certificate_job_operator.Reconcile.Rounds.{key_of_certificate, each-IsGood}

abbrev pub keys_of_certificates : List Certificate → List Str
keys_of_certificates = map (λ cert. key_of_certificate cert)

build-cases : (r : BuildResult) → ((g : Graph) × (r ≡ built g)) ⊎ ((e : _) × (r ≡ refused e))
build-cases (built g) = inl (g, refl)
build-cases (refused e) = inr (e, refl)

module _ (c : Client) where
  open c use {World, get_certificate_job, set_status_condition, condition_time}

  -- The states are those of the certificates, one for each.
  pub record IsTracked (certs : List Certificate) (old new : List CertificateExecutionState)
      : Type 0 where
    pub distinct : Distinct (keys_of old) → Distinct (keys_of new)
    pub exact : (k : Str) → contains (keys_of new) k ≡ contains (keys_of_certificates certs) k

  certificates-IsTracked :
      (cjob : CertificateJob) (ctx : WorkflowContext c) (certs : List Certificate)
      (s : Session World)
      → build_workflow_graph cjob.spec ≡ built ctx.graph
      → (r : JobResult c) × (reconcile_certificates c cjob ctx certs s ≡ some r)
        × IsTracked certs cjob.status.observed_certificates r.cjob.status.observed_certificates
        × (r.error ≡ none)
  unfolding reconcile_certificates apply_certificate_job_conditions
  certificates-IsTracked cjob ctx certs s accepted =
      let old = cjob.status.observed_certificates in
      let first : Loop c = record {
        index = observed_state_index old;
        observed = old;
        matched_keys = [];
        progress = no_progress;
        session = s;
      } in
      let (l, runs, good, found) =
        each-IsGood c (keys_of old) cjob ctx accepted certs first (record {
          index = observed_state_index-IsIndexOf old;
          distinct = λ d. d;
          matched = λ k m. unfold contains in ground arith;
        }) in
      elim (Option-cases (reconcile_certificates c cjob ctx certs s)) [
        | inl panic ↦ absurd (ground arith)
        | inr (r, e) ↦
            let same : r.cjob.status.observed_certificates
                ≡ filter_observed_states l.observed l.matched_keys =
              ground arith in
            (
              r,
              e,
              record {
                distinct =
                    λ d. rw same (filter-Distinct l.observed l.matched_keys (good.distinct d));
                exact = λ k. rw same (
                    unfold contains in
                    ground
                      (arith, filter-keys_of l.observed l.matched_keys k, found k, good.matched k));
              },
              ground arith,
            )
      ]

  pub context-accepted :
      (spec : CertificateJobSpec) (w : World) {ctx : WorkflowContext c}
      → build_workflow_context c spec w ≡ context ctx
      → build_workflow_graph spec ≡ built ctx.graph
  unfolding build_workflow_context
  context-accepted spec w {ctx} h = elim (Response-cases (build_workflow_spec_hash c spec)) [
    | inr (inl e) ↦ ground arith
    | inr (inr (m, e)) ↦ ground arith
    | inl (hash, e) ↦ elim (build-cases (build_workflow_graph spec)) [
      | inl (g, b) ↦ ground arith
      | inr (x, b) ↦ ground arith
    ]
  ]

  pub context-cases :
      (r : ContextResult c)
      → ((ctx : WorkflowContext c) × (r ≡ context ctx)) ⊎ ((m : Str) × (r ≡ invalid m))
  context-cases (context ctx) = inl (ctx, refl)
  context-cases (invalid m) = inr (m, refl)

  job-returns :
      (cjob : CertificateJob) (s : Session World)
      → (r : JobResult c) × (reconcile_certificate_job c cjob s ≡ some r)
  unfolding reconcile_certificate_job
  job-returns cjob s =
      let s' = record s { world = (list_matching_certificates c cjob s.world).0 } in
      elim (Option-cases (reconcile_certificate_job c cjob s)) [
        | inr found ↦ found
        | inl panic ↦ absurd (elim (context-cases (build_workflow_context c cjob.spec s.world)) [
          | inr (m, e) ↦ ground arith
          | inl (ctx, e) ↦ elim (Response-cases ((list_matching_certificates c cjob s.world).1)) [
            | inr (inl x) ↦ ground arith
            | inr (inr (m, x)) ↦ ground arith
            | inl (certs, x) ↦
                let (r, runs, _, _) =
                  certificates-IsTracked cjob ctx certs s'
                    (context-accepted cjob.spec s.world {ctx = ctx} e) in
                ground arith
          ]
        ])
      ]

  -- `Reconcile` always returns, whatever the CertificateJob and its status hold and whatever the
  -- API server answers: no index into the observed states is out of range, and no lookup in a map
  -- of nodes meets a nil pointer.
  pub reconcile-returns :
      (namespace name : Str) (s : Session World)
      → (out : Reconciled c) × (reconcile c namespace name s ≡ some out)
  unfolding reconcile
  reconcile-returns namespace name s =
      let answer = get_certificate_job s.world namespace name in
      elim (Option-cases (reconcile c namespace name s)) [
        | inr found ↦ found
        | inl panic ↦ absurd (elim (Response-cases (answer.1)) [
          | inr (inl e) ↦ ground arith
          | inr (inr (m, e)) ↦ ground arith
          | inl (cjob, e) ↦
              let (r, runs) = job-returns cjob (record s { world = answer.0 }) in ground arith
        ])
      ]

  -- When the spec is valid and the certificates are listed, a reconcile leaves exactly one observed
  -- state for each key of a matching certificate and none for any other, if no two states had the
  -- same key before.
  pub reconcile_certificate_job-observed :
      (cjob : CertificateJob) (s : Session World) {ctx : WorkflowContext c}
      {certs : List Certificate}
      → Distinct (keys_of cjob.status.observed_certificates)
      → build_workflow_context c cjob.spec s.world ≡ context ctx
      → (list_matching_certificates c cjob s.world).1 ≡ ok certs
      → (r : JobResult c) × (reconcile_certificate_job c cjob s ≡ some r)
        × (r.error ≡ none)
        × Distinct (keys_of r.cjob.status.observed_certificates)
        × ((k : Str)
            → contains (keys_of r.cjob.status.observed_certificates) k
              ≡ contains (keys_of_certificates certs) k)
  unfolding reconcile_certificate_job
  reconcile_certificate_job-observed cjob s {ctx} {certs} d valid listed =
      let s' = record s { world = (list_matching_certificates c cjob s.world).0 } in
      let (r, runs, tracked, fine) =
        certificates-IsTracked cjob ctx certs s'
          (context-accepted cjob.spec s.world {ctx = ctx} valid) in
      (
        r,
        rw (valid, listed, reconcile_certificate_job) runs,
        fine,
        tracked.distinct d,
        tracked.exact,
      )

  -- A CertificateJob whose workflow is not well formed is reported as neither ready nor progressing,
  -- and as degraded; no Job is created, the API server is not asked, and the observed states stay
  -- as they are. `SetStatusCondition` sets the status of one type of condition.
  pub ill_formed_workflow-IsReported :
      (cjob : CertificateJob) (s : Session World)
      → SetsStatus set_status_condition
      → ¬ IsWorkflow cjob.spec
      → (r : JobResult c) × (reconcile_certificate_job c cjob s ≡ some r)
        × (r.session ≡ s)
        × (r.error ≡ none)
        × (r.cjob.status.observed_certificates ≡ cjob.status.observed_certificates)
        × IsReported (str "False") (str "False") (str "True") r.cjob.status.conditions
  unfolding reconcile_certificate_job
  ill_formed_workflow-IsReported cjob s sets ill_formed =
      elim (context-cases (build_workflow_context c cjob.spec s.world)) [
        | inl (ctx, e) ↦ absurd (
            ill_formed
              (build_workflow_graph_sound cjob.spec
                (context-accepted cjob.spec s.world {ctx = ctx} e)).0)
        | inr (m, e) ↦
            let cs =
              apply_invalid_spec_conditions set_status_condition (condition_time s.world) m
                cjob.generation cjob.status.conditions in
            let r : JobResult c = record {
              cjob = with_conditions cjob cs;
              session = s;
              requeue_after = none;
              error = none;
            } in
            (
              r,
              rw (e, reconcile_certificate_job) refl,
              refl,
              refl,
              refl,
              apply_invalid_spec_conditions_lem set_status_condition sets (condition_time s.world) m
                  cjob.generation cjob.status.conditions,
            )
      ]
