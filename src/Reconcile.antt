-- ===== src/Reconcile.antt =====
-- One reconcile of a CertificateJob: `Reconcile`, `reconcileCertificateJob` and what they call
-- directly (internal/controller/certificatejob_controller.go).
pub mod Entries
pub mod Rounds
pub mod Tally
pub mod Total
pub mod Counted
pub mod Truthful
pub mod Hidden
pub mod OwnNodes
pub mod History
use certificate_job_operator.Prelude.{
  ℕ, Bool, true, false, not, Option, none, some, List, [], ◌∷◌, ◌++◌, Str, Map, str, ◌==◌, str_lt,
  length, get_elem?, set, keep, sort, if◌then◌else◌,
}
use certificate_job_operator.Api.{
  Time, Certificate, CertificateExecutionState, CertificateJob, CertificateJobSpec,
  CertificateJobStatus, Condition,
}
use certificate_job_operator.Client.{
  Client, Session, ApiError, not_found, api_error, Response, ok, failed_with, WorkflowPayload,
}
use certificate_job_operator.Workflow.Graph.{Graph, build_workflow_graph, built, refused}
use certificate_job_operator.Certificates.{
  Progress, no_progress, merge, Result, reconcile_observed_certificate,
}
use certificate_job_operator.Status.{
  certificate_key, observed_state_index, Ensured, ensure_observed_certificate_state,
  filter_observed_states, set_condition, apply_invalid_spec_conditions,
  apply_certificate_job_conditions,
}

-- The `less` of `listMatchingCertificates`.
unfoldable pub certificate_less : Certificate → Certificate → Bool
unfolding str_lt ◌==◌
certificate_less a b =
    if a.namespace == b.namespace then str_lt a.name b.name else str_lt a.namespace b.namespace

-- A status with other conditions, or with other observed states.
abbrev pub with_conditions : CertificateJob → List Condition → CertificateJob
with_conditions cjob cs = record cjob { status = record (cjob.status) { conditions = cs } }

abbrev pub with_observed : CertificateJob → List CertificateExecutionState → CertificateJob
with_observed cjob observed = record cjob {
  status = record (cjob.status) { observed_certificates = observed };
}

module _ (c : Client) where
  open c use {
    World, get_certificate_job, list_certificates, update_status, Selector,
    label_selector_as_selector, is_empty, matches, set_status_condition, now, condition_time,
    hash_string, marshal_workflow, marshal_status, error_text, workflow_error_text,
  }

  -- A nil selector is `none`.
  unfoldable pub is_selector_empty : Option Selector → Bool
  is_selector_empty none = true
  is_selector_empty (some selector) = is_empty selector

  unfoldable pub selector_matches_certificate_labels : Option Selector → Map Str → Bool
  unfolding is_selector_empty
  selector_matches_certificate_labels none labels = true
  selector_matches_certificate_labels (some selector) labels =
      if is_selector_empty (some selector) then true else matches selector labels

  unfoldable pub certificate_selector_for_job : CertificateJob → Response Selector
  certificate_selector_for_job cjob =
      elim (label_selector_as_selector cjob.spec.certificate_selector) [
        | ok selector ↦ ok selector
        | failed_with e ↦
            failed_with (api_error (str "invalid certificateSelector: " ++ error_text e))
      ]

  unfoldable pub list_matching_certificates :
      CertificateJob → World → World × Response (List Certificate)
  unfolding certificate_selector_for_job selector_matches_certificate_labels certificate_less sort
  list_matching_certificates cjob w = elim (certificate_selector_for_job cjob) [
    | failed_with e ↦ (w, failed_with e)
    | ok selector ↦
        let w' = (list_certificates w cjob.namespace).0 in
        elim ((list_certificates w cjob.namespace).1) [
          | failed_with e ↦ (w', failed_with e)
          | ok items ↦ (
            w',
            ok (
                keep (λ cert. selector_matches_certificate_labels (some selector) cert.labels)
                  (sort certificate_less items)),
          )
        ]
  ]

  unfoldable pub build_workflow_spec_hash : CertificateJobSpec → Response Str
  build_workflow_spec_hash spec =
      elim (marshal_workflow (record {
        certificate_selector = spec.certificate_selector;
        jobs = spec.jobs;
        workflow = spec.workflow;
        parallelism = spec.parallelism;
        job_ttl_seconds_after_finished = spec.job_ttl_seconds_after_finished;
        failure_policy = spec.failure_policy;
      })) [
        | failed_with e ↦
            failed_with (api_error (str "unable to hash workflow spec: " ++ error_text e))
        | ok raw ↦ ok (hash_string raw)
      ]

  pub record WorkflowContext : Type 0 where
    pub now : Time
    pub workflow_spec_hash : Str
    pub graph : Graph

  -- An error is its text.
  pub data ContextResult : Type 0 where
    context : WorkflowContext → ContextResult
    invalid : Str → ContextResult

  unfoldable pub build_workflow_context : CertificateJobSpec → World → ContextResult
  unfolding build_workflow_spec_hash build_workflow_graph
  build_workflow_context spec w = elim (build_workflow_spec_hash spec) [
    | failed_with e ↦ invalid (error_text e)
    | ok workflow_spec_hash ↦ elim (build_workflow_graph spec) [
      | refused e ↦ invalid (workflow_error_text e)
      | built graph ↦
          context (record { now = now w; workflow_spec_hash = workflow_spec_hash; graph = graph })
    ]
  ]

  -- The variables of the loop over the certificates.
  pub record Loop : Type 0 where
    pub index : Map ℕ
    pub observed : List CertificateExecutionState
    pub matched_keys : List Str
    pub progress : Progress
    pub session : Session World

  -- The body of the loop, after `state` was found: `entry` is what the pointer leads to.
  unfoldable pub reconcile_entry :
      CertificateJob
      → WorkflowContext
      → Certificate
      → Ensured
      → CertificateExecutionState
      → Loop
      → Option Loop
  unfolding reconcile_observed_certificate merge certificate_key
  reconcile_entry cjob ctx cert e entry l =
      elim (reconcile_observed_certificate c cjob cert ctx.graph ctx.workflow_spec_hash ctx.now
        entry l.session) [
          | none ↦ none
          | some r ↦ some (record {
            index = e.index;
            observed = set e.observed e.position r.state;
            matched_keys = certificate_key cert.namespace cert.name ∷ l.matched_keys;
            progress = merge l.progress r.progress;
            session = r.session;
          })
        ]

  -- One round. `none` is a panic: an index out of range, or one in the run of the certificate.
  unfoldable pub reconcile_round :
      CertificateJob → WorkflowContext → Certificate → Loop → Option Loop
  unfolding reconcile_entry ensure_observed_certificate_state
  reconcile_round cjob ctx cert l =
      let e = ensure_observed_certificate_state l.index l.observed cert in
      elim (get_elem? e.observed e.position) [
        | none ↦ none
        | some entry ↦ reconcile_entry cjob ctx cert e entry l
      ]

  unfoldable pub reconcile_each :
      CertificateJob → WorkflowContext → List Certificate → Loop → Option Loop
  unfolding reconcile_round
  reconcile_each cjob ctx [] l = some l
  reconcile_each cjob ctx (cert ∷ certs) l = elim (reconcile_round cjob ctx cert l) [
    | none ↦ none
    | some l' ↦ reconcile_each cjob ctx certs l'
  ]

  -- The CertificateJob with its new status, and the two results: the delay of a requeue in seconds,
  -- or none, and the error.
  pub record JobResult : Type 0 where
    pub cjob : CertificateJob
    pub session : Session World
    pub requeue_after : Option ℕ
    pub error : Option ApiError

  -- The conditions that are set when the certificates cannot be listed.
  unfoldable pub apply_list_failed_conditions : CertificateJob → ApiError → World → List Condition
  unfolding set_condition
  apply_list_failed_conditions cjob e w =
      let put = set_condition set_status_condition (condition_time w) in
      let g = cjob.generation in
      put (str "Degraded") (str "True") (str "ListFailed") (error_text e) g (
        put (str "Progressing") (str "False") (str "ListFailed")
          (str "unable to list matching certificates") g
          (put (str "Ready") (str "False") (str "ListFailed") (error_text e) g
            cjob.status.conditions))

  -- From `stateIndex := observedStateIndex(certificateJob)`.
  unfoldable pub reconcile_certificates :
      CertificateJob → WorkflowContext → List Certificate → Session World → Option JobResult
  unfolding reconcile_each observed_state_index filter_observed_states
      apply_certificate_job_conditions
  reconcile_certificates cjob ctx certs s =
      elim (reconcile_each cjob ctx certs (record {
        index = observed_state_index cjob.status.observed_certificates;
        observed = cjob.status.observed_certificates;
        matched_keys = [];
        progress = no_progress;
        session = s;
      })) [
        | none ↦ none
        | some l ↦
            let filtered = with_observed cjob (filter_observed_states l.observed l.matched_keys) in
            some (record {
              cjob =
                  apply_certificate_job_conditions set_status_condition
                    (condition_time l.session.world) filtered (length certs) l.progress;
              session = l.session;
              requeue_after = if l.progress.needs_requeue then some 10 else none;
              error = none;
            })
      ]

  unfoldable pub reconcile_certificate_job : CertificateJob → Session World → Option JobResult
  unfolding build_workflow_context apply_invalid_spec_conditions list_matching_certificates
      apply_list_failed_conditions reconcile_certificates
  reconcile_certificate_job cjob s = elim (build_workflow_context cjob.spec s.world) [
    | invalid error ↦ some (record {
      cjob = with_conditions cjob (
          apply_invalid_spec_conditions set_status_condition (condition_time s.world) error
            cjob.generation cjob.status.conditions);
      session = s;
      requeue_after = none;
      error = none;
    })
    | context ctx ↦
        let s' = record s { world = (list_matching_certificates cjob s.world).0 } in
        elim ((list_matching_certificates cjob s.world).1) [
          | failed_with e ↦ some (record {
            cjob = with_conditions cjob (apply_list_failed_conditions cjob e s'.world);
            session = s';
            requeue_after = none;
            error = some e;
          })
          | ok certs ↦ reconcile_certificates cjob ctx certs s'
        ]
  ]

  unfoldable pub equal_certificate_job_status : CertificateJobStatus → CertificateJobStatus → Bool
  unfolding ◌==◌
  equal_certificate_job_status a b = marshal_status a == marshal_status b

  -- The results of `Reconcile`, with the status that was written, where one was.
  pub record Reconciled : Type 0 where
    pub session : Session World
    pub written : Option CertificateJobStatus
    pub requeue_after : Option ℕ
    pub error : Option ApiError

  -- After `reconcileCertificateJob`; `base` is the status before it.
  unfoldable pub write_status : CertificateJobStatus → JobResult → Reconciled
  unfolding equal_certificate_job_status
  write_status base r =
      if equal_certificate_job_status base r.cjob.status
      then record {
        session = r.session;
        written = none;
        requeue_after = elim r.error [ some e ↦ none | none ↦ r.requeue_after ];
        error = r.error;
      }
      else let s = record (r.session) { world = (update_status r.session.world r.cjob).0 } in
        elim ((update_status r.session.world r.cjob).1) [
          | some e ↦ record { session = s; written = none; requeue_after = none; error = some e }
          | none ↦ record {
            session = s;
            written = some (r.cjob.status);
            requeue_after = elim r.error [ some e ↦ none | none ↦ r.requeue_after ];
            error = r.error;
          }
        ]

  unfoldable pub reconcile : (namespace name : Str) → Session World → Option Reconciled
  unfolding reconcile_certificate_job write_status
  reconcile namespace name s =
      let s' = record s { world = (get_certificate_job s.world namespace name).0 } in
      elim ((get_certificate_job s.world namespace name).1) [
        | failed_with not_found ↦
            some (record { session = s'; written = none; requeue_after = none; error = none })
        | failed_with (api_error m) ↦ some (record {
          session = s';
          written = none;
          requeue_after = none;
          error = some (api_error m);
        })
        | ok cjob ↦ elim (reconcile_certificate_job cjob s') [
          | none ↦ none
          | some r ↦ some (write_status cjob.status r)
        ]
      ]
