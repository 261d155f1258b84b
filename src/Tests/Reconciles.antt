-- ===== src/Tests/Reconciles.antt =====
-- Tests of a reconcile.
use certificate_job_operator.Prelude.{
  Option, some, none, [], ◌∷◌, Str, str, contains, Distinct, ◌≡◌, refl, ◌==◌,
}
use certificate_job_operator.Api.{CertificateJob, CertificateExecutionState, failed}
use certificate_job_operator.JobSecurity.{validate_job_template_security, validate_reserved_labels}
use certificate_job_operator.Templates.{check_template}
use certificate_job_operator.Client.{Client, ok, failed_with, not_found}
use certificate_job_operator.Workflow.Graph.{build_workflow_graph}
use certificate_job_operator.Workflow.Nodes.{node_state_map}
use certificate_job_operator.Certificates.{
  Result, no_progress, build_input_hash, reconcile_observed_certificate,
}
use certificate_job_operator.Certificates.Reports.{IsReport, readable_secret_is_reported}
use certificate_job_operator.Status.{certificate_key, new_state}
use certificate_job_operator.Status.Conditions.{IsReported}
use certificate_job_operator.Reconcile.{
  WorkflowContext, context, JobResult, build_workflow_context, list_matching_certificates,
  reconcile_certificate_job, Reconciled, reconcile,
}
use certificate_job_operator.Reconcile.Entries.{keys_of}
use certificate_job_operator.Reconcile.Total.{
  keys_of_certificates, reconcile-returns, reconcile_certificate_job-observed,
  ill_formed_workflow-IsReported,
}
use certificate_job_operator.Reconcile.History.{
  History, created, reconciled, IsTidy, History-IsTidy,
}
use certificate_job_operator.Reconcile.Counted.{IsReadable, readable}
use certificate_job_operator.Reconcile.Truthful.{IsTruthful, reconcile_certificate_job-IsTruthful}
use certificate_job_operator.Reconcile.Hidden.{unreadable_secret_hides_failure}
use certificate_job_operator.Tests.{workflow, renewal, site, site_secret, server, session_with}
use certificate_job_operator.Tests.Passes.{graph, started, secret_named}
use certificate_job_operator.Tests.Statuses.{replace_condition-SetsStatus}

reconcile-returns_example :
    (out : Reconciled server) × (reconcile server (str "pki") (str "renewal") (session_with [])
      ≡ some out)
reconcile-returns_example = reconcile-returns server (str "pki") (str "renewal") (session_with [])

abbrev workflow_context : WorkflowContext server
workflow_context = record {
  now = 7;
  workflow_spec_hash = str "0a1b2c3d4e5f60718293";
  graph = graph;
}

workflow_valid : build_workflow_context server workflow [] ≡ context workflow_context
unfolding build_workflow_context build_workflow_graph ◌==◌ check_template validate_reserved_labels
    validate_job_template_security
workflow_valid = refl

site_listed : (list_matching_certificates server renewal []).1 ≡ ok (site ∷ [])
unfolding list_matching_certificates ◌==◌
site_listed = refl

reconcile_certificate_job-observed_example :
    (r : JobResult server) × (reconcile_certificate_job server renewal (session_with []) ≡ some r)
    × (r.error ≡ none)
    × Distinct (keys_of r.cjob.status.observed_certificates)
    × ((k : Str)
        → contains (keys_of r.cjob.status.observed_certificates) k
          ≡ contains (keys_of_certificates (site ∷ [])) k)
reconcile_certificate_job-observed_example =
    reconcile_certificate_job-observed server renewal (session_with []) {ctx = workflow_context}
      {certs = site ∷ []} tt workflow_valid site_listed

-- "issue" waits for itself.
abbrev looped : CertificateJob
looped = record renewal {
  spec = record workflow {
    workflow = record { edges = record { from = str "issue"; to = str "issue" } ∷ [] };
  };
}

ill_formed_workflow-IsReported_example :
    (r : JobResult server) × (reconcile_certificate_job server looped (session_with []) ≡ some r)
    × (r.session ≡ session_with [])
    × (r.error ≡ none)
    × (r.cjob.status.observed_certificates ≡ [])
    × IsReported (str "False") (str "False") (str "True") r.cjob.status.conditions
ill_formed_workflow-IsReported_example =
    ill_formed_workflow-IsReported server looped (session_with []) replace_condition-SetsStatus
      (λ w. w.edges.0.2 refl)

abbrev result_or : Option (Result server) → Result server
result_or (some r) = r
result_or none = record { state = started; session = session_with []; progress = no_progress }

abbrev first_pass : Result server
first_pass = result_or (
    reconcile_observed_certificate server renewal site graph (str "hash") 9 started
      (session_with []))

readable_secret_is_reported_example : IsReport first_pass.state first_pass.progress
unfolding reconcile_observed_certificate build_input_hash ◌==◌ node_state_map
readable_secret_is_reported_example =
    readable_secret_is_reported server renewal site graph (str "hash") 9 started (session_with [])
      {secret = site_secret} {input_hash = str "0a1b2c3d4e5f60718293"} {r = first_pass} secret_named
      refl refl refl

-- The run of "site" has failed, and its input is as it was.
abbrev stuck : CertificateJob
stuck = record renewal {
  status = record {
    observed_certificates = record started { phase = failed } ∷ [];
    conditions = [];
  };
}

stuck_listed : (list_matching_certificates server stuck []).1 ≡ ok (site ∷ [])
unfolding list_matching_certificates ◌==◌
stuck_listed = refl

site-IsReadable : IsReadable server (str "0a1b2c3d4e5f60718293") site
unfolding build_input_hash
site-IsReadable = readable site_secret (str "0a1b2c3d4e5f60718293") secret_named (λ w. refl) refl

reconcile_certificate_job-IsTruthful_example :
    (r : JobResult server) × (reconcile_certificate_job server stuck (session_with []) ≡ some r)
    × IsTruthful r.cjob.status r.requeue_after
reconcile_certificate_job-IsTruthful_example =
    reconcile_certificate_job-IsTruthful server stuck (session_with []) {ctx = workflow_context}
      {certs = site ∷ []} replace_condition-SetsStatus workflow_valid stuck_listed
      (site-IsReadable, tt) (unfold contains in (refl, tt)) (unfold contains in (refl, tt))

-- The secret of the certificate is gone, and the run has failed.
abbrev without_secret : Client
without_secret = record server { get_secret = λ jobs namespace name. (jobs, failed_with not_found) }

abbrev broken : CertificateExecutionState
broken = record (new_state site) { phase = failed }

abbrev broken_renewal : CertificateJob
broken_renewal = record renewal {
  status = record { observed_certificates = broken ∷ []; conditions = [] };
}

unreadable_secret_hides_failure_example :
    (r : JobResult without_secret) × (reconcile_certificate_job without_secret broken_renewal
        (session_with [])
      ≡ some r)
    × (r.cjob.status.observed_certificates ≡ broken ∷ [])
    × IsReported (str "True") (str "False") (str "False") r.cjob.status.conditions
unfolding build_workflow_context build_workflow_graph ◌==◌ check_template validate_reserved_labels
    validate_job_template_security list_matching_certificates certificate_key
unreadable_secret_hides_failure_example =
    unreadable_secret_hides_failure without_secret broken_renewal site broken (session_with [])
      {ctx = record { now = 7; workflow_spec_hash = str "0a1b2c3d4e5f60718293"; graph = graph }}
      {e = not_found} replace_condition-SetsStatus refl refl refl refl secret_named (λ w. refl) refl

-- What a reconcile answers, or the CertificateJob itself.
abbrev job_result_or : CertificateJob → Option (JobResult server) → JobResult server
job_result_or cjob (some r) = r
job_result_or cjob none = record {
  cjob = cjob;
  session = session_with [];
  requeue_after = none;
  error = none;
}

abbrev once : JobResult server
once = job_result_or renewal (reconcile_certificate_job server renewal (session_with []))

once-History : History server once.cjob
unfolding reconcile_certificate_job build_workflow_context build_workflow_graph ◌==◌ check_template
    validate_reserved_labels validate_job_template_security list_matching_certificates
    node_state_map
once-History = reconciled renewal (session_with []) once (created renewal refl) refl

History-IsTidy_example : IsTidy server once.cjob
History-IsTidy_example = History-IsTidy server once-History
