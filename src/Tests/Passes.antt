-- ===== src/Tests/Passes.antt =====
-- Tests of the passes over a certificate.
use certificate_job_operator.Prelude.{
  Option, true, false, some, none, List, [], ◌∷◌, ◌++◌, str, ◌≤◌, ◌≡◌, ◌≢◌, ◌⊎◌, refl, ◌==◌, arith,
  Memᴰ, All,
}
use certificate_job_operator.Api.{
  Job, WorkflowNodeState, CertificateExecutionState, ExecutionPhase, pending, running, succeeded,
}
use certificate_job_operator.JobSecurity.{validate_job_template_security, validate_reserved_labels}
use certificate_job_operator.JobSecurity.Policy.{validate_job_template_security_iff}
use certificate_job_operator.Templates.{check_template}
use certificate_job_operator.Workflow.Nodes.{is_terminal_phase, node_state_map, find_node}
use certificate_job_operator.Workflow.Graph.{Graph, build_workflow_graph, built}
use certificate_job_operator.Run.{Outcome, reconcile_certificate_run}
use certificate_job_operator.Run.Safety.{reconcile_certificate_run-returns}
use certificate_job_operator.Run.Slots.{reconcile_certificate_run-slots}
use certificate_job_operator.Run.Schedule.{Scheduled, schedule_runnable_nodes}
use certificate_job_operator.Run.Launched.{
  IsSafeJob, OnlySetsOwner, HasRestrictedPod, schedule_runnable_nodes-safe,
}
use certificate_job_operator.Certificates.{
  build_input_hash, no_progress, apply_input_hash_transition, deferral_message,
  reconcile_observed_certificate,
}
use certificate_job_operator.Certificates.Rerun.{
  IsDue, IsFreshRun, IsTooEarly, apply_input_hash_transition_lem,
}
use certificate_job_operator.Certificates.Finished.{
  HasInput, failed_node_ends_run, finished_run_is_left,
}
use certificate_job_operator.Tests.{
  workflow, renewal, site, site_secret, plain_job, server, session_with, job_in, node,
}

abbrev pub graph : Graph
graph = record {
  job_names = str "notify" ∷ str "deploy" ∷ str "issue" ∷ [];
  deps = (str "issue", []) ∷ (str "deploy", str "issue" ∷ []) ∷ (str "notify", []) ∷ [];
  reverse = (str "issue", str "deploy" ∷ []) ∷ (str "deploy", []) ∷ (str "notify", []) ∷ [];
}

pub graph_built : build_workflow_graph renewal.spec ≡ built graph
unfolding build_workflow_graph ◌==◌ check_template validate_reserved_labels
    validate_job_template_security
graph_built = refl

abbrev pub state_with : ExecutionPhase → List WorkflowNodeState → CertificateExecutionState
state_with phase nodes = record {
  namespace = str "web";
  name = str "site";
  secret_name = str "site-tls";
  input_hash = str "0a1b2c3d4e5f60718293";
  run_id = str "0a1b2c3d4e5f";
  phase = phase;
  message = [];
  last_triggered_time = some 1;
  last_completed_time = none;
  nodes = nodes;
}

-- A run that was triggered, and has no node yet.
abbrev pub started : CertificateExecutionState
started = state_with pending []

reconcile_certificate_run-returns_example :
    (out : Outcome server) × (reconcile_certificate_run server renewal site graph started
        (session_with [])
      ≡ some out)
reconcile_certificate_run-returns_example =
    reconcile_certificate_run-returns server renewal site graph started (session_with [])
      graph_built

-- The first pass fills both slots.
reconcile_certificate_run-slots_example : 2 ≤ 2
unfolding reconcile_certificate_run ◌==◌ node_state_map
reconcile_certificate_run-slots_example =
    reconcile_certificate_run-slots server renewal site graph started (session_with []) refl

plain_accepted : validate_job_template_security plain_job ≡ none
unfolding validate_job_template_security ◌==◌
plain_accepted = refl

workflow_restricted : All HasRestrictedPod workflow.jobs
workflow_restricted =
    let plain = (validate_job_template_security_iff plain_job).0 plain_accepted in
    (plain, (plain, (plain, tt)))

server_owner : OnlySetsOwner server renewal site (str "run")
server_owner job job' h = (some renewal.name, ground arith)

pub secret_named : site.spec.secret_name ≢ []
secret_named = λ e. ground arith

abbrev pub scheduled_or : Option (Scheduled server renewal site (str "run")) → List Job
scheduled_or none = []
scheduled_or (some sch) = sch.session.created

abbrev pub waiting : List WorkflowNodeState
waiting =
    node (str "issue") [] pending
    ∷ node (str "deploy") [] pending
    ∷ node (str "notify") [] pending
    ∷ []

-- What one slot makes of the waiting nodes: the Job of "issue".
schedule_runnable_nodes-safe_example :
    (jobs : List Job) × (scheduled_or (
        schedule_runnable_nodes server renewal site
          (str "run")
          graph.deps
          7
          1
          waiting
          (session_with []))
      ≡ [] ++ jobs)
    × All (IsSafeJob server renewal site (str "run")) jobs
unfolding schedule_runnable_nodes node_state_map find_node ◌==◌
schedule_runnable_nodes-safe_example =
    schedule_runnable_nodes-safe server renewal site (str "run") server_owner workflow_restricted
      secret_named graph.deps 7 1 waiting (session_with []) refl

abbrev failed_job : Job
failed_job = job_in (str "job-1") (record { type = str "Failed"; status = str "True" } ∷ [])

-- "issue" runs in a Job that failed.
abbrev failing : CertificateExecutionState
failing =
    state_with running
      (node (str "issue") (str "job-1") running ∷ node (str "deploy") [] pending ∷ [])

abbrev outcome_or : Option (Outcome server) → Outcome server
outcome_or (some out) = out
outcome_or none = record {
  state = failing;
  session = session_with [];
  is_running = false;
  has_failed = false;
  error = none;
}

abbrev failed_pass : Outcome server
failed_pass =
    outcome_or
      (reconcile_certificate_run server renewal site graph failing (session_with (failed_job ∷ [])))

-- The secret is readable, and the hash is that of the run.
has_input :
    HasInput server renewal site graph
      (str "workflow")
      (str "0a1b2c3d4e5f60718293")
      (session_with [])
unfolding build_input_hash
has_input = record { named = secret_named; secret = site_secret; readable = refl; hashed = refl }

some_hash : str "0a1b2c3d4e5f60718293" ≢ []
some_hash = λ e. ground arith

failed_node_ends_run_example :
    reconcile_observed_certificate server renewal site graph
      (str "workflow")
      9
      failed_pass.state
      (session_with [])
    ≡ some (record {
      state = failed_pass.state;
      session = session_with [];
      progress = record no_progress { any_failed = true };
    })
unfolding reconcile_certificate_run node_state_map ◌==◌
failed_node_ends_run_example =
    failed_node_ends_run server renewal site graph failing (session_with (failed_job ∷ []))
      (session_with []) {out = failed_pass} (str "workflow") 9 refl refl (Memᴰ.head refl) some_hash
      has_input

finished_run_is_left_example :
    reconcile_observed_certificate server renewal site graph
      (str "workflow")
      9
      (state_with succeeded waiting)
      (session_with [])
    ≡ some (record {
      state = state_with succeeded waiting;
      session = session_with [];
      progress = record no_progress { any_failed = false };
    })
unfolding is_terminal_phase
finished_run_is_left_example =
    finished_run_is_left server renewal site graph (str "workflow") 9 (state_with succeeded waiting)
      (session_with []) has_input some_hash refl

apply_input_hash_transition_lem_example :
    let state = state_with succeeded [] in
    let state' = apply_input_hash_transition workflow.jobs (str "site-tls") state (str "new") 9 in
    (IsDue state (str "new") × IsFreshRun workflow.jobs (str "site-tls") (str "new") 9 state state')
    ⊎ ((IsTooEarly state (str "new") × (state' ≡ record state { message = deferral_message }))
        ⊎ (((state.input_hash ≢ []) × (state.input_hash ≡ str "new")) × (state' ≡ state)))
apply_input_hash_transition_lem_example =
    apply_input_hash_transition_lem workflow.jobs (str "site-tls") (state_with succeeded [])
      (str "new") 9
