-- ===== src/Tests/Observations.antt =====
-- Tests of passes over the Jobs of a run.
use mathlib.Core.List.Memᴰ
use certificate_job_operator.Prelude.{
  some, List, [], ◌∷◌, Str, str, ◌==◌, ◌≤◌, ◌≡◌, ◌⊎◌, inl, inr, refl, arith, Memᴰ, contains, lookup,
}
use certificate_job_operator.Prelude.Int.{pos}
use certificate_job_operator.Api.{
  CertificateJob, CertificateExecutionState, Job, WorkflowNodeState, continue_independent, pending,
  running, succeeded,
}
use certificate_job_operator.JobSecurity.{validate_job_template_security, validate_reserved_labels}
use certificate_job_operator.Templates.{check_template}
use certificate_job_operator.Client.{Client, ApiError, Response, ok, failed_with, not_found}
use certificate_job_operator.Workflow.Graph.{build_workflow_graph, built}
use certificate_job_operator.Workflow.Nodes.{find_node, ensure_workflow_node_states}
use certificate_job_operator.Workflow.Runnable.{IsRunnable, neighbours}
use certificate_job_operator.Run.{requested_parallelism, Outcome, reconcile_certificate_run}
use certificate_job_operator.Run.Observe.{is_job_complete, is_job_failed}
use certificate_job_operator.Run.Removed.{HasEndedAsFailed, removed_job_fails_run}
use certificate_job_operator.Run.Exceeded.{running_count, parallelism_is_exceeded}
use certificate_job_operator.Tests.{renewal, site, server, session_with, job_in, node}
use certificate_job_operator.Tests.Passes.{graph, graph_built, state_with}

-- A server with no Jobs answers every request so.
abbrev no_jobs_left : Str → Response Job
no_jobs_left name = failed_with not_found

abbrev empty_server : Client
empty_server = record server { get_job = λ jobs namespace name. (jobs, no_jobs_left name) }

-- "issue" had succeeded, and its Job was removed.
abbrev removed : WorkflowNodeState
removed = node (str "issue") (str "job-1") succeeded

abbrev halfway : CertificateExecutionState
halfway = state_with running (removed ∷ [])

removed_job_fails_run_example :
    (out : Outcome empty_server) × (reconcile_certificate_run empty_server renewal site graph
        halfway
        (session_with [])
      ≡ some out)
    × (((e : ApiError) × (out.error ≡ some e))
        ⊎ HasEndedAsFailed out.state out.is_running out.has_failed)
unfolding ensure_workflow_node_states ◌==◌ contains
removed_job_fails_run_example =
    removed_job_fails_run empty_server renewal site graph no_jobs_left halfway (session_with [])
      removed graph_built (refl, tt) (λ w name. refl)
      (λ _ m e. ground arith, (λ _ m e. ground arith, (λ _ m e. ground arith, tt))) (Memᴰ.head refl)
      (λ e. ground arith) refl

abbrev idle_job : Str → Response Job
idle_job name = ok (job_in name [])

abbrev idle_server : Client
idle_server = record server { get_job = λ jobs namespace name. (jobs, idle_job name) }

-- The workflow with one node at a time.
abbrev narrow : CertificateJob
narrow = record renewal { spec = record (renewal.spec) { parallelism = some (pos 1) } }

narrow_built : build_workflow_graph narrow.spec ≡ built graph
unfolding build_workflow_graph ◌==◌ check_template validate_reserved_labels
    validate_job_template_security
narrow_built = refl

-- "issue" was started; "deploy" and "notify" have no node yet.
abbrev first_started : CertificateExecutionState
first_started = state_with running (node (str "issue") (str "job-1") running ∷ [])

abbrev one_running : List WorkflowNodeState
one_running =
    node (str "issue") (str "job-1") running
    ∷ node (str "deploy") [] pending
    ∷ node (str "notify") [] pending
    ∷ []

notify-IsRunnable : IsRunnable continue_independent one_running graph.deps (str "notify")
unfolding find_node neighbours ◌==◌ lookup
notify-IsRunnable = (node (str "notify") [] pending, refl, refl, λ dep m. absurd (Memᴰ.not-nil m))

parallelism_is_exceeded_example :
    (out : Outcome idle_server) × (reconcile_certificate_run idle_server narrow site graph
        first_started
        (session_with [])
      ≡ some out)
    × (((e : ApiError) × (out.error ≡ some e))
        ⊎ ((2 ≤ running_count out.state.nodes) × (2 ≤ running_count out.state.nodes)))
unfolding ensure_workflow_node_states ◌==◌ requested_parallelism is_job_complete is_job_failed
parallelism_is_exceeded_example =
    parallelism_is_exceeded idle_server narrow site graph idle_job first_started (session_with []) 1
      (str "notify") narrow_built (λ w name. refl)
      (
        inr (job_in (str "job-1") [], refl, λ e. ground arith, refl, refl, refl, refl),
        (inl refl, (inl refl, tt)),
      )
      notify-IsRunnable refl (ground arith)
