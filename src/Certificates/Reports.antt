-- ===== src/Certificates/Reports.antt =====
-- The progress that a reconcile of a certificate returns (`reconcileObservedCertificate`).
use certificate_job_operator.Prelude.{
  Option, Bool, subst, not, none, some, List, [], Str, ==_iff, ◌≡◌, ◌≢◌, arith, inl, inr,
  Option-cases, Bool-cases,
}
use certificate_job_operator.Api.{
  Time, Certificate, Secret, CertificateJob, CertificateExecutionState, WorkflowNodeState,
}
use certificate_job_operator.Prelude.Int.{pos, pos_part, ltb_ℤ, ◌-ℤ◌}
use certificate_job_operator.Client.{Client, Session, ok, ApiError}
use certificate_job_operator.Workflow.Nodes.{
  ensure_workflow_node_states, is_failed, is_terminal_phase,
}
use certificate_job_operator.Workflow.Phase.{derive_workflow_phase-cases}
use certificate_job_operator.Workflow.Graph.{Graph}
use certificate_job_operator.Run.{
  requested_parallelism, Outcome, fill_slots, conclude_run, continue_run, reconcile_certificate_run,
}
use certificate_job_operator.Run.Observe.{Observation, observe_workflow_node_jobs}
use certificate_job_operator.Run.Schedule.{schedule_runnable_nodes}
use certificate_job_operator.Workflow.Failure.{apply_failure_policy}
use certificate_job_operator.Certificates.{
  Progress, Result, apply_input_hash_transition, build_input_hash, run_unless_terminal, with_secret,
  read_secret, reconcile_observed_certificate,
}

-- The progress says of a state whether it failed and whether it goes on.
pub record IsReport (state : CertificateExecutionState) (p : Progress) : Type 0 where
  pub failure : p.any_failed ≡ is_failed state.phase
  pub activity : p.any_in_progress ≡ not (is_terminal_phase state.phase)
  pub requeue : p.needs_requeue ≡ p.any_in_progress

-- What the run returns beside the state follows from the state, unless there was an error.
record IsOutcome (state : CertificateExecutionState) (goes_on has_failed : Bool)
    (error : Option ApiError) : Type 0 where
  activity : error ≡ none → goes_on ≡ not (is_terminal_phase state.phase)
  failure : error ≡ none → has_failed ≡ is_failed state.phase

module _ (c : Client) (cjob : CertificateJob) (cert : Certificate) (graph : Graph) where
  open c use {World, get_secret, now, skip_time}

  abbrev AnswersFor : Outcome c → Type 0
  AnswersFor out = IsOutcome out.state out.is_running out.has_failed out.error

  conclude_run-answers :
      (state : CertificateExecutionState) (t : Time) (nodes : List WorkflowNodeState)
      (s : Session World)
      → AnswersFor (conclude_run c state t nodes s)
  unfolding conclude_run is_terminal_phase
  conclude_run-answers state t nodes s =
      let cases = derive_workflow_phase-cases nodes in
      record { activity = λ fine. ground arith; failure = λ fine. ground arith }

  fill_slots-answers :
      (state : CertificateExecutionState) (t : Time) (o : Observation c)
      (nodes : List WorkflowNodeState) {out : Outcome c}
      → fill_slots c cjob cert graph state t o nodes ≡ some out
      → AnswersFor out
  unfolding fill_slots
  fill_slots-answers state t o nodes {out} h =
      let slots = requested_parallelism cjob.spec -ℤ pos o.active in
      let scheduled =
        schedule_runnable_nodes c cjob cert state.run_id graph.deps t (pos_part slots) nodes
          o.session in
      elim (Bool-cases (ltb_ℤ (pos 0) slots)) [
        | inr full ↦
            let same : conclude_run c state t nodes o.session ≡ out = ground arith in
            subst AnswersFor same (conclude_run-answers state t nodes o.session)
        | inl free ↦ elim (Option-cases scheduled) [
          | inl panic ↦ absurd (ground arith)
          | inr (sch, e) ↦ elim (Option-cases sch.error) [
            | inr (x, broken) ↦ record {
              activity = λ fine. absurd (ground arith);
              failure = λ fine. absurd (ground arith);
            }
            | inl good ↦
                let same : conclude_run c state t sch.nodes sch.session ≡ out = ground arith in
                subst AnswersFor same (conclude_run-answers state t sch.nodes sch.session)
          ]
        ]
      ]

  reconcile_certificate_run-answers :
      (state : CertificateExecutionState) (s : Session World) {out : Outcome c}
      → reconcile_certificate_run c cjob cert graph state s ≡ some out
      → AnswersFor out
  unfolding reconcile_certificate_run continue_run
  reconcile_certificate_run-answers state s {out} h =
      let nodes = ensure_workflow_node_states cjob.spec.jobs state.nodes in
      let o = observe_workflow_node_jobs c cert.namespace (now s.world) nodes s in
      elim (Option-cases o.error) [
        | inr (e, broken) ↦ record {
          activity = λ fine. absurd (ground arith);
          failure = λ fine. absurd (ground arith);
        }
        | inl good ↦
            elim (Option-cases (
              apply_failure_policy (skip_time o.session.world) cjob.spec.failure_policy o.nodes
                graph.reverse o.failed_nodes)) [
                  | inl panic ↦ absurd (ground arith)
                  | inr (nodes', e) ↦
                      fill_slots-answers state (now s.world) o nodes' {out = out} (ground arith)
                ]
      ]

  -- When the certificate names a secret that can be read, and its input can be hashed, the progress
  -- that a reconcile reports is that of the state it leaves: a failure exactly when the phase is
  -- Failed, and activity with a requeue exactly when the phase is not terminal.
  pub readable_secret_is_reported :
      (workflow_hash : Str) (t : Time) (state : CertificateExecutionState) (s : Session World)
      {secret : Secret} {input_hash : Str} {r : Result c}
      → cert.spec.secret_name ≢ []
      → (get_secret s.world cert.namespace cert.spec.secret_name).1 ≡ ok secret
      → build_input_hash c cert secret workflow_hash ≡ ok input_hash
      → reconcile_observed_certificate c cjob cert graph workflow_hash t state s ≡ some r
      → IsReport r.state r.progress
  unfolding reconcile_observed_certificate read_secret with_secret run_unless_terminal
  readable_secret_is_reported workflow_hash t state s {secret} {input_hash} {r} named readable
        hashed h =
      let s' = record s { world = (get_secret s.world cert.namespace cert.spec.secret_name).0 } in
      let state' =
        apply_input_hash_transition cjob.spec.jobs cert.spec.secret_name state input_hash t in
      let e : run_unless_terminal c cjob cert graph state' s' ≡ some r =
        ground (arith, ==_iff cert.spec.secret_name []) in
      elim (Bool-cases (is_terminal_phase state'.phase)) [
        | inl over ↦ ground arith
        | inr going ↦ elim (Option-cases (reconcile_certificate_run c cjob cert graph state' s')) [
          | inl panic ↦ ground arith
          | inr (out, runs) ↦
              let answers = reconcile_certificate_run-answers state' s' {out = out} runs in
              elim (Option-cases out.error) [
                | inl fine ↦ ground (arith, answers.activity fine, answers.failure fine)
                | inr (x, broken) ↦ unfold is_terminal_phase in ground arith
              ]
        ]
      ]
