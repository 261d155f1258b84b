-- ===== src/Run.antt =====
-- One pass over the run of a certificate: `reconcileCertificateRun` and the functions that it calls
-- (internal/controller/certificatejob_controller.go).
pub mod Observe
pub mod Schedule
pub mod Slots
pub mod Safety
pub mod Launched
pub mod Ordered
pub mod Progress
pub mod Names
pub mod Removed
pub mod Exceeded
use certificate_job_operator.Prelude.{
  Bool, true, false, ◌||◌, Option, none, some, List, [], Str, Map, or_default, if◌then◌else◌,
}
use certificate_job_operator.Prelude.Int.{ℤ, pos, pos_part, ltb_ℤ, ◌-ℤ◌}
use certificate_job_operator.Api.{
  ExecutionPhase, running, pending, failed, Certificate, CertificateJob, CertificateJobSpec,
  CertificateExecutionState, WorkflowNodeState, Time,
}
use certificate_job_operator.Client.{Client, Session, ApiError}
use certificate_job_operator.Workflow.Nodes.{
  is_pending, is_failed, is_terminal_phase, ensure_workflow_node_states,
}
use certificate_job_operator.Workflow.Phase.{derive_workflow_phase}
use certificate_job_operator.Workflow.Failure.{apply_failure_policy}
use certificate_job_operator.Workflow.Graph.{Graph}
use certificate_job_operator.Run.Observe.{Observation, observe_workflow_node_jobs}
use certificate_job_operator.Run.Schedule.{Scheduled, schedule_runnable_nodes}

-- An `int32`, clamped from below.
unfoldable pub requested_parallelism : CertificateJobSpec → ℤ
requested_parallelism spec =
    let p = or_default spec.parallelism (pos 1) in if ltb_ℤ p (pos 1) then pos 1 else p

abbrev pub is_running : ExecutionPhase → Bool
is_running running = true
is_running _ = false

module _ (c : Client) where
  open c use {World, now, skip_time}

  -- The three results, with the state that the pointer leaves behind and the session.
  pub record Outcome : Type 0 where
    pub state : CertificateExecutionState
    pub session : Session World
    pub is_running : Bool
    pub has_failed : Bool
    pub error : Option ApiError

  -- The end of the function, from `state.Phase = deriveWorkflowPhase(state)`.
  unfoldable pub conclude_run :
      CertificateExecutionState → Time → List WorkflowNodeState → Session World → Outcome
  unfolding derive_workflow_phase is_terminal_phase
  conclude_run state t nodes s =
      let phase = derive_workflow_phase nodes in
      record {
        state = record state {
          nodes = nodes;
          phase = phase;
          last_completed_time =
              if is_terminal_phase phase then some t else state.last_completed_time;
        };
        session = s;
        is_running = is_running phase || is_pending phase;
        has_failed = is_failed phase;
        error = none;
      }

  module _ (cjob : CertificateJob) (cert : Certificate) (graph : Graph) where
    -- From `parallelism := requestedParallelism(cjob)`; `none` is a panic.
    unfoldable pub fill_slots :
        CertificateExecutionState → Time → Observation c → List WorkflowNodeState → Option Outcome
    unfolding requested_parallelism schedule_runnable_nodes conclude_run
    fill_slots state t o nodes =
        let slots = requested_parallelism cjob.spec -ℤ pos o.active in
        if ltb_ℤ (pos 0) slots
        then elim (schedule_runnable_nodes c cjob cert state.run_id graph.deps t (pos_part slots)
            nodes o.session) [
              | none ↦ none
              | some sch ↦ elim sch.error [
                | some e ↦ some (record {
                  state = record state { nodes = sch.nodes };
                  session = sch.session;
                  is_running = true;
                  has_failed = false;
                  error = some e;
                })
                | none ↦ some (conclude_run state t sch.nodes sch.session)
              ]
            ]
        else some (conclude_run state t nodes o.session)

    -- After the observation of the Jobs.
    unfoldable pub continue_run : CertificateExecutionState → Time → Observation c → Option Outcome
    unfolding fill_slots apply_failure_policy
    continue_run state t o = elim o.error [
      | some e ↦ some (record {
        state = record state { nodes = o.nodes };
        session = o.session;
        is_running = false;
        has_failed = true;
        error = some e;
      })
      | none ↦
          elim (apply_failure_policy (skip_time o.session.world) cjob.spec.failure_policy o.nodes
            graph.reverse o.failed_nodes) [ none ↦ none | some nodes ↦ fill_slots state t o nodes ]
    ]

    unfoldable pub reconcile_certificate_run :
        CertificateExecutionState → Session World → Option Outcome
    unfolding continue_run observe_workflow_node_jobs ensure_workflow_node_states
    reconcile_certificate_run state s =
        let nodes = ensure_workflow_node_states cjob.spec.jobs state.nodes in
        let t = now s.world in
        continue_run state t (observe_workflow_node_jobs c cert.namespace t nodes s)
