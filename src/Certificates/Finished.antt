-- ===== src/Certificates/Finished.antt =====
-- A run that is over stays as it is until its input changes.
use certificate_job_operator.Prelude.{
  true, none, some, List, [], Str, ==_iff, ◌≡◌, refl, sym, ap, ◌∙◌, ◌≢◌, inl, inr, arith,
  Option-cases, subst,
}
use certificate_job_operator.Prelude.Int.{pos, pos_part, ◌-ℤ◌}
use certificate_job_operator.Api.{
  Time, ExecutionPhase, failed, Certificate, Secret, CertificateJob, CertificateExecutionState,
  WorkflowNodeState,
}
use certificate_job_operator.Client.{Client, Session, ok}
use certificate_job_operator.Workflow.Nodes.{
  is_failed, is_terminal_phase, ensure_workflow_node_states,
}
use certificate_job_operator.Workflow.Phase.{
  SomeNode, derive_workflow_phase, derive_workflow_phase_iff,
}
use certificate_job_operator.Workflow.Failure.{apply_failure_policy}
use certificate_job_operator.Workflow.Graph.{Graph}
use certificate_job_operator.Run.{
  Outcome, conclude_run, fill_slots, continue_run, reconcile_certificate_run, requested_parallelism,
}
use certificate_job_operator.Run.Observe.{Observation, observe_workflow_node_jobs}
use certificate_job_operator.Run.Schedule.{schedule_runnable_nodes}
use certificate_job_operator.Certificates.{
  apply_input_hash_transition, no_progress, build_input_hash, run_unless_terminal, with_secret,
  read_secret, reconcile_observed_certificate,
}
use certificate_job_operator.Certificates.Rerun.{apply_input_hash_transition_lem}

module _ (c : Client) (cjob : CertificateJob) (cert : Certificate) (graph : Graph) where
  open c use {World, get_secret, now, skip_time}

  -- The secret can be read, and the input has the hash.
  pub record HasInput (workflow_hash input_hash : Str) (s : Session World) : Type 0 where
    pub named : cert.spec.secret_name ≢ []
    pub secret : Secret
    pub readable : (get_secret s.world cert.namespace cert.spec.secret_name).1 ≡ ok secret
    pub hashed : build_input_hash c cert secret workflow_hash ≡ ok input_hash

  -- A run that is over and has seen the present input is left exactly as it is: nothing of the
  -- state changes, no Job is created, no requeue is asked for, and the result only says whether the
  -- run failed.
  pub finished_run_is_left :
      (workflow_hash : Str) (t : Time) (state : CertificateExecutionState) (s : Session World)
      → HasInput workflow_hash state.input_hash s
      → state.input_hash ≢ []
      → is_terminal_phase state.phase ≡ true
      → reconcile_observed_certificate c cjob cert graph workflow_hash t state s
        ≡ some (record {
          state = state;
          session = record s {
            world = (get_secret s.world cert.namespace cert.spec.secret_name).0;
          };
          progress = record no_progress { any_failed = is_failed state.phase };
        })
  unfolding reconcile_observed_certificate read_secret with_secret run_unless_terminal
  finished_run_is_left workflow_hash t state s h some_hash over =
      let cases =
        apply_input_hash_transition_lem cjob.spec.jobs cert.spec.secret_name state state.input_hash
          t in
      let same : apply_input_hash_transition cjob.spec.jobs cert.spec.secret_name state
            state.input_hash t
          ≡ state =
        ground arith in
      ground (arith, ==_iff cert.spec.secret_name [], h.readable, h.hashed)

  concluded_phase :
      (state : CertificateExecutionState) (t : Time) (nodes : List WorkflowNodeState)
      (s : Session World)
      → SomeNode failed nodes
      → (conclude_run c state t nodes s).state.phase ≡ failed
  unfolding conclude_run
  concluded_phase state t nodes s m = (derive_workflow_phase_iff nodes).0.1 m

  filled_phase :
      (state : CertificateExecutionState) (t : Time) (o : Observation c)
      (nodes : List WorkflowNodeState) {out : Outcome c}
      → fill_slots c cjob cert graph state t o nodes ≡ some out
      → out.error ≡ none
      → (out.state.phase ≡ derive_workflow_phase out.state.nodes)
        × (out.state.input_hash ≡ state.input_hash)
  unfolding fill_slots conclude_run
  filled_phase state t o nodes {out} h fine =
      let slots = requested_parallelism cjob.spec -ℤ pos o.active in
      elim (Option-cases (
        schedule_runnable_nodes c cjob cert state.run_id graph.deps t (pos_part slots) nodes
          o.session)) [
            | inl panic ↦ ground arith
            | inr (sch, e) ↦ elim (Option-cases sch.error) [
              | inl good ↦ ground arith
              | inr (x, bad) ↦ ground arith
            ]
          ]

  -- A pass that ends without an error leaves the phase that follows from the nodes it leaves.
  pub reconcile_certificate_run-phase :
      (state : CertificateExecutionState) (s : Session World) {out : Outcome c}
      → reconcile_certificate_run c cjob cert graph state s ≡ some out
      → out.error ≡ none
      → (out.state.phase ≡ derive_workflow_phase out.state.nodes)
        × (out.state.input_hash ≡ state.input_hash)
  unfolding reconcile_certificate_run continue_run
  reconcile_certificate_run-phase state s {out} h fine =
      let nodes = ensure_workflow_node_states cjob.spec.jobs state.nodes in
      let o = observe_workflow_node_jobs c cert.namespace (now s.world) nodes s in
      elim (Option-cases o.error) [
        | inr (e, broken) ↦ ground arith
        | inl good ↦
            elim (Option-cases (
              apply_failure_policy (skip_time o.session.world) cjob.spec.failure_policy o.nodes
                graph.reverse o.failed_nodes)) [
                  | inl panic ↦ ground arith
                  | inr (nodes', e) ↦
                      filled_phase state (now s.world) o nodes' {out = out} (ground arith) fine
                ]
      ]

  -- Under every failure policy: once a pass ends with some node failed, the run is over. The next
  -- pass with the same input leaves every node as it is and creates no Job, also where other nodes
  -- are still pending or running.
  pub failed_node_ends_run :
      (state : CertificateExecutionState) (s s' : Session World) {out : Outcome c}
      (workflow_hash : Str) (t : Time)
      → reconcile_certificate_run c cjob cert graph state s ≡ some out
      → out.error ≡ none
      → SomeNode failed out.state.nodes
      → state.input_hash ≢ []
      → HasInput workflow_hash state.input_hash s'
      → reconcile_observed_certificate c cjob cert graph workflow_hash t out.state s'
        ≡ some (record {
          state = out.state;
          session = record s' {
            world = (get_secret s'.world cert.namespace cert.spec.secret_name).0;
          };
          progress = record no_progress { any_failed = true };
        })
  failed_node_ends_run state s s' {out} workflow_hash t h fine m some_hash input =
      let (phase, same_hash) = reconcile_certificate_run-phase state s {out = out} h fine in
      let is_over : out.state.phase ≡ failed =
        phase ∙ (derive_workflow_phase_iff out.state.nodes).0.1 m in
      let left =
        finished_run_is_left workflow_hash t out.state s'
          (subst (λ x. HasInput workflow_hash x s') (sym same_hash) input)
          (λ e. some_hash (sym same_hash ∙ e)) (unfold is_terminal_phase in rw is_over refl) in
      left
      ∙ ap
          (λ (p : ExecutionPhase). some (record {
            state = out.state;
            session = record s' {
              world = (get_secret s'.world cert.namespace cert.spec.secret_name).0;
            };
            progress = record no_progress { any_failed = is_failed p };
          }))
          is_over
