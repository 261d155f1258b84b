-- ===== src/Run/Slots.antt =====
-- The bound on the Jobs that one pass creates.
use certificate_job_operator.Prelude.{
  ℕ, zero, suc, ◌+◌, ◌≤◌, some, List, [], ◌∷◌, Str, Map, length, length-append, sort_strings, ◌≡◌,
  refl, ap, inl, inr, arith, Option-cases,
}
use certificate_job_operator.Prelude.Int.{pos, pos_part, ◌-ℤ◌}
use certificate_job_operator.Api.{
  Time, Certificate, CertificateJob, CertificateExecutionState, WorkflowNodeState, Job,
}
use certificate_job_operator.Client.{Response-cases, Client, Session, ApiError}
use certificate_job_operator.Workflow.Nodes.{update_node, ensure_workflow_node_states}
use certificate_job_operator.Workflow.Runnable.{runnable_nodes}
use certificate_job_operator.Workflow.Failure.{apply_failure_policy}
use certificate_job_operator.Workflow.Graph.{Graph}
use certificate_job_operator.Run.{
  requested_parallelism, Outcome, conclude_run, fill_slots, continue_run, reconcile_certificate_run,
}
use certificate_job_operator.Run.Observe.{Observation, observe_nodes, observe_workflow_node_jobs}
use certificate_job_operator.Run.Schedule.{
  start_node, job_name_of, job_of, Scheduled, create_with, create_missing, launch, schedule_from,
  schedule_runnable_nodes,
}

module _ (c : Client) where
  open c use {World, get_job, create_job, set_controller_reference}

  -- Observing Jobs creates none.
  pub observe_nodes-created :
      (namespace : Str) (t : Time) (ns : List WorkflowNodeState) (s : Session World)
      → (observe_nodes c namespace t ns s).session.created ≡ s.created
  unfolding observe_nodes
  observe_nodes-created namespace t [] s = refl
  observe_nodes-created namespace t (n ∷ ns) s =
      let s' = record s { world = (get_job s.world namespace n.job_name).0 } in
      ground
        (arith, observe_nodes-created namespace t ns s, observe_nodes-created namespace t ns s')

  pub observe-created :
      (namespace : Str) (t : Time) (ns : List WorkflowNodeState) (s : Session World)
      → (observe_workflow_node_jobs c namespace t ns s).session.created ≡ s.created
  unfolding observe_workflow_node_jobs
  observe-created namespace t ns s = ground (arith, observe_nodes-created namespace t ns s)

  module _ (cjob : CertificateJob) (cert : Certificate) (run_id : Str) where
    create_with-created :
        (job : Job) (s : Session World)
        → length (create_with c cjob cert run_id job s).0.created ≤ suc (length s.created)
    unfolding create_with
    create_with-created job s = ground (arith, length-append s.created (job ∷ []))

    create_missing-created :
        (name : Str) (s : Session World)
        → length (create_missing c cjob cert run_id name s).0.created ≤ suc (length s.created)
    unfolding create_missing
    create_missing-created name s =
        elim (Response-cases (set_controller_reference cjob (job_of c cjob cert run_id name))) [
          | inl (job, e) ↦ rw (e, create_missing) (create_with-created job s)
          | inr (inl e) ↦ ground arith
          | inr (inr (m, e)) ↦ ground arith
        ]

    launch-created :
        (name : Str) (s : Session World)
        → length (launch c cjob cert run_id name s).0.created ≤ suc (length s.created)
    unfolding launch
    launch-created name s =
        let s' = record s {
          world = (get_job s.world cert.namespace (job_name_of c cjob cert run_id name)).0;
        } in
        ground (arith, create_missing-created name s')

    launch-failed :
        (name : Str) (s : Session World) {e : ApiError}
        → (launch c cjob cert run_id name s).1 ≡ some e
        → length (launch c cjob cert run_id name s).0.created ≡ length s.created
    unfolding launch create_missing create_with
    launch-failed name s h = ground arith

    -- No more rounds than slots, and no more Jobs than rounds.
    pub schedule_from-bound :
        (names : List Str) (t : Time) (slots : ℕ) (nodes : List WorkflowNodeState)
        (s : Session World)
        → let sch = schedule_from c cjob cert run_id names t slots nodes s in
          (sch.scheduled ≤ slots) × (length sch.session.created ≤ length s.created + sch.scheduled)
    unfolding schedule_from
    schedule_from-bound [] t slots nodes s = (omega arith, omega arith)
    schedule_from-bound (name ∷ names) t zero nodes s = (omega arith, omega arith)
    schedule_from-bound (name ∷ names) t (suc slots) nodes s = ground (
      arith,
      launch-created name s,
      launch-failed name s,
      schedule_from-bound names t slots
          (update_node name (start_node (job_name_of c cjob cert run_id name) t) nodes)
          (launch c cjob cert run_id name s).0,
    )

    pub schedule_runnable_nodes-bound :
        (deps : Map (List Str)) (t : Time) (slots : ℕ) (nodes : List WorkflowNodeState)
        (s : Session World) {sch : Scheduled c cjob cert run_id}
        → schedule_runnable_nodes c cjob cert run_id deps t slots nodes s ≡ some sch
        → (sch.scheduled ≤ slots) × (length sch.session.created ≤ length s.created + sch.scheduled)
    unfolding schedule_runnable_nodes
    schedule_runnable_nodes-bound deps t slots nodes s {sch} h =
        elim (Option-cases (runnable_nodes cjob.spec.failure_policy nodes deps)) [
          | inl panic ↦ ground arith
          | inr (names, e) ↦
              let bound = schedule_from-bound (sort_strings names) t slots nodes s in ground arith
        ]

module _ (c : Client) (cjob : CertificateJob) (cert : Certificate) (graph : Graph) where
  open c use {World, now, skip_time}

  fill_slots-created :
      (state : CertificateExecutionState) (t : Time) (o : Observation c)
      (nodes : List WorkflowNodeState) {out : Outcome c}
      → fill_slots c cjob cert graph state t o nodes ≡ some out
      → length out.session.created
        ≤ length o.session.created + pos_part (requested_parallelism cjob.spec -ℤ pos o.active)
  unfolding fill_slots conclude_run
  fill_slots-created state t o nodes {out} h =
      let slots = requested_parallelism cjob.spec -ℤ pos o.active in
      elim (Option-cases (
        schedule_runnable_nodes c cjob cert state.run_id graph.deps t (pos_part slots) nodes
          o.session)) [
            | inl panic ↦ ground arith
            | inr (sch, e) ↦
                let bound =
                  schedule_runnable_nodes-bound c cjob cert state.run_id graph.deps t
                    (pos_part slots) nodes o.session {sch = sch} e in
                ground arith
          ]

  -- One pass creates no more Jobs than the requested parallelism leaves free beside the nodes that
  -- were counted as active.
  pub reconcile_certificate_run-slots :
      (state : CertificateExecutionState) (s : Session World) {out : Outcome c}
      → reconcile_certificate_run c cjob cert graph state s ≡ some out
      → let o =
          observe_workflow_node_jobs c cert.namespace
            (now s.world)
            (ensure_workflow_node_states cjob.spec.jobs state.nodes)
            s in
        length out.session.created
        ≤ length s.created + pos_part (requested_parallelism cjob.spec -ℤ pos o.active)
  unfolding reconcile_certificate_run continue_run
  reconcile_certificate_run-slots state s {out} h =
      let nodes = ensure_workflow_node_states cjob.spec.jobs state.nodes in
      let o = observe_workflow_node_jobs c cert.namespace (now s.world) nodes s in
      let same = observe-created c cert.namespace (now s.world) nodes s in
      elim (Option-cases o.error) [
        | inr (e, failed) ↦ ground arith
        | inl fine ↦
            elim (Option-cases (
              apply_failure_policy (skip_time o.session.world) cjob.spec.failure_policy o.nodes
                graph.reverse o.failed_nodes)) [
                  | inl panic ↦ ground arith
                  | inr (nodes', e) ↦
                      let bound = fill_slots-created state (now s.world) o nodes' {out = out} in
                      ground (arith, ap (λ l. length l) same)
                ]
      ]
