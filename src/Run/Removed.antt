-- ===== src/Run/Removed.antt =====
-- About a pass that does not find the Job of a node (`reconcileCertificateRun`).
use certificate_job_operator.Prelude.{
  ℕ, Bool, true, false, some, List, [], Str, str, Distinct, ◌≡◌, refl, sym, ◌∙◌, ◌≢◌, ◌⊎◌, inl, inr,
  All, Memᴰ, arith, Option-cases, Bool-cases, subst,
}
use certificate_job_operator.Prelude.Int.{pos, pos_part, ltb_ℤ, ◌-ℤ◌}
use mathlib.Core.List.Memᴰ
use certificate_job_operator.Api.{
  Time, failed, Certificate, CertificateJob, CertificateExecutionState, WorkflowNodeState, Job,
}
use certificate_job_operator.Client.{Client, Session, ApiError, Response, failed_with, not_found}
use certificate_job_operator.Workflow.Nodes.{ensure_workflow_node_states}
use certificate_job_operator.Workflow.OwnNodes.{HaveOwnNodes, ensure-HaveOwnNodes}
use certificate_job_operator.Workflow.Runnable.{GraphKnown}
use certificate_job_operator.Workflow.Phase.{SomeNode, derive_workflow_phase_iff}
use certificate_job_operator.Workflow.Failure.Effect.{apply_failure_policy-keeps}
use certificate_job_operator.Workflow.Graph.{Graph, built, build_workflow_graph}
use certificate_job_operator.Workflow.Graph.Built.{build_workflow_graph_sound}
use certificate_job_operator.Run.{
  requested_parallelism, Outcome, conclude_run, fill_slots, continue_run, reconcile_certificate_run,
}
use certificate_job_operator.Run.Observe.{Observation, end_node, observe_workflow_node_jobs}
use certificate_job_operator.Run.Observe.Effect.{
  IsSnapshot, IsAnswered, observe-names, observe-IsObserved, missing_job_fails_node,
}
use certificate_job_operator.Run.Ordered.{schedule_runnable_nodes-ordered}
use certificate_job_operator.Run.Safety.{
  reconcile_certificate_run-returns, HasNodes, HasNodes-names, ensure-HasNodes, deps_known,
  reverse_known,
}
use certificate_job_operator.Run.Schedule.{Scheduled, schedule_runnable_nodes}
use certificate_job_operator.Workflow.Failure.Kept.{
  HasFailed, find_node-mem, mem-find_node, policy-keeps_failed,
}

-- How a pass ends where a node failed.
pub record HasEndedAsFailed (state : CertificateExecutionState) (goes_on has_failed : Bool)
    : Type 0 where
  pub phase : state.phase ≡ failed
  pub stops : goes_on ≡ false
  pub reports : has_failed ≡ true

module _ (c : Client) (cjob : CertificateJob) (cert : Certificate) (graph : Graph) where
  open c use {World, now, skip_time}

  abbrev Ends : Outcome c → Type 0
  Ends out =
      ((e : ApiError) × (out.error ≡ some e))
      ⊎ HasEndedAsFailed out.state out.is_running out.has_failed

  conclude_run-Ends :
      (state : CertificateExecutionState) (t : Time) (nodes : List WorkflowNodeState)
      (s : Session World)
      → SomeNode failed nodes
      → Ends (conclude_run c state t nodes s)
  unfolding conclude_run
  conclude_run-Ends state t nodes s m =
      let is_over = (derive_workflow_phase_iff nodes).0.1 m in
      inr (record { phase = is_over; stops = rw is_over refl; reports = rw is_over refl })

  -- Starting nodes leaves a failed one alone.
  schedule-keeps_failed :
      (run_id : Str) (t : Time) (slots : ℕ) (nodes : List WorkflowNodeState) (s : Session World)
      (n : WorkflowNodeState) {sch : Scheduled c cjob cert run_id}
      → GraphKnown nodes graph.deps
      → HaveOwnNodes nodes
      → HasFailed n nodes
      → schedule_runnable_nodes c cjob cert run_id graph.deps t slots nodes s ≡ some sch
      → SomeNode failed sch.nodes
  schedule-keeps_failed run_id t slots nodes s n {sch} known own (m, is_failed) h =
      let found = mem-find_node n nodes own m in
      elim (schedule_runnable_nodes-ordered c cjob cert run_id graph.deps t slots nodes s
        {sch = sch} known h n.name) [
          | inr ((x, there, waits, _), _) ↦ absurd (ground arith)
          | inl kept ↦
              subst (λ p. SomeNode p sch.nodes) is_failed
                (Memᴰ.map (λ (x : WorkflowNodeState). x.phase)
                  (find_node-mem n.name sch.nodes (kept ∙ found)))
        ]

  fill_slots-Ends :
      (state : CertificateExecutionState) (t : Time) (o : Observation c)
      (nodes : List WorkflowNodeState) (n : WorkflowNodeState) {out : Outcome c}
      → GraphKnown nodes graph.deps
      → HaveOwnNodes nodes
      → HasFailed n nodes
      → fill_slots c cjob cert graph state t o nodes ≡ some out
      → Ends out
  unfolding fill_slots
  fill_slots-Ends state t o nodes n {out} known own failure h =
      let slots = requested_parallelism cjob.spec -ℤ pos o.active in
      let some_failed : SomeNode failed nodes =
        subst (λ p. SomeNode p nodes) failure.1
          (Memᴰ.map (λ (x : WorkflowNodeState). x.phase) failure.0) in
      let scheduled =
        schedule_runnable_nodes c cjob cert state.run_id graph.deps t (pos_part slots) nodes
          o.session in
      elim (Bool-cases (ltb_ℤ (pos 0) slots)) [
        | inr full ↦
            let same : conclude_run c state t nodes o.session ≡ out = ground arith in
            subst Ends same (conclude_run-Ends state t nodes o.session some_failed)
        | inl free ↦ elim (Option-cases scheduled) [
          | inl panic ↦ absurd (ground arith)
          | inr (sch, e) ↦ elim (Option-cases sch.error) [
            | inr (x, broken) ↦ inl (x, ground arith)
            | inl good ↦
                let same : conclude_run c state t sch.nodes sch.session ≡ out = ground arith in
                subst Ends same (
                  conclude_run-Ends state t sch.nodes sch.session (
                    schedule-keeps_failed state.run_id t (pos_part slots) nodes o.session n
                      {sch = sch} known own failure e))
          ]
        ]
      ]

  -- For a workflow that `buildWorkflowGraph` accepts, and nodes of distinct names: when the Job that
  -- a node names is not found, a pass returns, and it meets an error of the API server, or it ends
  -- the run as Failed, reports the failure and stops, under every failure policy. The node may be
  -- in any phase: so a run ends as Failed also where the node had succeeded and its finished Job was
  -- removed. The API server answers the requests for Jobs from one snapshot, with no error but a
  -- missing Job.
  pub removed_job_fails_run :
      (answers : Str → Response Job) (state : CertificateExecutionState) (s : Session World)
      (n : WorkflowNodeState)
      → let nodes = ensure_workflow_node_states cjob.spec.jobs state.nodes in
        build_workflow_graph cjob.spec ≡ built graph
        → HaveOwnNodes state.nodes
        → IsSnapshot c cert.namespace (now s.world) answers
        → All (IsAnswered answers) nodes
        → Memᴰ n nodes
        → n.job_name ≢ []
        → answers n.job_name ≡ failed_with not_found
        → (out : Outcome c) × (reconcile_certificate_run c cjob cert graph state s ≡ some out)
          × (((e : ApiError) × (out.error ≡ some e))
              ⊎ HasEndedAsFailed out.state out.is_running out.has_failed)
  unfolding reconcile_certificate_run continue_run
  removed_job_fails_run answers state s n h own snap answered m has_job gone =
      let (w, is_graph) = build_workflow_graph_sound cjob.spec h in
      let t = now s.world in
      let nodes = ensure_workflow_node_states cjob.spec.jobs state.nodes in
      let o = observe_workflow_node_jobs c cert.namespace t nodes s in
      let names = observe-names c cert.namespace t nodes s in
      let has : HasNodes cjob.spec.jobs o.nodes =
        HasNodes-names cjob.spec.jobs nodes o.nodes names
          (ensure-HasNodes cjob.spec.jobs state.nodes) in
      let own' : HaveOwnNodes o.nodes =
        subst Distinct (sym names)
          (ensure-HaveOwnNodes cjob.spec.jobs state.nodes w.distinct own) in
      let (ended, listed) =
        missing_job_fails_node c cert.namespace t answers nodes s n snap answered m has_job gone in
      let known = reverse_known cjob.spec graph o.nodes w is_graph has in
      let (nodes', applied, names') =
        apply_failure_policy-keeps (skip_time o.session.world) cjob.spec.failure_policy o.nodes
          graph.reverse o.failed_nodes known in
      let has' = HasNodes-names cjob.spec.jobs o.nodes nodes' names' has in
      let kept =
        policy-keeps_failed (skip_time o.session.world) cjob.spec.failure_policy o.nodes nodes'
          graph.reverse o.failed_nodes (end_node n (str "job disappeared") t) known
          (λ e. Memᴰ.not-nil (subst (Memᴰ n.name) e listed)) own' applied (ended, refl) in
      let (out, e) = reconcile_certificate_run-returns c cjob cert graph state s h in
      let fine = (observe-IsObserved c cert.namespace t answers snap nodes s answered).error in
      (
        out,
        e,
        fill_slots-Ends state t o nodes' (end_node n (str "job disappeared") t) {out = out}
            (deps_known cjob.spec graph nodes' w is_graph has') (subst Distinct (sym names') own')
            (kept, refl) (ground arith),
      )
