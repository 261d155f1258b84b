-- ===== src/Run/Progress.antt =====
-- About a pass over a run that waits for no Job (`reconcileCertificateRun`).
use certificate_job_operator.Prelude.{
  ℕ, zero, suc, none, some, List, [], Str, or_default, ◌≡◌, refl, sym, ap, ◌∙◌, ◌⊎◌, inl, inr,
  arith, Option-cases, subst, if◌then◌else◌,
}
use certificate_job_operator.Prelude.Int.{ℤ, pos, negsuc, pos_part, ltb_ℤ, ◌-ℤ◌}
use mathlib.Core.Option
use certificate_job_operator.Api.{
  Time, Certificate, CertificateJob, CertificateJobSpec, CertificateExecutionState,
  WorkflowNodeState,
}
use certificate_job_operator.Client.{Client, Session, ApiError}
use certificate_job_operator.Workflow.Nodes.{find_node, ensure_workflow_node_states}
use certificate_job_operator.Workflow.Runnable.{GraphKnown, IsRunnable}
use certificate_job_operator.Workflow.Ready.{IsPendingAt, IsQuiet, workflow-ready}
use certificate_job_operator.Workflow.Failure.{apply_failure_policy}
use certificate_job_operator.Workflow.Graph.{Graph, built, build_workflow_graph}
use certificate_job_operator.Workflow.Graph.Built.{build_workflow_graph_sound}
use certificate_job_operator.Run.{
  requested_parallelism, Outcome, conclude_run, fill_slots, continue_run, reconcile_certificate_run,
}
use certificate_job_operator.Run.Observe.{Observation, observe_workflow_node_jobs}
use certificate_job_operator.Run.Observe.Effect.{observe-names}
use certificate_job_operator.Run.Safety.{
  reconcile_certificate_run-returns, HasNodes, HasNodes-names, ensure-HasNodes, deps_known,
}
use certificate_job_operator.Run.Schedule.{schedule_runnable_nodes}
use certificate_job_operator.Run.Ordered.{started, schedule_runnable_nodes-starts}

-- Clamped from below by 1.
clamp-positive : (p : ℤ) → (n : ℕ) × ((if ltb_ℤ p (pos 1) then pos 1 else p) ≡ pos (suc n))
clamp-positive (pos zero) = (0, refl)
clamp-positive (pos (suc n)) = (n, ground arith)
clamp-positive (negsuc n) = (0, ground arith)

pub requested_parallelism-positive :
    (spec : CertificateJobSpec) → (n : ℕ) × (requested_parallelism spec ≡ pos (suc n))
unfolding requested_parallelism
requested_parallelism-positive spec = clamp-positive (or_default spec.parallelism (pos 1))

module _ (c : Client) (cjob : CertificateJob) (cert : Certificate) (graph : Graph) where
  open c use {World, now, skip_time}

  fill_slots-starts :
      (state : CertificateExecutionState) (t : Time) (o : Observation c)
      (nodes : List WorkflowNodeState) (ready : Str) {out : Outcome c}
      → o.active ≡ 0
      → GraphKnown nodes graph.deps
      → IsRunnable cjob.spec.failure_policy nodes graph.deps ready
      → fill_slots c cjob cert graph state t o nodes ≡ some out
      → out.error ≡ none
      → (name : Str) × IsRunnable cjob.spec.failure_policy nodes graph.deps name
        × (find_node name out.state.nodes
            ≡ Option.map (started c cjob cert state.run_id name t) (find_node name nodes))
  unfolding fill_slots conclude_run
  fill_slots-starts state t o nodes ready {out} idle known is_ready h fine =
      let (n, parallel) = requested_parallelism-positive cjob.spec in
      let slots = requested_parallelism cjob.spec -ℤ pos o.active in
      let exact : slots ≡ pos (suc n) = rw (parallel, idle) (ground arith) in
      let free : pos_part slots ≡ suc n = ap (λ z. pos_part z) exact in
      elim (Option-cases (
        schedule_runnable_nodes c cjob cert state.run_id graph.deps t (pos_part slots) nodes
          o.session)) [
            | inl panic ↦ absurd (ground arith)
            | inr (sch, e) ↦
                let e' =
                  subst
                    (λ k.
                      schedule_runnable_nodes c cjob cert state.run_id graph.deps t k nodes
                        o.session
                      ≡ some sch)
                    free e in
                elim (Option-cases sch.error) [
                  | inr (err, failed) ↦ absurd (ground arith)
                  | inl ok ↦
                      let (name, is_ready', begun) =
                        schedule_runnable_nodes-starts c cjob cert state.run_id graph.deps t n nodes
                          o.session ready {sch = sch} known is_ready e' ok in
                      let same : out.state.nodes ≡ sch.nodes = ground arith in
                      (name, is_ready', ap (find_node name) same ∙ begun)
                ]
          ]

  pub continue_run-unharmed :
      (state : CertificateExecutionState) (t : Time) (o : Observation c)
      → o.error ≡ none
      → o.failed_nodes ≡ []
      → continue_run c cjob cert graph state t o ≡ fill_slots c cjob cert graph state t o o.nodes
  unfolding continue_run apply_failure_policy
  continue_run-unharmed state t o clean unharmed =
      rw (clean, unharmed, continue_run, apply_failure_policy) refl

  -- A run in which no node runs and some node is pending is not stuck, for a workflow that
  -- `buildWorkflowGraph` accepts. Take a pass whose look at the Jobs meets no error, finds no new
  -- failure and counts no active node, and leaves every node pending, succeeded, skipped or, under
  -- BestEffort, failed. If some node is pending then, the pass returns, and it ends with an error of
  -- the API server or it has started a node that was pending, with every dependency met.
  pub reconcile_certificate_run-progresses :
      (state : CertificateExecutionState) (s : Session World) (name : Str)
      → let o =
          observe_workflow_node_jobs c cert.namespace
            (now s.world)
            (ensure_workflow_node_states cjob.spec.jobs state.nodes)
            s in
        build_workflow_graph cjob.spec ≡ built graph
        → o.error ≡ none
        → o.failed_nodes ≡ []
        → o.active ≡ 0
        → IsQuiet cjob.spec.failure_policy o.nodes
        → IsPendingAt o.nodes name
        → (out : Outcome c) × (reconcile_certificate_run c cjob cert graph state s ≡ some out)
          × (((e : ApiError) × (out.error ≡ some e))
              ⊎ ((ready : Str) × IsRunnable cjob.spec.failure_policy o.nodes graph.deps ready
                  × (find_node ready out.state.nodes
                      ≡ Option.map
                          (started c cjob cert state.run_id ready (now s.world))
                          (find_node ready o.nodes))))
  unfolding reconcile_certificate_run
  reconcile_certificate_run-progresses state s name h clean unharmed idle quiet waits =
      let (w, is_graph) = build_workflow_graph_sound cjob.spec h in
      let nodes = ensure_workflow_node_states cjob.spec.jobs state.nodes in
      let o = observe_workflow_node_jobs c cert.namespace (now s.world) nodes s in
      let has : HasNodes cjob.spec.jobs o.nodes =
        HasNodes-names cjob.spec.jobs nodes o.nodes
          (observe-names c cert.namespace (now s.world) nodes s)
          (ensure-HasNodes cjob.spec.jobs state.nodes) in
      let known = deps_known cjob.spec graph o.nodes w is_graph has in
      let (ready, is_ready) =
        workflow-ready cjob.spec.failure_policy cjob.spec graph o.nodes name w is_graph known quiet
          waits in
      let (out, e) = reconcile_certificate_run-returns c cjob cert graph state s h in
      let filled : fill_slots c cjob cert graph state (now s.world) o o.nodes ≡ some out =
        sym (continue_run-unharmed state (now s.world) o clean unharmed) ∙ e in
      (
        out,
        e,
        elim (Option-cases out.error) [
          | inr (err, failed) ↦ inl (err, failed)
          | inl fine ↦ inr (
              fill_slots-starts state (now s.world) o o.nodes ready {out = out} idle known is_ready
                filled fine)
        ],
      )
