-- ===== src/Run/Names.antt =====
-- The names of the nodes in a pass over a run (`reconcileCertificateRun`).
use certificate_job_operator.Prelude.{
  ℕ, zero, suc, some, List, [], ◌∷◌, Str, Map, sort_strings, ◌≡◌, refl, sym, ap, ◌∙◌, inl, inr,
  arith, Option-cases,
}
use certificate_job_operator.Prelude.Int.{pos, pos_part, ◌-ℤ◌}
use certificate_job_operator.Api.{
  Time, Certificate, CertificateJob, CertificateExecutionState, WorkflowNodeState,
}
use certificate_job_operator.Client.{Client, Session}
use certificate_job_operator.Workflow.Nodes.{update_node, ensure_workflow_node_states}
use certificate_job_operator.Workflow.Nodes.Unique.{node_names, node_names-update}
use certificate_job_operator.Workflow.Runnable.{runnable_nodes}
use certificate_job_operator.Workflow.Failure.Effect.{apply_failure_policy-keeps}
use certificate_job_operator.Workflow.Graph.{Graph, built, build_workflow_graph}
use certificate_job_operator.Workflow.Graph.Built.{build_workflow_graph_sound}
use certificate_job_operator.Run.{
  requested_parallelism, Outcome, conclude_run, fill_slots, continue_run, reconcile_certificate_run,
}
use certificate_job_operator.Run.Observe.{Observation, observe_workflow_node_jobs}
use certificate_job_operator.Run.Observe.Effect.{observe-names}
use certificate_job_operator.Run.Safety.{HasNodes, HasNodes-names, ensure-HasNodes, reverse_known}
use certificate_job_operator.Run.Schedule.{
  start_node, job_name_of, Scheduled, launch, schedule_from, schedule_runnable_nodes,
}

module _ (c : Client) (cjob : CertificateJob) (cert : Certificate) (run_id : Str) where
  open c use {World}

  schedule_from-names :
      (names : List Str) (t : Time) (slots : ℕ) (nodes : List WorkflowNodeState) (s : Session World)
      → node_names (schedule_from c cjob cert run_id names t slots nodes s).nodes ≡ node_names nodes
  unfolding schedule_from
  schedule_from-names [] t slots nodes s = refl
  schedule_from-names (k ∷ names) t zero nodes s = refl
  schedule_from-names (k ∷ names) t (suc slots) nodes s =
      let start = start_node (job_name_of c cjob cert run_id k) t in
      elim (Option-cases ((launch c cjob cert run_id k s).1)) [
        | inr (e, broken) ↦ rw (broken, schedule_from) refl
        | inl fine ↦
            rw (fine, schedule_from)
              (schedule_from-names names t slots (update_node k start nodes)
                  (launch c cjob cert run_id k s).0
                ∙ node_names-update k start nodes (λ n. refl))
      ]

  schedule_runnable_nodes-names :
      (deps : Map (List Str)) (t : Time) (slots : ℕ) (nodes : List WorkflowNodeState)
      (s : Session World) {sch : Scheduled c cjob cert run_id}
      → schedule_runnable_nodes c cjob cert run_id deps t slots nodes s ≡ some sch
      → node_names sch.nodes ≡ node_names nodes
  unfolding schedule_runnable_nodes
  schedule_runnable_nodes-names deps t slots nodes s {sch} h =
      elim (Option-cases (runnable_nodes cjob.spec.failure_policy nodes deps)) [
        | inl panic ↦ ground arith
        | inr (names, e) ↦
            let same : (schedule_from c cjob cert run_id (sort_strings names) t slots nodes s).nodes
                ≡ sch.nodes =
              ground arith in
            ap (λ l. node_names l) (sym same)
            ∙ schedule_from-names (sort_strings names) t slots nodes s
      ]

module _ (c : Client) (cjob : CertificateJob) (cert : Certificate) (graph : Graph) where
  open c use {World, now, skip_time}

  fill_slots-names :
      (state : CertificateExecutionState) (t : Time) (o : Observation c)
      (nodes : List WorkflowNodeState) {out : Outcome c}
      → fill_slots c cjob cert graph state t o nodes ≡ some out
      → node_names out.state.nodes ≡ node_names nodes
  unfolding fill_slots conclude_run
  fill_slots-names state t o nodes {out} h =
      let slots = requested_parallelism cjob.spec -ℤ pos o.active in
      elim (Option-cases (
        schedule_runnable_nodes c cjob cert state.run_id graph.deps t (pos_part slots) nodes
          o.session)) [
            | inl panic ↦ ground arith
            | inr (sch, e) ↦
                let kept =
                  schedule_runnable_nodes-names c cjob cert state.run_id graph.deps t
                    (pos_part slots) nodes o.session {sch = sch} e in
                ground arith
          ]

  -- A pass has the nodes of before, and those of new jobs.
  pub reconcile_certificate_run-names :
      (state : CertificateExecutionState) (s : Session World) {out : Outcome c}
      → build_workflow_graph cjob.spec ≡ built graph
      → reconcile_certificate_run c cjob cert graph state s ≡ some out
      → node_names out.state.nodes
        ≡ node_names (ensure_workflow_node_states cjob.spec.jobs state.nodes)
  unfolding reconcile_certificate_run continue_run
  reconcile_certificate_run-names state s {out} accepted h =
      let (w, is_graph) = build_workflow_graph_sound cjob.spec accepted in
      let nodes = ensure_workflow_node_states cjob.spec.jobs state.nodes in
      let o = observe_workflow_node_jobs c cert.namespace (now s.world) nodes s in
      let seen = observe-names c cert.namespace (now s.world) nodes s in
      let has : HasNodes cjob.spec.jobs o.nodes =
        HasNodes-names cjob.spec.jobs nodes o.nodes seen
          (ensure-HasNodes cjob.spec.jobs state.nodes) in
      let (nodes', applied, names) =
        apply_failure_policy-keeps (skip_time o.session.world) cjob.spec.failure_policy o.nodes
          graph.reverse o.failed_nodes (reverse_known cjob.spec graph o.nodes w is_graph has) in
      elim (Option-cases o.error) [
        | inr (e, broken) ↦
            let same : out.state.nodes ≡ o.nodes = ground arith in
            ap (λ l. node_names l) same ∙ seen
        | inl good ↦
            let filled : fill_slots c cjob cert graph state (now s.world) o nodes' ≡ some out =
              ground arith in
            fill_slots-names state (now s.world) o nodes' {out = out} filled ∙ names ∙ seen
      ]
