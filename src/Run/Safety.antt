-- ===== src/Run/Safety.antt =====
-- About the nil pointers in a pass over a run (`reconcileCertificateRun`).
use certificate_job_operator.Prelude.{
  true, ◌||◌, some, List, [], ◌∷◌, ◌++◌, Str, ==_iff, contains, ◌≡◌, refl, sym, ap, ◌∙◌, inl, inr,
  Memᴰ, arith, Bool-cases, Option-cases, subst,
}
use certificate_job_operator.Prelude.Int.{pos, ◌-ℤ◌}
use certificate_job_operator.Api.{
  Time, Certificate, CertificateJob, CertificateJobTemplate, CertificateJobSpec,
  CertificateExecutionState, WorkflowNodeState,
}
use certificate_job_operator.Client.{Client, Session}
use certificate_job_operator.Workflow.Nodes.{
  has_node, new_node, ensure_from, ensure_workflow_node_states,
}
use certificate_job_operator.Workflow.Nodes.Unique.{node_names, has_node-find, has_node-names}
use certificate_job_operator.Workflow.Runnable.{GraphKnown, runnable_nodes_lem}
use certificate_job_operator.Workflow.Failure.Effect.{apply_failure_policy-keeps}
use certificate_job_operator.Workflow.Graph.{Graph, built, build_workflow_graph}
use certificate_job_operator.Workflow.Graph.Fill.{job_names_of}
use certificate_job_operator.Workflow.Graph.Built.{
  IsWorkflow, IsGraphOf, sources-known, targets-known, build_workflow_graph_sound,
}
use certificate_job_operator.Run.{
  requested_parallelism, Outcome, fill_slots, continue_run, reconcile_certificate_run,
}
use certificate_job_operator.Run.Observe.{Observation, observe_workflow_node_jobs}
use certificate_job_operator.Run.Observe.Effect.{observe-names}
use certificate_job_operator.Run.Schedule.{schedule_runnable_nodes}

-- Every job of the workflow has a node.
abbrev pub HasNodes : List CertificateJobTemplate → List WorkflowNodeState → Type 0
HasNodes jobs nodes =
    (name : Str) → contains (job_names_of jobs) name ≡ true → has_node name nodes ≡ true

has_node-append :
    (k : Str) (ms ns : List WorkflowNodeState)
    → has_node k (ms ++ ns) ≡ (has_node k ms || has_node k ns)
has_node-append k [] ns = refl
has_node-append k (m ∷ ms) ns = ground (arith, has_node-append k ms ns)

-- `ensureWorkflowNodeStates` keeps the nodes of the slice and adds those that are missing.
ensure_from-HasNodes :
    (known : List WorkflowNodeState) (jobs : List CertificateJobTemplate)
    (nodes : List WorkflowNodeState) (k : Str)
    → ((name : Str) → has_node name known ≡ true → has_node name nodes ≡ true)
    → (contains (job_names_of jobs) k || has_node k nodes) ≡ true
    → has_node k (ensure_from known jobs nodes) ≡ true
unfolding ensure_from contains
ensure_from-HasNodes known [] nodes k grows h = h
ensure_from-HasNodes known (job ∷ jobs) nodes k grows h =
    let added = λ (name : Str). has_node-append name nodes (new_node job.name ∷ []) in
    elim (Bool-cases (has_node job.name known)) [
      | inl old ↦ rw old (
          ensure_from-HasNodes known jobs nodes k grows
            (ground (arith, grows job.name, ==_iff job.name k)))
      | inr new ↦ rw new (
          ensure_from-HasNodes known jobs (nodes ++ new_node job.name ∷ []) k
            (λ name m. ground (arith, added name, grows name m)) (ground (arith, added k)))
    ]

pub ensure-HasNodes :
    (jobs : List CertificateJobTemplate) (nodes : List WorkflowNodeState)
    → HasNodes jobs (ensure_workflow_node_states jobs nodes)
unfolding ensure_workflow_node_states
ensure-HasNodes jobs nodes k h =
    ensure_from-HasNodes nodes jobs nodes k (λ name m. m) (ground arith)

-- Nodes of the same names have the same pointers.
pub HasNodes-names :
    (jobs : List CertificateJobTemplate) (ms ns : List WorkflowNodeState)
    → node_names ns ≡ node_names ms
    → HasNodes jobs ms
    → HasNodes jobs ns
HasNodes-names jobs ms ns same h k m =
    has_node-names k ns ∙ ap (λ l. contains l k) same ∙ sym (has_node-names k ms) ∙ h k m

pub deps_known :
    (spec : CertificateJobSpec) (g : Graph) (nodes : List WorkflowNodeState)
    → IsWorkflow spec
    → IsGraphOf spec g
    → HasNodes spec.jobs nodes
    → GraphKnown nodes g.deps
deps_known spec g nodes w is_graph has name dep m = has_node-find dep nodes (
    has dep (
      sources-known (job_names_of spec.jobs) spec.workflow.edges name dep w.edges
        (subst (Memᴰ dep) (is_graph.deps name) m)))

pub reverse_known :
    (spec : CertificateJobSpec) (g : Graph) (nodes : List WorkflowNodeState)
    → IsWorkflow spec
    → IsGraphOf spec g
    → HasNodes spec.jobs nodes
    → GraphKnown nodes g.reverse
reverse_known spec g nodes w is_graph has name dep m = has_node-find dep nodes (
    has dep (
      targets-known (job_names_of spec.jobs) spec.workflow.edges name dep w.edges
        (subst (Memᴰ dep) (is_graph.reverse name) m)))

module _ (c : Client) (cjob : CertificateJob) (cert : Certificate) (graph : Graph) where
  open c use {World, now, skip_time}

  fill_slots-returns :
      (state : CertificateExecutionState) (t : Time) (o : Observation c)
      (nodes : List WorkflowNodeState)
      → GraphKnown nodes graph.deps
      → (out : Outcome c) × (fill_slots c cjob cert graph state t o nodes ≡ some out)
  unfolding fill_slots schedule_runnable_nodes
  fill_slots-returns state t o nodes known =
      let (names, runs, _) = runnable_nodes_lem cjob.spec.failure_policy nodes graph.deps known in
      let slots = requested_parallelism cjob.spec -ℤ pos o.active in
      elim (Option-cases (fill_slots c cjob cert graph state t o nodes)) [
        | inl panic ↦ absurd (ground arith)
        | inr (out, e) ↦ (out, e)
      ]

  -- For a workflow that `buildWorkflowGraph` accepts, a pass over the run of a certificate always
  -- returns: whatever nodes the status holds and whatever the API server answers, none of the
  -- lookups in the maps of nodes meets a nil pointer.
  pub reconcile_certificate_run-returns :
      (state : CertificateExecutionState) (s : Session World)
      → build_workflow_graph cjob.spec ≡ built graph
      → (out : Outcome c) × (reconcile_certificate_run c cjob cert graph state s ≡ some out)
  unfolding reconcile_certificate_run continue_run
  reconcile_certificate_run-returns state s h =
      let (w, is_graph) = build_workflow_graph_sound cjob.spec h in
      let nodes = ensure_workflow_node_states cjob.spec.jobs state.nodes in
      let o = observe_workflow_node_jobs c cert.namespace (now s.world) nodes s in
      let has : HasNodes cjob.spec.jobs o.nodes =
        HasNodes-names cjob.spec.jobs nodes o.nodes
          (observe-names c cert.namespace (now s.world) nodes s)
          (ensure-HasNodes cjob.spec.jobs state.nodes) in
      let (nodes', applied, names) =
        apply_failure_policy-keeps (skip_time o.session.world) cjob.spec.failure_policy o.nodes
          graph.reverse o.failed_nodes (reverse_known cjob.spec graph o.nodes w is_graph has) in
      let has' = HasNodes-names cjob.spec.jobs o.nodes nodes' names has in
      let (out, e) =
        fill_slots-returns state (now s.world) o nodes'
          (deps_known cjob.spec graph nodes' w is_graph has') in
      elim (Option-cases (reconcile_certificate_run c cjob cert graph state s)) [
        | inl panic ↦ absurd (ground arith)
        | inr (result, r) ↦ (result, r)
      ]
