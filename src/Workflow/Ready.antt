-- ===== src/Workflow/Ready.antt =====
-- About the pending nodes of a workflow without cycles (`runnableNodes`).
use certificate_job_operator.Prelude.{
  true, some, List, [], ◌∷◌, Str, Map, ◌==◌, ==_iff, contains, ◌≡◌, refl, ◌⊎◌, inl, inr, ⊎_elim,
  All, Memᴰ, arith, Bool-cases, subst, sym,
}
use mathlib.Core.Path.{fun_ext}
use mathlib.Core.List.Memᴰ
use certificate_job_operator.Api.{
  FailurePolicy, pending, CertificateWorkflowEdge, CertificateJobSpec, WorkflowNodeState,
}
use certificate_job_operator.Workflow.Nodes.{has_node, find_node}
use certificate_job_operator.Workflow.Runnable.{
  neighbours, Satisfies, AllMet, AreKnown, GraphKnown, IsRunnable,
}
use certificate_job_operator.Workflow.Acyclic.Loop.{Grounded, rests_on}
use certificate_job_operator.Workflow.Graph.{Graph}
use certificate_job_operator.Workflow.Graph.Fill.{job_names_of, IsValidEdge, sources}
use certificate_job_operator.Workflow.Graph.Built.{IsWorkflow, IsGraphOf}

-- A pending node of that name.
abbrev pub IsPendingAt : List WorkflowNodeState → Str → Type 0
IsPendingAt nodes name =
    (n : WorkflowNodeState) × (find_node name nodes ≡ some n) × (n.phase ≡ pending)

-- Every node waits or is one that its dependents need not wait for: none is running.
abbrev pub IsQuiet : FailurePolicy → List WorkflowNodeState → Type 0
IsQuiet policy nodes =
    (name : Str) (n : WorkflowNodeState)
    → find_node name nodes ≡ some n
    → (n.phase ≡ pending) ⊎ Satisfies policy n.phase

-- All the dependencies are met, or one of them is pending itself.
met_or_pending :
    (policy : FailurePolicy) (nodes : List WorkflowNodeState) (deps : List Str)
    → IsQuiet policy nodes
    → AreKnown nodes deps
    → AllMet policy nodes deps ⊎ ((dep : Str) × Memᴰ dep deps × IsPendingAt nodes dep)
met_or_pending policy nodes [] quiet known = inl (λ dep m. absurd (Memᴰ.not-nil m))
met_or_pending policy nodes (d ∷ deps) quiet known =
    let (n, found) = known d (Memᴰ.head refl) in
    elim (quiet d n found) [
      | inl waits ↦ inr (d, Memᴰ.head refl, (n, found, waits))
      | inr sat ↦ elim (met_or_pending policy nodes deps quiet (λ dep m. known dep (Memᴰ.tail m))) [
        | inr (dep, m, waits) ↦ inr (dep, Memᴰ.tail m, waits)
        | inl met ↦ inl (λ dep m.
            ⊎_elim (λ e. rw e (n, found, sat)) (λ later. met dep later) (Memᴰ.cases_cons m))
      ]
    ]

-- From a pending node, follow pending dependencies until there is none.
Grounded-ready :
    (policy : FailurePolicy) (nodes : List WorkflowNodeState) (deps : Map (List Str))
    → IsQuiet policy nodes
    → GraphKnown nodes deps
    → {name : Str} → Grounded (neighbours deps) name
    → IsPendingAt nodes name
    → (ready : Str) × IsRunnable policy nodes deps ready
Grounded-ready policy nodes deps quiet known {name} (rests_on below) (n, found, waits) =
    elim (met_or_pending policy nodes (neighbours deps name) quiet (known name)) [
      | inl met ↦ (name, (n, found, waits, met))
      | inr (dep, m, waiting) ↦ Grounded-ready policy nodes deps quiet known (below dep m) waiting
    ]

sources-target :
    (names : List Str) (edges : List CertificateWorkflowEdge) (n dep : Str)
    → All (IsValidEdge names) edges
    → Memᴰ dep (sources edges n)
    → contains names n ≡ true
sources-target names [] n dep h m = absurd (Memᴰ.not-nil m)
sources-target names (edge ∷ edges) n dep (h, hs) m = elim (Bool-cases (edge.to == n)) [
  | inl here ↦ subst (λ k. contains names k ≡ true) ((==_iff edge.to n).0 here) h.1
  | inr other ↦ sources-target names edges n dep hs (subst (Memᴰ dep) (rw other) m)
]

-- Also a name that is no job of the workflow is grounded: no edge leads to it.
workflow-Grounded :
    (spec : CertificateJobSpec) (name : Str)
    → IsWorkflow spec
    → Grounded (sources spec.workflow.edges) name
workflow-Grounded spec name w = elim (Bool-cases (contains (job_names_of spec.jobs) name)) [
  | inl known ↦ w.acyclic name known
  | inr unknown ↦ rests_on (λ dep m. absurd (
      ground
        (arith, sources-target (job_names_of spec.jobs) spec.workflow.edges name dep w.edges m)))
]

-- In the graph of a well-formed workflow, with no node running and every dependency known, a
-- pending node means that some node can start.
pub workflow-ready :
    (policy : FailurePolicy) (spec : CertificateJobSpec) (g : Graph)
    (nodes : List WorkflowNodeState) (name : Str)
    → IsWorkflow spec
    → IsGraphOf spec g
    → GraphKnown nodes g.deps
    → IsQuiet policy nodes
    → IsPendingAt nodes name
    → (ready : Str) × IsRunnable policy nodes g.deps ready
workflow-ready policy spec g nodes name w is_graph known quiet waits =
    let same : neighbours g.deps ≡ sources spec.workflow.edges = fun_ext is_graph.deps in
    Grounded-ready policy nodes g.deps quiet known
      (subst (λ next. Grounded next name) (sym same) (workflow-Grounded spec name w)) waits

-- A slice in which every node waits or is met is quiet.
pub IsQuiet-of_All :
    (policy : FailurePolicy) (nodes : List WorkflowNodeState)
    → All (λ (n : WorkflowNodeState). (n.phase ≡ pending) ⊎ Satisfies policy n.phase) nodes
    → IsQuiet policy nodes
unfolding find_node
IsQuiet-of_All policy [] h name n found = absurd (cc)
IsQuiet-of_All policy (m ∷ nodes) (h, hs) name n found = elim (Bool-cases (has_node name nodes)) [
  | inl later ↦ IsQuiet-of_All policy nodes hs name n (ground arith)
  | inr last ↦
      let same : m ≡ n = ground arith in
      subst (λ (x : WorkflowNodeState). (x.phase ≡ pending) ⊎ Satisfies policy x.phase) same h
]
