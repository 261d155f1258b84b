-- ===== src/Workflow/OwnNodes.antt =====
-- The names of the nodes of a run (`initializeNodeStates`, `ensureWorkflowNodeStates`).
use certificate_job_operator.Prelude.{
  Bool, true, false, ◌||◌, List, [], ◌∷◌, ◌++◌, map, Str, ◌==◌, ==_iff, str_lt, contains,
  contains-snoc, Distinct, Distinct-snoc, sort, sort_insert, ◌≡◌, refl, sym, ap, ◌∙◌, inl, inr,
  arith, Bool-cases, subst,
}
use certificate_job_operator.Api.{CertificateJobTemplate, WorkflowNodeState}
use certificate_job_operator.Workflow.Nodes.{
  has_node, new_node, ensure_from, ensure_workflow_node_states, initialize_node_states,
}
use certificate_job_operator.Workflow.Nodes.Unique.{node_names, has_node-names}
use certificate_job_operator.Workflow.Graph.Fill.{job_names_of}

-- No two nodes have one name.
abbrev pub HaveOwnNodes : List WorkflowNodeState → Type 0
HaveOwnNodes nodes = Distinct (node_names nodes)

module _ (less : WorkflowNodeState → WorkflowNodeState → Bool) where
  sort_insert-names :
      (n : WorkflowNodeState) (ns : List WorkflowNodeState) (k : Str)
      → contains (node_names (sort_insert less n ns)) k
        ≡ (n.name == k || contains (node_names ns) k)
  unfolding sort_insert contains
  sort_insert-names n [] k = refl
  sort_insert-names n (m ∷ ns) k = ground (arith, sort_insert-names n ns k)

  sort_insert-HaveOwnNodes :
      (n : WorkflowNodeState) (ns : List WorkflowNodeState)
      → HaveOwnNodes (n ∷ ns)
      → HaveOwnNodes (sort_insert less n ns)
  unfolding sort_insert contains
  sort_insert-HaveOwnNodes n [] d = d
  sort_insert-HaveOwnNodes n (m ∷ ns) d = ground (
    arith,
    sort_insert-names n ns m.name,
    sort_insert-HaveOwnNodes n ns,
    ==_iff m.name n.name,
    ==_iff n.name m.name,
  )

  sort-names :
      (ns : List WorkflowNodeState) (k : Str)
      → contains (node_names (sort less ns)) k ≡ contains (node_names ns) k
  unfolding sort contains
  sort-names [] k = refl
  sort-names (n ∷ ns) k =
      sort_insert-names n (sort less ns) k ∙ ap (λ b. n.name == k || b) (sort-names ns k)

  sort-HaveOwnNodes : (ns : List WorkflowNodeState) → HaveOwnNodes ns → HaveOwnNodes (sort less ns)
  unfolding sort
  sort-HaveOwnNodes [] d = tt
  sort-HaveOwnNodes (n ∷ ns) d =
      sort_insert-HaveOwnNodes n (sort less ns)
        (sort-names ns n.name ∙ d.0, sort-HaveOwnNodes ns d.1)

node_names-new :
    (jobs : List CertificateJobTemplate)
    → node_names (map (λ job. new_node job.name) jobs) ≡ job_names_of jobs
node_names-new [] = refl
node_names-new (job ∷ jobs) = ap (λ l. job.name ∷ l) (node_names-new jobs)

-- The nodes of a new run.
pub initialize-HaveOwnNodes :
    (jobs : List CertificateJobTemplate)
    → Distinct (job_names_of jobs)
    → HaveOwnNodes (initialize_node_states jobs)
unfolding initialize_node_states
initialize-HaveOwnNodes jobs d =
    sort-HaveOwnNodes (λ m n. str_lt m.name n.name) (map (λ job. new_node job.name) jobs)
      (subst Distinct (sym (node_names-new jobs)) d)

node_names-append :
    (ms ns : List WorkflowNodeState) → node_names (ms ++ ns) ≡ node_names ms ++ node_names ns
node_names-append [] ns = refl
node_names-append (m ∷ ms) ns = ap (λ l. m.name ∷ l) (node_names-append ms ns)

ensure_from-HaveOwnNodes :
    (known : List WorkflowNodeState) (jobs : List CertificateJobTemplate)
    (nodes : List WorkflowNodeState)
    → Distinct (job_names_of jobs)
    → ((k : Str)
        → contains (job_names_of jobs) k ≡ true
        → has_node k known ≡ false
        → contains (node_names nodes) k ≡ false)
    → HaveOwnNodes nodes
    → HaveOwnNodes (ensure_from known jobs nodes)
unfolding ensure_from contains
ensure_from-HaveOwnNodes known [] nodes d fresh own = own
ensure_from-HaveOwnNodes known (job ∷ jobs) nodes (new, d) fresh own =
    let name = job.name in
    let grown = nodes ++ new_node name ∷ [] in
    let names = node_names-append nodes (new_node name ∷ []) in
    elim (Bool-cases (has_node name known)) [
      | inl old ↦
          rw old (
            ensure_from-HaveOwnNodes known jobs nodes d (λ k m absent. ground (arith, fresh k)) own)
      | inr absent ↦ rw absent (
          ensure_from-HaveOwnNodes known jobs grown d
            (λ k m unknown.
              ap (λ l. contains l k) names
              ∙ contains-snoc (node_names nodes) name k
              ∙ ground (arith, fresh k, ==_iff name k))
            (subst Distinct (sym names) (
              Distinct-snoc (node_names nodes) name own
                (fresh name (ground (arith, ==_iff name name)) absent))))
    ]

-- The nodes with those of new jobs.
pub ensure-HaveOwnNodes :
    (jobs : List CertificateJobTemplate) (nodes : List WorkflowNodeState)
    → Distinct (job_names_of jobs)
    → HaveOwnNodes nodes
    → HaveOwnNodes (ensure_workflow_node_states jobs nodes)
unfolding ensure_workflow_node_states
ensure-HaveOwnNodes jobs nodes d own =
    ensure_from-HaveOwnNodes nodes jobs nodes d
      (λ k m absent. sym (has_node-names k nodes) ∙ absent) own
