-- ===== src/Workflow/Failure/Effect.antt =====
-- The effect of `applyFailurePolicy` on each node.
use certificate_job_operator.Prelude.{
  ℕ, zero, suc, true, false, none, some, List, [], ◌∷◌, ◌++◌, map, Str, Map, ◌==◌, ==_iff, ==_refl,
  contains, contains-mem, get_elem?, get_elem?-append, length, length-append, ◌≡◌, refl, sym, ap,
  ◌∙◌, ◌≢◌, inl, inr, Distinct, Memᴰ, arith, if◌then◌else◌, Bool-cases, ◌⊎◌, inl, inr, Option-cases,
}
use mathlib.Core.List.{append_assoc}
use mathlib.Core.Option
use certificate_job_operator.Api.{
  Time, FailurePolicy, stop_downstream, continue_independent, best_effort, other_policy,
  WorkflowNodeState,
}
use certificate_job_operator.Workflow.Nodes.{is_pending, has_node, find_node, update_node}
use certificate_job_operator.Workflow.Nodes.Unique.{
  node_names, node_names-update, has_node-names, find_node-name, find_node-none, find_node-update,
  has_node-find,
}
use certificate_job_operator.Workflow.Runnable.{neighbours, AreKnown}
use certificate_job_operator.Workflow.Descendants.{descendant_nodes}
use certificate_job_operator.Workflow.Descendants.Reached.{
  Descends, child, next, descendant_nodes_iff,
}
use certificate_job_operator.Workflow.Failure.{
  skip_node, skip_pending, skip_each, stop_message, dependency_message, stop_at, stop_from,
  apply_failure_policy,
}

-- A pending node is skipped, any other is left alone.
abbrev pub skip_if_pending : Str → (Str → Time) → WorkflowNodeState → WorkflowNodeState
skip_if_pending message clock n =
    if is_pending n.phase then skip_node message (clock n.name) n else n

has_node-middle :
    (done rest : List WorkflowNodeState) (n : WorkflowNodeState)
    → has_node n.name (done ++ n ∷ rest) ≡ true
has_node-middle [] rest n = ground (arith, ==_refl n.name)
has_node-middle (m ∷ done) rest n = ground (arith, has_node-middle done rest n)

update_node-middle :
    (done rest : List WorkflowNodeState) (n : WorkflowNodeState)
    (f : WorkflowNodeState → WorkflowNodeState)
    → has_node n.name rest ≡ false
    → update_node n.name f (done ++ n ∷ rest) ≡ done ++ f n ∷ rest
unfolding update_node
update_node-middle [] rest n f h = ground (arith, ==_refl n.name)
update_node-middle (m ∷ done) rest n f h =
    ground (arith, has_node-middle done rest n, update_node-middle done rest n f h)

module _ (clock : Str → Time) where
  stop_at-middle :
      (done rest : List WorkflowNodeState) (n : WorkflowNodeState)
      → has_node n.name rest ≡ false
      → stop_at clock (length done) (done ++ n ∷ rest)
        ≡ done ++ skip_if_pending stop_message clock n ∷ rest
  unfolding stop_at
  stop_at-middle done rest n h = ground (
    arith,
    get_elem?-append done n rest,
    update_node-middle done rest n (skip_node stop_message (clock n.name)) h,
  )

  stop_from_lem :
      (rest done : List WorkflowNodeState)
      → Distinct (node_names rest)
      → stop_from clock (length rest) (length done) (done ++ rest)
        ≡ done ++ map (skip_if_pending stop_message clock) rest
  unfolding stop_from
  stop_from_lem [] done d = refl
  stop_from_lem (n ∷ rest) done d =
      let n' = skip_if_pending stop_message clock n in
      let here = stop_at-middle done rest n (has_node-names n.name rest ∙ d.0) in
      let shift = append_assoc done (n' ∷ []) rest in
      let later = stop_from_lem rest (done ++ n' ∷ []) d.1 in
      let far = append_assoc done (n' ∷ []) (map (skip_if_pending stop_message clock) rest) in
      ap (stop_from clock (length rest) (suc (length done))) (here ∙ sym shift)
      ∙ ap (λ k. stop_from clock (length rest) k ((done ++ n' ∷ []) ++ rest)) (sym count)
      ∙ later
      ∙ far
    where
      count : length (done ++ skip_if_pending stop_message clock n ∷ []) ≡ suc (length done)
      count = omega (arith, length-append done (skip_if_pending stop_message clock n ∷ []))

  skipped_once :
      (n : WorkflowNodeState)
      → skip_if_pending dependency_message clock (skip_if_pending dependency_message clock n)
        ≡ skip_if_pending dependency_message clock n
  skipped_once n = ground arith

  -- One name of the loop under ContinueIndependent.
  skip_pending_lem :
      (name : Str) (nodes : List WorkflowNodeState)
      → has_node name nodes ≡ true
      → (nodes' : List WorkflowNodeState) × (skip_pending clock name nodes ≡ some nodes')
        × ((j : Str)
            → find_node j nodes' ≡ (
                if name == j
                then Option.map (skip_if_pending dependency_message clock) (find_node j nodes)
                else find_node j nodes))
  unfolding skip_pending
  skip_pending_lem name nodes h =
      let (n, found) = has_node-find name nodes h in
      let named = find_node-name name nodes found in
      elim (Bool-cases (is_pending n.phase)) [
        | inl waits ↦ (
          update_node name (skip_node dependency_message (clock name)) nodes,
          ground arith,
          λ j. ground (
            arith,
            ==_iff name j,
            find_node-update j name (skip_node dependency_message (clock name)) nodes (λ m. refl),
          ),
        )
        | inr busy ↦ (nodes, ground arith, λ j. ground (arith, ==_iff name j))
      ]

  has_node_of_find :
      (k : Str) (ns ms : List WorkflowNodeState)
      → ((find_node k ms ≡ none) → (find_node k ns ≡ none))
      → has_node k ns ≡ true
      → has_node k ms ≡ true
  has_node_of_find k ns ms h m = ground (arith, find_node-none k ns, find_node-none k ms)

  skip_each_lem :
      (names : List Str) (nodes : List WorkflowNodeState)
      → ((name : Str) → Memᴰ name names → has_node name nodes ≡ true)
      → (nodes' : List WorkflowNodeState) × (skip_each clock names nodes ≡ some nodes')
        × ((j : Str)
            → find_node j nodes' ≡ (
                if contains names j
                then Option.map (skip_if_pending dependency_message clock) (find_node j nodes)
                else find_node j nodes))
  unfolding skip_each contains
  skip_each_lem [] nodes known = (nodes, refl, λ j. refl)
  skip_each_lem (name ∷ names) nodes known =
      let (mid, first, effect) = skip_pending_lem name nodes (known name (Memᴰ.head refl)) in
      let (last, rest, effects) = skip_each_lem names mid (λ k m.
        has_node_of_find k nodes mid (λ e. ground (arith, effect k)) (known k (Memᴰ.tail m))) in
      (last, ground arith, λ j. ground (arith, effect j, effects j))

-- After a failure every policy but BestEffort and ContinueIndependent, so also an unset one, skips
-- every pending node, whatever it depends on, and changes nothing else. The nodes have distinct
-- names.
pub stop_downstream-skips_all :
    (clock : Str → Time) (policy : FailurePolicy) (nodes : List WorkflowNodeState)
    (reverse : Map (List Str)) (failed : List Str)
    → policy ≢ best_effort
    → policy ≢ continue_independent
    → failed ≢ []
    → Distinct (node_names nodes)
    → apply_failure_policy clock policy nodes reverse failed
      ≡ some (map (skip_if_pending stop_message clock) nodes)
unfolding apply_failure_policy
stop_downstream-skips_all clock policy nodes reverse [] p q some_failed d =
    absurd (some_failed refl)
stop_downstream-skips_all clock stop_downstream nodes reverse (f ∷ failed) p q some_failed d =
    ap some (stop_from_lem clock nodes [] d)
stop_downstream-skips_all clock continue_independent nodes reverse (f ∷ failed) p q some_failed d =
    absurd (q refl)
stop_downstream-skips_all clock best_effort nodes reverse (f ∷ failed) p q some_failed d =
    absurd (p refl)
stop_downstream-skips_all clock (other_policy s) nodes reverse (f ∷ failed) p q some_failed d =
    ap some (stop_from_lem clock nodes [] d)

Descends-known :
    (reverse : Map (List Str)) (roots : List Str) (nodes : List WorkflowNodeState)
    → ((name : Str) → AreKnown nodes (neighbours reverse name))
    → {s : Str} → Descends reverse roots s
    → (n : WorkflowNodeState) × (find_node s nodes ≡ some n)
Descends-known reverse roots nodes known (child {r} {s} m edge) = known r s edge
Descends-known reverse roots nodes known (next {u} {s} d edge) = known u s edge

skip_pending-names :
    (clock : Str → Time) (name : Str) (nodes : List WorkflowNodeState)
    {nodes' : List WorkflowNodeState}
    → skip_pending clock name nodes ≡ some nodes'
    → node_names nodes' ≡ node_names nodes
unfolding skip_pending
skip_pending-names clock name nodes h =
    ground
      (arith, node_names-update name (skip_node dependency_message (clock name)) nodes (λ n. refl))

stop_at-names :
    (clock : Str → Time) (i : ℕ) (nodes : List WorkflowNodeState)
    → node_names (stop_at clock i nodes) ≡ node_names nodes
unfolding stop_at
stop_at-names clock i nodes = elim (Option-cases (get_elem? nodes i)) [
  | inl out_of_range ↦ ground arith
  | inr (n, e) ↦
      ground
        (arith, node_names-update n.name (skip_node stop_message (clock n.name)) nodes (λ m. refl))
]

skip_each-names :
    (clock : Str → Time) (names : List Str) (nodes : List WorkflowNodeState)
    {nodes' : List WorkflowNodeState}
    → skip_each clock names nodes ≡ some nodes'
    → node_names nodes' ≡ node_names nodes
unfolding skip_each
skip_each-names clock [] nodes h = ground arith
skip_each-names clock (name ∷ names) nodes {nodes'} h =
    elim (Option-cases (skip_pending clock name nodes)) [
      | inl panic ↦ ground arith
      | inr (mid, e) ↦
          skip_each-names clock names mid {nodes' = nodes'} (ground arith)
          ∙ skip_pending-names clock name nodes e
    ]

stop_from-names :
    (clock : Str → Time) (rounds i : ℕ) (nodes : List WorkflowNodeState)
    → node_names (stop_from clock rounds i nodes) ≡ node_names nodes
unfolding stop_from
stop_from-names clock zero i nodes = refl
stop_from-names clock (suc rounds) i nodes =
    stop_from-names clock rounds (suc i) (stop_at clock i nodes) ∙ stop_at-names clock i nodes

-- The policy returns where every dependent has a node, and it keeps the names of the nodes.
pub apply_failure_policy-keeps :
    (clock : Str → Time) (policy : FailurePolicy) (nodes : List WorkflowNodeState)
    (reverse : Map (List Str)) (failed : List Str)
    → ((name : Str) → AreKnown nodes (neighbours reverse name))
    → (nodes' : List WorkflowNodeState) × (apply_failure_policy clock policy nodes reverse failed
        ≡ some nodes')
      × (node_names nodes' ≡ node_names nodes)
unfolding apply_failure_policy
apply_failure_policy-keeps clock policy nodes reverse [] known = (nodes, refl, refl)
apply_failure_policy-keeps clock best_effort nodes reverse (f ∷ failed) known = (nodes, refl, refl)
apply_failure_policy-keeps clock continue_independent nodes reverse (f ∷ failed) known =
    let (nodes', runs, _) =
      skip_each_lem clock (descendant_nodes reverse (f ∷ failed)) nodes (λ name m.
        let (n, found) =
          Descends-known reverse (f ∷ failed) nodes known
            ((descendant_nodes_iff reverse (f ∷ failed) name).0 m) in
        ground (arith, find_node-none name nodes)) in
    (nodes', runs, skip_each-names clock (descendant_nodes reverse (f ∷ failed)) nodes runs)
apply_failure_policy-keeps clock stop_downstream nodes reverse (f ∷ failed) known =
    (_, refl, stop_from-names clock (length nodes) 0 nodes)
apply_failure_policy-keeps clock (other_policy s) nodes reverse (f ∷ failed) known =
    (_, refl, stop_from-names clock (length nodes) 0 nodes)

-- After a failure ContinueIndependent does not panic, where every dependent that the reverse graph
-- names has a node: it skips exactly the pending nodes that descend from a failed one, and leaves
-- all others as they are.
pub continue_independent-skips_descendants :
    (clock : Str → Time) (nodes : List WorkflowNodeState) (reverse : Map (List Str))
    (failed : List Str)
    → ((name : Str) → AreKnown nodes (neighbours reverse name))
    → failed ≢ []
    → (nodes' : List WorkflowNodeState) × (apply_failure_policy clock continue_independent nodes
          reverse failed
        ≡ some nodes')
      × ((name : Str)
          → (Descends reverse failed name
              × (find_node name nodes'
                  ≡ Option.map (skip_if_pending dependency_message clock) (find_node name nodes)))
            ⊎ ((¬ Descends reverse failed name) × (find_node name nodes' ≡ find_node name nodes)))
unfolding apply_failure_policy
continue_independent-skips_descendants clock nodes reverse [] known some_failed =
    absurd (some_failed refl)
continue_independent-skips_descendants clock nodes reverse (f ∷ failed) known some_failed =
    let skipped_names = descendant_nodes reverse (f ∷ failed) in
    let exact = descendant_nodes_iff reverse (f ∷ failed) in
    let (nodes', runs, effect) = skip_each_lem clock skipped_names nodes (λ name m.
      let (n, found) = Descends-known reverse (f ∷ failed) nodes known ((exact name).0 m) in
      ground (arith, find_node-none name nodes)) in
    (
      nodes',
      runs,
      λ name. elim (Bool-cases (contains skipped_names name)) [
        | inl listed ↦ inl (
          (exact name).0 ((contains-mem skipped_names name).0 listed),
          ground (arith, effect name),
        )
        | inr unlisted ↦ inr (
          λ d. ground (arith, (contains-mem skipped_names name).1 ((exact name).1 d)),
          ground (arith, effect name),
        )
      ],
    )
