-- ===== src/Workflow/Runnable.antt =====
-- `runnableNodes`: the pending nodes whose dependencies allow them to start.
use certificate_job_operator.Prelude.{
  Bool, true, false, Option, none, some, List, [], ◌∷◌, Str, Map, lookup, or_default, ◌≡◌, refl,
  ◌↔◌, ◌⊎◌, inl, inr, ⊎_elim, Memᴰ, arith, if◌then◌else◌, Bool-cases, sym, subst, ap, ◌∙◌,
}
use mathlib.Core.List.Memᴰ
use certificate_job_operator.Api.{
  FailurePolicy, best_effort, ExecutionPhase, pending, succeeded, failed, skipped,
  WorkflowNodeState,
}
use certificate_job_operator.Workflow.Nodes.{is_pending, find_node, node_state_map}
use certificate_job_operator.Workflow.Nodes.Unique.{find_node-name, node_state_map-mem}

-- `deps[name]`: a missing key reads as the nil slice.
unfoldable pub neighbours : Map (List Str) → Str → List Str
neighbours graph name = or_default (lookup name graph) []

abbrev pub is_best_effort : FailurePolicy → Bool
is_best_effort best_effort = true
is_best_effort _ = false

-- The branches of the loop over the dependencies: `true` is `continue`.
unfoldable pub lets_run : FailurePolicy → ExecutionPhase → Bool
lets_run policy succeeded = true
lets_run policy skipped = true
lets_run policy failed = is_best_effort policy
lets_run policy _ = false

-- `none` is the panic of `nodes[dep].Phase` on a nil pointer.
unfoldable pub can_run : FailurePolicy → List WorkflowNodeState → List Str → Option Bool
can_run policy nodes [] = some true
can_run policy nodes (dep ∷ deps) =
    let rest = can_run policy nodes deps in
    elim (find_node dep nodes) [
      | none ↦ none
      | some n ↦ if lets_run policy n.phase then rest else some false
    ]

abbrev add_if : Bool → Str → List Str → List Str
add_if true name names = name ∷ names
add_if false name names = names

-- The loop over the entries of the map, whose order Go leaves open.
runnable_from :
    FailurePolicy
    → List WorkflowNodeState
    → Map (List Str)
    → List WorkflowNodeState
    → Option (List Str)
runnable_from policy nodes deps [] = some []
runnable_from policy nodes deps (n ∷ entries) =
    let rest = runnable_from policy nodes deps entries in
    if is_pending n.phase
    then elim (can_run policy nodes (neighbours deps n.name)) [
      | none ↦ none
      | some b ↦ elim rest [ none ↦ none | some names ↦ some (add_if b n.name names) ]
    ]
    else rest

unfoldable pub runnable_nodes :
    FailurePolicy → List WorkflowNodeState → Map (List Str) → Option (List Str)
unfolding runnable_from can_run lets_run neighbours
runnable_nodes policy nodes deps = runnable_from policy nodes deps (node_state_map nodes)

-- A dependency in this phase does not hold its dependents back.
abbrev pub Satisfies : FailurePolicy → ExecutionPhase → Type 0
Satisfies policy p = (p ≡ succeeded) ⊎ ((p ≡ skipped) ⊎ ((p ≡ failed) × (policy ≡ best_effort)))

abbrev pub DependencyMet : FailurePolicy → List WorkflowNodeState → Str → Type 0
DependencyMet policy nodes dep =
    (m : WorkflowNodeState) × (find_node dep nodes ≡ some m) × Satisfies policy m.phase

abbrev pub AllMet : FailurePolicy → List WorkflowNodeState → List Str → Type 0
AllMet policy nodes deps = (dep : Str) → Memᴰ dep deps → DependencyMet policy nodes dep

-- A node that is pending, with every dependency met.
abbrev pub IsRunnable : FailurePolicy → List WorkflowNodeState → Map (List Str) → Str → Type 0
IsRunnable policy nodes deps name =
    (n : WorkflowNodeState) × (find_node name nodes ≡ some n)
    × (n.phase ≡ pending)
    × AllMet policy nodes (neighbours deps name)

-- Every dependency that the graph names has a node.
abbrev pub AreKnown : List WorkflowNodeState → List Str → Type 0
AreKnown nodes deps =
    (dep : Str) → Memᴰ dep deps → (m : WorkflowNodeState) × (find_node dep nodes ≡ some m)

lets_run_iff :
    (policy : FailurePolicy) (p : ExecutionPhase) → (lets_run policy p ≡ true) ↔ Satisfies policy p
unfolding lets_run
lets_run_iff policy p = ground arith

-- With all dependencies known the loop does not panic, and answers whether they are all met.
can_run_lem :
    (policy : FailurePolicy) (nodes : List WorkflowNodeState) (deps : List Str)
    → AreKnown nodes deps
    → (b : Bool) × (can_run policy nodes deps ≡ some b) × ((b ≡ true) ↔ AllMet policy nodes deps)
unfolding can_run
can_run_lem policy nodes [] known = (true, refl, (λ _ dep m. absurd (Memᴰ.not-nil m), λ _. refl))
can_run_lem policy nodes (dep ∷ deps) known =
    let (n, found) = known dep (Memᴰ.head refl) in
    let (b, runs, exact) = can_run_lem policy nodes deps (λ d m. known d (Memᴰ.tail m)) in
    elim (Bool-cases (lets_run policy n.phase)) [
      | inl ok ↦ (
        b,
        ground arith,
        (
          λ e d m.
              ⊎_elim (λ same. rw same (n, found, (lets_run_iff policy n.phase).0 ok))
                (λ rest. exact.0 e d rest) (Memᴰ.cases_cons m),
          λ met. exact.1 (λ d m. met d (Memᴰ.tail m)),
        ),
      )
      | inr held ↦ (
        false,
        ground arith,
        (
          λ e. cc,
          λ met.
              let (n', found', sat) = met dep (Memᴰ.head refl) in
              ground (arith, lets_run_iff policy n.phase),
        ),
      )
    ]

abbrev ChosenFrom :
    FailurePolicy → List WorkflowNodeState → Map (List Str) → List WorkflowNodeState → Str → Type 0
ChosenFrom policy nodes deps entries name =
    (n : WorkflowNodeState) × Memᴰ n entries
    × (n.name ≡ name)
    × (n.phase ≡ pending)
    × AllMet policy nodes (neighbours deps name)

abbrev pub GraphKnown : List WorkflowNodeState → Map (List Str) → Type 0
GraphKnown nodes deps = (name : Str) → AreKnown nodes (neighbours deps name)

is_pending_iff : (p : ExecutionPhase) → (is_pending p ≡ true) ↔ (p ≡ pending)
is_pending_iff p = ground arith

module _ (policy : FailurePolicy) (nodes : List WorkflowNodeState) (deps : Map (List Str)) where
  chosen_skip :
      (n : WorkflowNodeState) (entries : List WorkflowNodeState) (name : Str)
      → ¬ ((n.phase ≡ pending) × AllMet policy nodes (neighbours deps n.name))
      → ChosenFrom policy nodes deps (n ∷ entries) name ↔ ChosenFrom policy nodes deps entries name
  chosen_skip n entries name not_chosen = (
    λ (m, mem, named, waits, met).
        ⊎_elim
          (λ e. absurd (
            not_chosen (
              subst (λ (x : WorkflowNodeState). x.phase ≡ pending) e waits,
              subst (λ (x : Str). AllMet policy nodes (neighbours deps x))
                  (sym named ∙ ap (λ (x : WorkflowNodeState). x.name) e) met,
            )))
          (λ rest. (m, rest, named, waits, met)) (Memᴰ.cases_cons mem),
    λ (m, mem, named, waits, met). (m, Memᴰ.tail mem, named, waits, met),
  )

  chosen_take :
      (n : WorkflowNodeState) (entries : List WorkflowNodeState) (names : List Str) (name : Str)
      → n.phase ≡ pending
      → AllMet policy nodes (neighbours deps n.name)
      → Memᴰ name names ↔ ChosenFrom policy nodes deps entries name
      → Memᴰ name (n.name ∷ names) ↔ ChosenFrom policy nodes deps (n ∷ entries) name
  chosen_take n entries names name waits met exact = (
    λ mem.
        ⊎_elim (λ e. rw e (n, Memᴰ.head refl, refl, waits, met))
          (λ rest.
            let (m, at, named, ready, all) = exact.0 rest in (m, Memᴰ.tail at, named, ready, all))
          (Memᴰ.cases_cons mem),
    λ (m, mem, named, ready, all).
        ⊎_elim (λ e. Memᴰ.head (sym named ∙ ap (λ (x : WorkflowNodeState). x.name) e))
          (λ rest. Memᴰ.tail (exact.1 (m, rest, named, ready, all))) (Memᴰ.cases_cons mem),
  )

  runnable_from_lem :
      (entries : List WorkflowNodeState)
      → GraphKnown nodes deps
      → (names : List Str) × (runnable_from policy nodes deps entries ≡ some names)
        × ((name : Str) → Memᴰ name names ↔ ChosenFrom policy nodes deps entries name)
  unfolding runnable_from
  runnable_from_lem [] known = (
    [],
    refl,
    λ name. (λ m. absurd (Memᴰ.not-nil m), λ (n, mem, _, _, _). absurd (Memᴰ.not-nil mem)),
  )
  runnable_from_lem (n ∷ entries) known =
      let (names, runs, exact) = runnable_from_lem entries known in
      let (b, says, meaning) = can_run_lem policy nodes (neighbours deps n.name) (known n.name) in
      elim (Bool-cases (is_pending n.phase)) [
        | inl waits ↦ (elim (Bool-cases b) [
          | inl ready ↦ (
            n.name ∷ names,
            ground arith,
            λ name.
                chosen_take n entries names name ((is_pending_iff n.phase).0 waits)
                  (meaning.0 ready) (exact name),
          )
          | inr held ↦ (
            names,
            ground arith,
            λ name.
                let skip = chosen_skip n entries name (λ (p, met). cc (meaning.1 met)) in
                (λ m. skip.1 ((exact name).0 m), λ c. (exact name).1 (skip.0 c)),
          )
        ])
        | inr busy ↦ (
          names,
          ground arith,
          λ name.
              let skip =
                chosen_skip n entries name (λ (p, met). cc ((is_pending_iff n.phase).1 p)) in
              (λ m. skip.1 ((exact name).0 m), λ c. (exact name).1 (skip.0 c)),
        )
      ]

-- Where every dependency that the graph names has a node, `runnableNodes` does not panic, and it
-- returns exactly the names of the pending nodes all of whose dependencies succeeded, were skipped,
-- or, under BestEffort, failed.
pub runnable_nodes_lem :
    (policy : FailurePolicy) (nodes : List WorkflowNodeState) (deps : Map (List Str))
    → GraphKnown nodes deps
    → (names : List Str) × (runnable_nodes policy nodes deps ≡ some names)
      × ((name : Str) → Memᴰ name names ↔ IsRunnable policy nodes deps name)
unfolding runnable_nodes
runnable_nodes_lem policy nodes deps known =
    let (names, runs, exact) = runnable_from_lem policy nodes deps (node_state_map nodes) known in
    (
      names,
      runs,
      λ name. (
        λ m.
            let (n, mem, named, waits, met) = (exact name).0 m in
            (
              n,
              subst (λ x. find_node x nodes ≡ some n) named ((node_state_map-mem nodes n).0 mem),
              waits,
              met,
            ),
        λ (n, found, waits, met).
            let named = find_node-name name nodes found in
            (exact name).1 (
              n,
              (node_state_map-mem nodes n).1
                  (subst (λ x. find_node x nodes ≡ some n) (sym named) found),
              named,
              waits,
              met,
            ),
      ),
    )
