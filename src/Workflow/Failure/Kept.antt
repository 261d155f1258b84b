-- ===== src/Workflow/Failure/Kept.antt =====
-- Failed nodes under the failure policies (`applyFailurePolicy`).
use certificate_job_operator.Prelude.{
  true, some, List, [], ◌∷◌, Str, Map, ==_iff, contains, contains-mem, map, ◌≡◌, refl, ◌∙◌, ◌≢◌,
  inl, inr, Memᴰ, arith, Bool-cases, subst,
}
use mathlib.Core.List.Memᴰ
use certificate_job_operator.Api.{
  Time, FailurePolicy, stop_downstream, continue_independent, best_effort, other_policy, failed,
  WorkflowNodeState,
}
use certificate_job_operator.Workflow.Nodes.{has_node, find_node}
use certificate_job_operator.Workflow.Nodes.Unique.{node_names, has_node-names}
use certificate_job_operator.Workflow.OwnNodes.{HaveOwnNodes}
use certificate_job_operator.Workflow.Runnable.{AreKnown, neighbours}
use certificate_job_operator.Workflow.Failure.{apply_failure_policy, stop_message}
use certificate_job_operator.Workflow.Failure.Effect.{
  skip_if_pending, stop_downstream-skips_all, continue_independent-skips_descendants,
}

-- What a lookup finds is in the slice, and it finds every node where no two have one name.
pub find_node-mem :
    (k : Str) (ns : List WorkflowNodeState) {n : WorkflowNodeState}
    → find_node k ns ≡ some n
    → Memᴰ n ns
unfolding find_node
find_node-mem k [] h = absurd (cc)
find_node-mem k (m ∷ ns) {n} h = elim (Bool-cases (has_node k ns)) [
  | inl later ↦ Memᴰ.tail (find_node-mem k ns (ground arith))
  | inr last ↦ Memᴰ.head (ground arith)
]

names-mem :
    (n : WorkflowNodeState) (ns : List WorkflowNodeState)
    → Memᴰ n ns
    → contains (node_names ns) n.name ≡ true
names-mem n ns m = (contains-mem (node_names ns) n.name).1 (Memᴰ.map (λ x. x.name) m)

pub mem-find_node :
    (n : WorkflowNodeState) (ns : List WorkflowNodeState)
    → HaveOwnNodes ns
    → Memᴰ n ns
    → find_node n.name ns ≡ some n
unfolding find_node
mem-find_node n [] d m = absurd (Memᴰ.not-nil m)
mem-find_node n (x ∷ ns) d m = elim (Memᴰ.cases_cons m) [
  | inl e ↦ ground (arith, e, has_node-names x.name ns, d.0, ==_iff x.name x.name)
  | inr later ↦
      ground (arith, names-mem n ns later, has_node-names n.name ns, mem-find_node n ns d.1 later)
]

abbrev pub HasFailed : WorkflowNodeState → List WorkflowNodeState → Type 0
HasFailed n nodes = Memᴰ n nodes × (n.phase ≡ failed)

skip_failed :
    (message : Str) (clock : Str → Time) (n : WorkflowNodeState)
    → n.phase ≡ failed
    → skip_if_pending message clock n ≡ n
skip_failed message clock n h = ground arith

-- No failure policy touches a failed node.
stop-keeps_failed :
    (clock : Str → Time) (policy : FailurePolicy) (nodes nodes' : List WorkflowNodeState)
    (reverse : Map (List Str)) (fs : List Str) (n : WorkflowNodeState)
    → policy ≢ best_effort
    → policy ≢ continue_independent
    → fs ≢ []
    → HaveOwnNodes nodes
    → apply_failure_policy clock policy nodes reverse fs ≡ some nodes'
    → HasFailed n nodes
    → Memᴰ n nodes'
stop-keeps_failed clock policy nodes nodes' reverse fs n p q some_failed own h (m, is_failed) =
    let effect = stop_downstream-skips_all clock policy nodes reverse fs p q some_failed own in
    let same : map (skip_if_pending stop_message clock) nodes ≡ nodes' = ground arith in
    subst (Memᴰ n) same (
      subst (λ x. Memᴰ x (map (skip_if_pending stop_message clock) nodes))
        (skip_failed stop_message clock n is_failed)
        (Memᴰ.map (skip_if_pending stop_message clock) m))

continue-keeps_failed :
    (clock : Str → Time) (nodes nodes' : List WorkflowNodeState) (reverse : Map (List Str))
    (fs : List Str) (n : WorkflowNodeState)
    → ((name : Str) → AreKnown nodes (neighbours reverse name))
    → fs ≢ []
    → HaveOwnNodes nodes
    → apply_failure_policy clock continue_independent nodes reverse fs ≡ some nodes'
    → HasFailed n nodes
    → Memᴰ n nodes'
continue-keeps_failed clock nodes nodes' reverse fs n known some_failed own h (m, is_failed) =
    let (nodes'', runs, effect) =
      continue_independent-skips_descendants clock nodes reverse fs known some_failed in
    let found = mem-find_node n nodes own m in
    let same : nodes'' ≡ nodes' = ground arith in
    subst (Memᴰ n) same (
      find_node-mem n.name nodes''
        (elim (effect n.name) [ inl (_, e) ↦ ground arith | inr (_, e) ↦ e ∙ found ]))

pub policy-keeps_failed :
    (clock : Str → Time) (policy : FailurePolicy) (nodes nodes' : List WorkflowNodeState)
    (reverse : Map (List Str)) (fs : List Str) (n : WorkflowNodeState)
    → ((name : Str) → AreKnown nodes (neighbours reverse name))
    → fs ≢ []
    → HaveOwnNodes nodes
    → apply_failure_policy clock policy nodes reverse fs ≡ some nodes'
    → HasFailed n nodes
    → Memᴰ n nodes'
unfolding apply_failure_policy
policy-keeps_failed clock policy nodes nodes' reverse [] n known some_failed own h failure =
    absurd (some_failed refl)
policy-keeps_failed clock best_effort nodes nodes' reverse (f ∷ fs) n known some_failed own h
      failure =
    let same : nodes ≡ nodes' = ground arith in subst (Memᴰ n) same failure.0
policy-keeps_failed clock continue_independent nodes nodes' reverse (f ∷ fs) n known some_failed own
      h failure =
    continue-keeps_failed clock nodes nodes' reverse (f ∷ fs) n known some_failed own h failure
policy-keeps_failed clock stop_downstream nodes nodes' reverse (f ∷ fs) n known some_failed own h
      failure =
    stop-keeps_failed clock stop_downstream nodes nodes' reverse (f ∷ fs) n (λ e. ground arith)
      (λ e. ground arith) some_failed own h failure
policy-keeps_failed clock (other_policy s) nodes nodes' reverse (f ∷ fs) n known some_failed own h
      failure =
    stop-keeps_failed clock (other_policy s) nodes nodes' reverse (f ∷ fs) n (λ e. ground arith)
      (λ e. ground arith) some_failed own h failure
