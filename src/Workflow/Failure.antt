-- ===== src/Workflow/Failure.antt =====
-- `applyFailurePolicy`: what a failure skips.
pub mod Effect
pub mod Kept
use certificate_job_operator.Prelude.{
  ℕ, zero, suc, Option, none, some, List, [], ◌∷◌, Str, Map, str, length, get_elem?, if◌then◌else◌,
}
use certificate_job_operator.Api.{
  Time, FailurePolicy, stop_downstream, continue_independent, best_effort, other_policy, skipped,
  WorkflowNodeState,
}
use certificate_job_operator.Workflow.Nodes.{is_pending, find_node, update_node}
use certificate_job_operator.Workflow.Descendants.{descendant_nodes}

abbrev pub skip_node : Str → Time → WorkflowNodeState → WorkflowNodeState
skip_node message t n = record n { phase = skipped; message = message; completed_at = some t }

abbrev pub dependency_message : Str
dependency_message = str "skipped due to failed dependency"

abbrev pub stop_message : Str
stop_message = str "skipped because workflow stopped after a failure"

-- `clock name` is what `metav1.Now()` returns when the node of that name is skipped, which happens
-- once at most in a call.
module _ (clock : Str → Time) where
  -- The body of the loop under ContinueIndependent. `none` is the panic on a nil pointer.
  skip_pending : Str → List WorkflowNodeState → Option (List WorkflowNodeState)
  unfolding find_node update_node
  skip_pending name nodes = elim (find_node name nodes) [
    | none ↦ none
    | some n ↦ some (
        if is_pending n.phase
        then update_node name (skip_node dependency_message (clock name)) nodes
        else nodes)
  ]

  skip_each : List Str → List WorkflowNodeState → Option (List WorkflowNodeState)
  unfolding skip_pending
  skip_each [] nodes = some nodes
  skip_each (name ∷ names) nodes = elim (skip_pending name nodes) [
    | none ↦ none
    | some nodes' ↦ skip_each names nodes'
  ]

  -- The body of the loop under any other policy, at index `i` of `state.Nodes`.
  stop_at : ℕ → List WorkflowNodeState → List WorkflowNodeState
  unfolding update_node
  stop_at i nodes = elim (get_elem? nodes i) [
    | none ↦ nodes
    | some n ↦
        if is_pending n.phase
        then update_node n.name (skip_node stop_message (clock n.name)) nodes
        else nodes
  ]

  -- `rounds` indices are left, from `i` on.
  stop_from : (rounds i : ℕ) → List WorkflowNodeState → List WorkflowNodeState
  unfolding stop_at
  stop_from zero i nodes = nodes
  stop_from (suc rounds) i nodes = stop_from rounds (suc i) (stop_at i nodes)

  -- The `switch` on the policy.
  unfoldable pub skip_by_policy :
      FailurePolicy
      → List WorkflowNodeState
      → Map (List Str)
      → List Str
      → Option (List WorkflowNodeState)
  unfolding skip_each stop_from descendant_nodes
  skip_by_policy best_effort nodes reverse failed = some nodes
  skip_by_policy continue_independent nodes reverse failed =
      skip_each (descendant_nodes reverse failed) nodes
  skip_by_policy _ nodes reverse failed = some (stop_from (length nodes) 0 nodes)

  -- The parameter `deps` of the source is not used there.
  unfoldable pub apply_failure_policy :
      FailurePolicy
      → List WorkflowNodeState
      → Map (List Str)
      → List Str
      → Option (List WorkflowNodeState)
  unfolding skip_by_policy
  apply_failure_policy policy nodes reverse [] = some nodes
  apply_failure_policy policy nodes reverse (f ∷ failed) =
      skip_by_policy policy nodes reverse (f ∷ failed)
