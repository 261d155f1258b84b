-- ===== src/Workflow/Nodes.antt =====
-- The node states of a run (`nodeStateMap`, `ensureWorkflowNodeStates`, `initializeNodeStates`).
-- `nodes[name]` of the map of pointers is the last entry of that name: `find_node` reads through
-- the pointer and `update_node` writes through it, and `none` is the nil pointer.
pub mod Unique
use certificate_job_operator.Prelude.{
  Bool, true, false, ◌||◌, Option, none, some, List, [], ◌∷◌, ◌++◌, map, Str, ◌==◌, str_lt, any,
  sort, if◌then◌else◌,
}
use certificate_job_operator.Api.{
  ExecutionPhase, pending, succeeded, failed, skipped, CertificateJobTemplate, WorkflowNodeState,
}

abbrev pub is_pending : ExecutionPhase → Bool
is_pending pending = true
is_pending _ = false

abbrev pub is_failed : ExecutionPhase → Bool
is_failed failed = true
is_failed _ = false

unfoldable pub is_terminal_phase : ExecutionPhase → Bool
is_terminal_phase succeeded = true
is_terminal_phase failed = true
is_terminal_phase skipped = true
is_terminal_phase _ = false

-- `_, ok := nodes[name]`.
abbrev pub has_node : Str → List WorkflowNodeState → Bool
has_node name nodes = any (λ n. n.name == name) nodes

-- The entries of the map, one for each name.
unfoldable pub node_state_map : List WorkflowNodeState → List WorkflowNodeState
node_state_map [] = []
node_state_map (n ∷ ns) = if has_node n.name ns then node_state_map ns else n ∷ node_state_map ns

unfoldable pub find_node : Str → List WorkflowNodeState → Option WorkflowNodeState
find_node name [] = none
find_node name (n ∷ ns) =
    if has_node name ns then find_node name ns else if n.name == name then some n else none

unfoldable pub update_node :
    Str → (WorkflowNodeState → WorkflowNodeState) → List WorkflowNodeState → List WorkflowNodeState
update_node name f [] = []
update_node name f (n ∷ ns) =
    if has_node name ns
    then n ∷ update_node name f ns
    else if n.name == name
    then f n ∷ ns
    else n ∷ ns

abbrev pub new_node : Str → WorkflowNodeState
new_node name = record {
  name = name;
  job_name = [];
  phase = pending;
  message = [];
  started_at = none;
  completed_at = none;
}

-- The loop of `ensureWorkflowNodeStates`; `known` is the map that was built before it.
unfoldable pub ensure_from :
    List WorkflowNodeState
    → List CertificateJobTemplate
    → List WorkflowNodeState
    → List WorkflowNodeState
ensure_from known [] nodes = nodes
ensure_from known (tmpl ∷ tmpls) nodes =
    ensure_from known tmpls
      (if has_node tmpl.name known then nodes else nodes ++ new_node tmpl.name ∷ [])

unfoldable pub ensure_workflow_node_states :
    List CertificateJobTemplate → List WorkflowNodeState → List WorkflowNodeState
unfolding ensure_from
ensure_workflow_node_states jobs nodes = ensure_from nodes jobs nodes

unfoldable pub initialize_node_states : List CertificateJobTemplate → List WorkflowNodeState
unfolding sort str_lt
initialize_node_states jobs =
    sort (λ m n. str_lt m.name n.name) (map (λ job. new_node job.name) jobs)
