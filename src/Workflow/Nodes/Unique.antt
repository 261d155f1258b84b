-- ===== src/Workflow/Nodes/Unique.antt =====
-- How reads and writes through `nodeStateMap` act on the slice of node states.
use certificate_job_operator.Prelude.{
  true, false, none, some, List, [], ◌∷◌, map, Str, ◌==◌, ==_iff, ◌≡◌, refl, ◌↔◌, inl, inr, Memᴰ,
  Memᴰ-cons, arith, if◌then◌else◌, Bool-cases, contains,
}
use mathlib.Core.List.Memᴰ
use mathlib.Core.Option
use certificate_job_operator.Api.{WorkflowNodeState}
use certificate_job_operator.Workflow.Nodes.{has_node, find_node, update_node, node_state_map}

abbrev pub node_names : List WorkflowNodeState → List Str
node_names = map (λ n. n.name)

-- A write through a pointer leaves the name alone.
abbrev pub KeepsName : (WorkflowNodeState → WorkflowNodeState) → Type 0
KeepsName f = (n : WorkflowNodeState) → (f n).name ≡ n.name

pub find_node-name :
    (k : Str) (ns : List WorkflowNodeState) {n : WorkflowNodeState}
    → find_node k ns ≡ some n
    → n.name ≡ k
unfolding find_node
find_node-name k [] h = cc
find_node-name k (m ∷ ns) {n} h = ground (arith, ==_iff m.name k, find_node-name k ns {n = n})

pub find_node-none :
    (k : Str) (ns : List WorkflowNodeState) → (find_node k ns ≡ none) ↔ (has_node k ns ≡ false)
unfolding find_node
find_node-none k [] = ((λ h. refl), λ h. refl)
find_node-none k (m ∷ ns) = ground (arith, find_node-none k ns)

pub has_node-find :
    (k : Str) (ns : List WorkflowNodeState)
    → has_node k ns ≡ true
    → (n : WorkflowNodeState) × (find_node k ns ≡ some n)
unfolding find_node
has_node-find k [] h = absurd (cc)
has_node-find k (m ∷ ns) h = elim (Bool-cases (has_node k ns)) [
  | inl later ↦ let (n, e) = has_node-find k ns later in (n, rw (later) e)
  | inr last ↦ (m, ground arith)
]

pub has_node-update :
    (j k : Str) (f : WorkflowNodeState → WorkflowNodeState) (ns : List WorkflowNodeState)
    → KeepsName f
    → has_node j (update_node k f ns) ≡ has_node j ns
unfolding update_node
has_node-update j k f [] keep = refl
has_node-update j k f (m ∷ ns) keep = ground (arith, keep m, has_node-update j k f ns keep)

pub find_node-update :
    (j k : Str) (f : WorkflowNodeState → WorkflowNodeState) (ns : List WorkflowNodeState)
    → KeepsName f
    → find_node j (update_node k f ns)
      ≡ (if k == j then Option.map f (find_node k ns) else find_node j ns)
unfolding update_node find_node
find_node-update j k f [] keep = ground arith
find_node-update j k f (m ∷ ns) keep = ground (
  arith,
  keep m,
  ==_iff k j,
  ==_iff m.name j,
  ==_iff m.name k,
  has_node-update j k f ns keep,
  find_node-update j k f ns keep,
)

pub node_names-update :
    (k : Str) (f : WorkflowNodeState → WorkflowNodeState) (ns : List WorkflowNodeState)
    → KeepsName f
    → node_names (update_node k f ns) ≡ node_names ns
unfolding update_node
node_names-update k f [] keep = refl
node_names-update k f (m ∷ ns) keep = ground (arith, keep m, node_names-update k f ns keep)

-- The entries of the map are what a lookup finds.
pub node_state_map-mem :
    (ns : List WorkflowNodeState) (n : WorkflowNodeState)
    → Memᴰ n (node_state_map ns) ↔ (find_node n.name ns ≡ some n)
unfolding node_state_map find_node
node_state_map-mem [] n = ((λ m. absurd (Memᴰ.not-nil m)), λ h. cc)
node_state_map-mem (x ∷ ns) n = ground (
  arith,
  node_state_map-mem ns n,
  node_state_map-mem ns x,
  ==_iff x.name n.name,
  find_node-none n.name ns,
  Memᴰ-cons n x (node_state_map ns),
)

pub has_node-names :
    (k : Str) (ns : List WorkflowNodeState) → has_node k ns ≡ contains (node_names ns) k
unfolding contains
has_node-names k [] = refl
has_node-names k (n ∷ ns) = ground (arith, has_node-names k ns)
