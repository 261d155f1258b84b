-- ===== src/Workflow/InOrder.antt =====
-- The nodes that a run begins with, in order (`initializeNodeStates`).
use certificate_job_operator.Prelude.{
  Bool, true, false, List, [], ◌∷◌, map, Str, str_lt, str_lt_irrefl, str_lt_trans, str_lt_total,
  sort, sort_insert, ◌≡◌, inl, inr, All, arith, Bool-cases,
}
use mathlib.Core.List.{Perm}
use mathlib.Core.List.Perm
use certificate_job_operator.Api.{CertificateJobTemplate, WorkflowNodeState}
use certificate_job_operator.Workflow.Nodes.{new_node, initialize_node_states}

abbrev IsAtLeast : Str → WorkflowNodeState → Type 0
IsAtLeast name n = str_lt n.name name ≡ false

-- Each node's name is at least that of every node before it.
abbrev pub AreInOrder : List WorkflowNodeState → Type 0
AreInOrder [] = Unit
AreInOrder (n ∷ ns) = All (IsAtLeast n.name) ns × AreInOrder ns

abbrev by_name : WorkflowNodeState → WorkflowNodeState → Bool
by_name m n = str_lt m.name n.name

at_least_trans : (a b c : Str) → str_lt b a ≡ false → str_lt c b ≡ false → str_lt c a ≡ false
at_least_trans a b c h k = ground (
  arith,
  str_lt_total a b,
  str_lt_total b c,
  str_lt_trans a b c,
  str_lt_trans c a b,
  str_lt_irrefl a,
  str_lt_irrefl c,
)

IsAtLeast-all :
    (a b : Str) (ns : List WorkflowNodeState)
    → str_lt b a ≡ false
    → All (IsAtLeast b) ns
    → All (IsAtLeast a) ns
IsAtLeast-all a b [] h k = tt
IsAtLeast-all a b (n ∷ ns) h (k, ks) = (at_least_trans a b n.name h k, IsAtLeast-all a b ns h ks)

less_at_least : (a b : Str) → str_lt a b ≡ true → str_lt b a ≡ false
less_at_least a b h = ground (arith, str_lt_trans a b a, str_lt_irrefl a)

sort_insert-all :
    (a : Str) (n : WorkflowNodeState) (ns : List WorkflowNodeState)
    → IsAtLeast a n
    → All (IsAtLeast a) ns
    → All (IsAtLeast a) (sort_insert by_name n ns)
unfolding sort_insert
sort_insert-all a n [] h k = (h, tt)
sort_insert-all a n (m ∷ ns) h (k, ks) = elim (Bool-cases (by_name m n)) [
  | inl before ↦ rw before (k, sort_insert-all a n ns h ks)
  | inr after ↦ rw after (h, (k, ks))
]

sort_insert-AreInOrder :
    (n : WorkflowNodeState) (ns : List WorkflowNodeState)
    → AreInOrder ns
    → AreInOrder (sort_insert by_name n ns)
unfolding sort_insert
sort_insert-AreInOrder n [] h = (tt, tt)
sort_insert-AreInOrder n (m ∷ ns) (h, hs) = elim (Bool-cases (by_name m n)) [
  | inl before ↦ rw before (
    sort_insert-all m.name n ns (less_at_least m.name n.name before) h,
    sort_insert-AreInOrder n ns hs,
  )
  | inr after ↦ rw after ((after, IsAtLeast-all n.name m.name ns after h), (h, hs))
]

sort_insert-perm :
    (n : WorkflowNodeState) (ns : List WorkflowNodeState) → Perm (sort_insert by_name n ns) (n ∷ ns)
unfolding sort_insert
sort_insert-perm n [] = Perm.rfl
sort_insert-perm n (m ∷ ns) = elim (Bool-cases (by_name m n)) [
  | inl before ↦ rw before (Perm.trans (Perm.cons m (sort_insert-perm n ns)) (Perm.swap n m ns))
  | inr after ↦ rw after Perm.rfl
]

sort-AreInOrder : (ns : List WorkflowNodeState) → AreInOrder (sort by_name ns)
unfolding sort
sort-AreInOrder [] = tt
sort-AreInOrder (n ∷ ns) = sort_insert-AreInOrder n (sort by_name ns) (sort-AreInOrder ns)

sort-perm : (ns : List WorkflowNodeState) → Perm (sort by_name ns) ns
unfolding sort
sort-perm [] = Perm.rfl
sort-perm (n ∷ ns) = Perm.trans (sort_insert-perm n (sort by_name ns)) (Perm.cons n (sort-perm ns))

-- One node for each job, in the order of the names.
pub initialize_node_states_lem :
    (jobs : List CertificateJobTemplate)
    → Perm (initialize_node_states jobs) (map (λ job. new_node job.name) jobs)
      × AreInOrder (initialize_node_states jobs)
unfolding initialize_node_states
initialize_node_states_lem jobs =
    let nodes = map (λ (job : CertificateJobTemplate). new_node job.name) jobs in
    (sort-perm nodes, sort-AreInOrder nodes)
