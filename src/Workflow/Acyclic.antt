-- ===== src/Workflow/Acyclic.antt =====
-- `validateAcyclic`: Kahn's algorithm over the dependency map.
pub mod Setup
pub mod Loop
pub mod Correct
use certificate_job_operator.Prelude.{
  ℕ, zero, suc, Bool, true, false, not, Option, none, some, List, [], ◌∷◌, ◌++◌, map, Str, Map,
  keys, lookup, insert, or_default, length, eqb, refuse_if, if◌then◌else◌,
}
use certificate_job_operator.Prelude.Int.{ℤ, pos, negsuc, is_zero}
use certificate_job_operator.Templates.{WorkflowError, cyclic}
use certificate_job_operator.Workflow.Runnable.{neighbours}

-- `d++` and `d--` on an `int`.
abbrev pub increment : ℤ → ℤ
increment (pos n) = pos (suc n)
increment (negsuc zero) = pos 0
increment (negsuc (suc n)) = negsuc n

abbrev pub decrement : ℤ → ℤ
decrement (pos zero) = negsuc 0
decrement (pos (suc n)) = pos n
decrement (negsuc n) = negsuc (suc n)

-- `indegree[node]`: a missing key reads as 0.
unfoldable pub degree : Map ℤ → Str → ℤ
unfolding lookup
degree indegree node = or_default (lookup node indegree) (pos 0)

-- `m[key] = append(m[key], value)`.
unfoldable pub append_to : Map (List Str) → Str → Str → Map (List Str)
unfolding neighbours insert lookup
append_to m key value = insert key (neighbours m key ++ value ∷ []) m

pub record Tables : Type 0 where
  pub indegree : Map ℤ
  pub outbound : Map (List Str)

-- The first loop.
unfoldable pub zero_degrees : List Str → Map ℤ → Map ℤ
unfolding insert
zero_degrees [] indegree = indegree
zero_degrees (node ∷ nodes) indegree = zero_degrees nodes (insert node (pos 0) indegree)

-- The second loop, and the loop inside it.
unfoldable pub count_dependencies : Str → List Str → Tables → Tables
unfolding degree append_to insert
count_dependencies node [] t = t
count_dependencies node (dep ∷ deps) t = count_dependencies node deps (record {
  indegree = insert node (increment (degree t.indegree node)) t.indegree;
  outbound = append_to t.outbound dep node;
})

unfoldable pub count_all : Map (List Str) → Tables → Tables
unfolding count_dependencies
count_all [] t = t
count_all ((node, deps) ∷ rest) t = count_all rest (count_dependencies node deps t)

-- The third loop.
unfoldable pub zero_nodes : Map ℤ → List Str
zero_nodes [] = []
zero_nodes ((node, d) ∷ rest) = if is_zero d then node ∷ zero_nodes rest else zero_nodes rest

pub record Kahn : Type 0 where
  pub indegree : Map ℤ
  pub queue : List Str
  pub visited : ℕ

-- The body of the inner `for`.
unfoldable pub release : Str → Kahn → Kahn
unfolding degree insert
release next k =
    let d = decrement (degree k.indegree next) in
    record k {
      indegree = insert next d k.indegree;
      queue = if is_zero d then k.queue ++ next ∷ [] else k.queue;
    }

unfoldable pub release_all : List Str → Kahn → Kahn
unfolding release
release_all [] k = k
release_all (next ∷ nexts) k = release_all nexts (release next k)

-- The loop over the queue. Each round visits another node, so the number of nodes is enough fuel.
unfoldable pub visit_all : Map (List Str) → ℕ → Kahn → Kahn
unfolding release_all neighbours
visit_all outbound zero k = k
visit_all outbound (suc fuel) k = elim k.queue [
  | [] ↦ k
  | node ∷ rest ↦
      visit_all outbound fuel (
        release_all (neighbours outbound node) (record k { queue = rest; visited = suc k.visited }))
]

unfoldable pub build_tables : Map (List Str) → Tables
unfolding count_all zero_degrees
build_tables deps =
    count_all deps (record { indegree = zero_degrees (keys deps) []; outbound = [] })

unfoldable pub run_kahn : Map (List Str) → Kahn
unfolding visit_all build_tables zero_nodes
run_kahn deps =
    let t = build_tables deps in
    visit_all t.outbound (length deps)
      (record { indegree = t.indegree; queue = zero_nodes t.indegree; visited = 0 })

unfoldable pub validate_acyclic : Map (List Str) → Option WorkflowError
unfolding run_kahn
validate_acyclic deps = refuse_if (not (eqb (run_kahn deps).visited (length deps))) cyclic none
