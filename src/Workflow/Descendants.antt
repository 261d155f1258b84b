-- ===== src/Workflow/Descendants.antt =====
-- `descendantNodes`: the breadth-first walk over the reverse graph.
pub mod Reached
use certificate_job_operator.Prelude.{
  ℕ, zero, suc, ◌+◌, Bool, true, false, List, [], ◌∷◌, ◌++◌, Str, Map, contains, length,
  sort_strings, if◌then◌else◌,
}
use certificate_job_operator.Workflow.Runnable.{neighbours}

-- The set `seen` as a list, and the queue.
pub record Walk : Type 0 where
  pub seen : List Str
  pub queue : List Str

-- The body of the inner loop.
unfoldable pub offer : Walk → Str → Walk
offer w child =
    if contains w.seen child
    then w
    else record { seen = child ∷ w.seen; queue = w.queue ++ child ∷ [] }

unfoldable pub scan : Walk → List Str → Walk
unfolding offer
scan w [] = w
scan w (child ∷ children) = scan (offer w child) children

-- The outer loop. With the fuel given below it ends by its test, on an empty queue.
unfoldable pub descend : Map (List Str) → ℕ → Walk → Walk
unfolding scan neighbours contains
descend reverse zero w = w
descend reverse (suc fuel) w = elim w.queue [
  | [] ↦ w
  | node ∷ rest ↦ descend reverse fuel (scan (record w { queue = rest }) (neighbours reverse node))
]

-- All the slices of the map, end to end.
abbrev pub all_targets : Map (List Str) → List Str
all_targets [] = []
all_targets ((_, targets) ∷ graph) = targets ++ all_targets graph

-- Each root, and each child once, is taken from the queue.
abbrev pub walk_fuel : Map (List Str) → List Str → ℕ
walk_fuel reverse roots = length roots + length (all_targets reverse)

unfoldable pub walk_from : Map (List Str) → List Str → Walk
unfolding descend
walk_from reverse roots =
    descend reverse (walk_fuel reverse roots) (record { seen = []; queue = roots })

unfoldable pub descendant_nodes : Map (List Str) → List Str → List Str
unfolding walk_from sort_strings
descendant_nodes reverse roots = sort_strings (walk_from reverse roots).seen
