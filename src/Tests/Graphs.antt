-- ===== src/Tests/Graphs.antt =====
-- Tests of the workflow graph, the phases and the failure policies.
use certificate_job_operator.Prelude.{
  true, some, none, List, [], ◌∷◌, Str, Map, str, keys, map, contains, ◌≡◌, ◌≢◌, ◌⊎◌, refl, ◌↔◌,
  Memᴰ, ◌==◌, arith, Distinct, Bool-cases, inl, inr, All, All-mem, lookup,
}
use mathlib.Core.Option
use certificate_job_operator.Api.{
  WorkflowNodeState, pending, running, failed, succeeded, stop_downstream, continue_independent,
}
use certificate_job_operator.JobSecurity.{validate_reserved_labels, validate_job_template_security}
use certificate_job_operator.Templates.{check_template}
use certificate_job_operator.Tests.{workflow, node}
use certificate_job_operator.Workflow.Nodes.{find_node}
use certificate_job_operator.Workflow.Nodes.Unique.{node_names}
use certificate_job_operator.Workflow.Phase.{
  derive_workflow_phase, derive_workflow_phase_iff, SomeNode, IsDone,
}
use certificate_job_operator.Workflow.Runnable.{
  neighbours, GraphKnown, AreKnown, IsRunnable, runnable_nodes, runnable_nodes_lem,
}
use certificate_job_operator.Workflow.Failure.{
  apply_failure_policy, stop_message, dependency_message,
}
use certificate_job_operator.Workflow.Failure.Effect.{
  skip_if_pending, stop_downstream-skips_all, continue_independent-skips_descendants,
}
use certificate_job_operator.Workflow.Descendants.{descendant_nodes, walk_from}
use certificate_job_operator.Workflow.Descendants.Reached.{
  Descends, descendant_nodes_iff, walk_from-drains,
}
use certificate_job_operator.Workflow.Acyclic.{validate_acyclic, run_kahn}
use certificate_job_operator.Workflow.Acyclic.Loop.{Grounded}
use certificate_job_operator.Workflow.Acyclic.Correct.{
  validate_acyclic_iff, run_kahn-drains, IsClosed,
}
use certificate_job_operator.Workflow.Graph.{Graph, build_workflow_graph, built}
use certificate_job_operator.Workflow.Graph.Fill.{job_names_of, sources}
use certificate_job_operator.Workflow.Graph.Built.{
  IsWorkflow, IsGraphOf, build_workflow_graph_sound, build_workflow_graph_complete,
}
use certificate_job_operator.Workflow.Graph.Cycles.{Depends, accepted_has_no_cycle}

abbrev chain : Map (List Str)
chain = (str "issue", []) ∷ (str "deploy", str "issue" ∷ []) ∷ (str "notify", []) ∷ []

abbrev loop : Map (List Str)
loop = (str "a", str "b" ∷ []) ∷ (str "b", str "a" ∷ []) ∷ []

chain_accepted : validate_acyclic chain ≡ none
unfolding validate_acyclic ◌==◌
chain_accepted = refl

chain-Distinct : Distinct (keys chain)
unfolding contains ◌==◌
chain-Distinct = ground arith

issue_known : contains (keys chain) (str "issue") ≡ true
unfolding contains ◌==◌
issue_known = refl

-- What holds of every entry of the lists holds of what is read from the map.
neighbours-All :
    (P : Str → Type 0) (m : Map (List Str)) (n : Str)
    → All (λ (e : Str × List Str). All P e.1) m
    → All P (neighbours m n)
unfolding neighbours lookup
neighbours-All P [] n h = tt
neighbours-All P ((k, v) ∷ m) n (h, hs) = elim (Bool-cases (k == n)) [
  | inl here ↦ rw here h
  | inr other ↦ rw other (neighbours-All P m n hs)
]

chain-IsClosed : IsClosed chain
chain-IsClosed n dep m =
    All-mem (λ d. contains (keys chain) d ≡ true) (neighbours chain n)
      (neighbours-All (λ d. contains (keys chain) d ≡ true) chain n
        (tt, ((issue_known, tt), (tt, tt))))
      dep m

validate_acyclic_iff_example :
    (validate_acyclic chain ≡ none)
    ↔ ((n : Str) → contains (keys chain) n ≡ true → Grounded (neighbours chain) n)
validate_acyclic_iff_example = validate_acyclic_iff chain chain-Distinct chain-IsClosed

run_kahn-drains_example : (run_kahn chain).queue ≡ []
run_kahn-drains_example = run_kahn-drains chain chain-Distinct

abbrev workflow_graph : Graph
workflow_graph = record {
  job_names = str "notify" ∷ str "deploy" ∷ str "issue" ∷ [];
  deps = chain;
  reverse = (str "issue", str "deploy" ∷ []) ∷ (str "deploy", []) ∷ (str "notify", []) ∷ [];
}

workflow_built : build_workflow_graph workflow ≡ built workflow_graph
unfolding build_workflow_graph ◌==◌ check_template validate_reserved_labels
    validate_job_template_security
workflow_built = refl

build_workflow_graph_sound_example : IsWorkflow workflow × IsGraphOf workflow workflow_graph
build_workflow_graph_sound_example = build_workflow_graph_sound workflow workflow_built

build_workflow_graph_complete_example : (g : Graph) × (build_workflow_graph workflow ≡ built g)
build_workflow_graph_complete_example =
    build_workflow_graph_complete workflow (build_workflow_graph_sound workflow workflow_built).0

deploy_listed : contains (job_names_of workflow.jobs) (str "deploy") ≡ true
unfolding contains ◌==◌
deploy_listed = refl

accepted_has_no_cycle_example :
    ¬ Depends (sources workflow.workflow.edges) (str "deploy") (str "deploy")
accepted_has_no_cycle_example =
    accepted_has_no_cycle workflow (str "deploy") workflow_built deploy_listed

-- "issue" failed, "deploy" and "notify" are pending.
abbrev after_failure : List WorkflowNodeState
after_failure =
    node (str "issue") (str "job-1") failed
    ∷ node (str "deploy") [] pending
    ∷ node (str "notify") [] pending
    ∷ []

derive_workflow_phase_iff_example :
    ((derive_workflow_phase after_failure ≡ failed) ↔ SomeNode failed after_failure)
    × ((derive_workflow_phase after_failure ≡ running)
        ↔ ((¬ SomeNode failed after_failure) × SomeNode running after_failure))
    × ((derive_workflow_phase after_failure ≡ succeeded) ↔ All IsDone after_failure)
    × ((derive_workflow_phase after_failure ≡ pending) ↔ (
        (¬ SomeNode failed after_failure)
        × (¬ SomeNode running after_failure)
        × (¬ All IsDone after_failure)))
derive_workflow_phase_iff_example = derive_workflow_phase_iff after_failure

nodes_known :
    (dep : Str)
    → (dep ≡ str "issue") ⊎ (dep ≡ str "deploy")
    → (m : WorkflowNodeState) × (find_node dep after_failure ≡ some m)
unfolding find_node ◌==◌
nodes_known dep (inl e) = (node (str "issue") (str "job-1") failed, rw e refl)
nodes_known dep (inr e) = (node (str "deploy") [] pending, rw e refl)

chain_known : GraphKnown after_failure chain
chain_known name =
    All-mem (λ d. (m : WorkflowNodeState) × (find_node d after_failure ≡ some m))
      (neighbours chain name)
      (neighbours-All _ chain name (tt, ((nodes_known (str "issue") (inl refl), tt), (tt, tt))))

reverse_known : (name : Str) → AreKnown after_failure (neighbours workflow_graph.reverse name)
reverse_known name =
    All-mem (λ d. (m : WorkflowNodeState) × (find_node d after_failure ≡ some m))
      (neighbours workflow_graph.reverse name)
      (neighbours-All _ workflow_graph.reverse name
        ((nodes_known (str "deploy") (inr refl), tt), (tt, (tt, tt))))

runnable_nodes_lem_example :
    (names : List Str) × (runnable_nodes continue_independent after_failure chain ≡ some names)
    × ((name : Str) → Memᴰ name names ↔ IsRunnable continue_independent after_failure chain name)
runnable_nodes_lem_example = runnable_nodes_lem continue_independent after_failure chain chain_known

Distinct-nodes : Distinct (node_names after_failure)
unfolding contains ◌==◌
Distinct-nodes = ground arith

some_failed : str "issue" ∷ [] ≢ []
some_failed = λ e. ground arith

stop_downstream-skips_all_example :
    apply_failure_policy
      (λ name. 7)
      stop_downstream
      after_failure
      workflow_graph.reverse
      (str "issue" ∷ [])
    ≡ some (map (skip_if_pending stop_message (λ name. 7)) after_failure)
stop_downstream-skips_all_example =
    stop_downstream-skips_all (λ name. 7) stop_downstream after_failure workflow_graph.reverse
      (str "issue" ∷ []) (λ e. ground arith) (λ e. ground arith) some_failed Distinct-nodes

continue_independent-skips_descendants_example :
    (nodes' : List WorkflowNodeState) × (apply_failure_policy
        (λ name. 7)
        continue_independent
        after_failure
        workflow_graph.reverse
        (str "issue" ∷ [])
      ≡ some nodes')
    × ((name : Str)
        → (Descends workflow_graph.reverse (str "issue" ∷ []) name
            × (find_node name nodes'
                ≡ Option.map
                    (skip_if_pending dependency_message (λ name. 7))
                    (find_node name after_failure)))
          ⊎ ((¬ Descends workflow_graph.reverse (str "issue" ∷ []) name)
              × (find_node name nodes' ≡ find_node name after_failure)))
continue_independent-skips_descendants_example =
    continue_independent-skips_descendants (λ name. 7) after_failure workflow_graph.reverse
      (str "issue" ∷ []) reverse_known some_failed

descendant_nodes_iff_example :
    Memᴰ (str "deploy") (descendant_nodes workflow_graph.reverse (str "issue" ∷ []))
    ↔ Descends workflow_graph.reverse (str "issue" ∷ []) (str "deploy")
descendant_nodes_iff_example =
    descendant_nodes_iff workflow_graph.reverse (str "issue" ∷ []) (str "deploy")

walk_from-drains_example : (walk_from workflow_graph.reverse (str "issue" ∷ [])).queue ≡ []
walk_from-drains_example = walk_from-drains workflow_graph.reverse (str "issue" ∷ [])
