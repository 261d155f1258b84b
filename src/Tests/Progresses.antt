-- ===== src/Tests/Progresses.antt =====
-- Tests of what a pass starts.
use certificate_job_operator.Prelude.{
  Option, some, none, List, [], Str, str, contains, ◌≡◌, ◌⊎◌, inl, refl, ◌==◌,
}
use mathlib.Core.Option
use certificate_job_operator.Api.{WorkflowNodeState, continue_independent, pending}
use certificate_job_operator.Client.{ApiError}
use certificate_job_operator.Workflow.Graph.Built.{build_workflow_graph_sound}
use certificate_job_operator.Workflow.Nodes.{find_node, node_state_map, ensure_workflow_node_states}
use certificate_job_operator.Workflow.Runnable.{GraphKnown, IsRunnable}
use certificate_job_operator.Workflow.Ready.{IsQuiet, IsQuiet-of_All}
use certificate_job_operator.Run.{Outcome, reconcile_certificate_run}
use certificate_job_operator.Run.Observe.{observe_workflow_node_jobs}
use certificate_job_operator.Run.Safety.{deps_known}
use certificate_job_operator.Run.Schedule.{Scheduled, schedule_runnable_nodes}
use certificate_job_operator.Run.Ordered.{started, schedule_runnable_nodes-ordered}
use certificate_job_operator.Run.Progress.{reconcile_certificate_run-progresses}
use certificate_job_operator.Tests.{workflow, renewal, site, server, session_with, node}
use certificate_job_operator.Tests.Passes
use certificate_job_operator.Tests.Passes.{graph, graph_built, waiting}

waiting_known : GraphKnown waiting graph.deps
waiting_known =
    let (w, is_graph) = build_workflow_graph_sound workflow graph_built in
    deps_known workflow graph waiting w is_graph (λ name h. unfold contains in h)

abbrev nodes_or : Option (Scheduled server renewal site (str "run")) → List WorkflowNodeState
nodes_or none = []
nodes_or (some sch) = sch.nodes

-- What two slots make of the waiting nodes: "issue" and "notify" start, and "deploy" does not.
abbrev two_started : List WorkflowNodeState
two_started = nodes_or (
    schedule_runnable_nodes server renewal site (str "run") graph.deps 7 2 waiting
      (session_with []))

schedule_runnable_nodes-ordered_example :
    (find_node (str "issue") two_started ≡ find_node (str "issue") waiting)
    ⊎ (IsRunnable continue_independent waiting graph.deps (str "issue")
        × (find_node (str "issue") two_started
            ≡ Option.map
                (started server renewal site (str "run") (str "issue") 7)
                (find_node (str "issue") waiting)))
unfolding schedule_runnable_nodes node_state_map ◌==◌ find_node
schedule_runnable_nodes-ordered_example =
    schedule_runnable_nodes-ordered server renewal site (str "run") graph.deps 7 2 waiting
      (session_with []) waiting_known refl (str "issue")

first-IsQuiet :
    IsQuiet continue_independent
      (observe_workflow_node_jobs server (str "web") 7 waiting (session_with [])).nodes
unfolding observe_workflow_node_jobs ◌==◌
first-IsQuiet = IsQuiet-of_All continue_independent waiting (inl refl, (inl refl, (inl refl, tt)))

-- The first pass over a run starts a node.
reconcile_certificate_run-progresses_example :
    (out : Outcome server) × (reconcile_certificate_run server renewal site graph Passes.started
        (session_with [])
      ≡ some out)
    × (((e : ApiError) × (out.error ≡ some e))
        ⊎ ((ready : Str) × IsRunnable continue_independent waiting graph.deps ready
            × (find_node ready out.state.nodes
                ≡ Option.map
                    (started server renewal site (str "0a1b2c3d4e5f") ready 7)
                    (find_node ready waiting))))
unfolding observe_workflow_node_jobs ensure_workflow_node_states find_node ◌==◌
reconcile_certificate_run-progresses_example =
    reconcile_certificate_run-progresses server renewal site graph Passes.started (session_with [])
      (str "issue") graph_built refl refl refl first-IsQuiet
      (node (str "issue") [] pending, refl, refl)
