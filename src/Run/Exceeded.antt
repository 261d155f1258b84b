-- ===== src/Run/Exceeded.antt =====
-- About a pass while the Jobs of running nodes have no active pod (`reconcileCertificateRun`).
use certificate_job_operator.Prelude.{
  ℕ, zero, suc, ◌≤◌, none, some, List, [], ◌∷◌, Str, Map, keep, length, sort_strings,
  sort_strings-mem, ◌≡◌, refl, sym, ap, ◌∙◌, ◌⊎◌, inl, inr, All, Memᴰ, arith, Option-cases, subst,
}
use certificate_job_operator.Prelude.Int.{pos, pos_part, ◌-ℤ◌}
use mathlib.Core.List.Memᴰ
use certificate_job_operator.Api.{
  Time, pending, Certificate, CertificateJob, CertificateExecutionState, WorkflowNodeState, Job,
}
use certificate_job_operator.Client.{Client, Session, ApiError, Response}
use certificate_job_operator.Workflow.Nodes.{find_node, update_node, ensure_workflow_node_states}
use certificate_job_operator.Workflow.Descendants.Reached.{List-cases}
use certificate_job_operator.Workflow.Runnable.{GraphKnown, IsRunnable, runnable_nodes_lem}
use certificate_job_operator.Workflow.Graph.{Graph, built, build_workflow_graph}
use certificate_job_operator.Workflow.Graph.Built.{build_workflow_graph_sound}
use certificate_job_operator.Run.{
  requested_parallelism, is_running, Outcome, conclude_run, fill_slots, reconcile_certificate_run,
}
use certificate_job_operator.Run.Observe.{Observation, observe_workflow_node_jobs}
use certificate_job_operator.Run.Observe.Effect.{IsSnapshot, IsPassed, idle_nodes_not_counted}
use certificate_job_operator.Run.Progress.{requested_parallelism-positive, continue_run-unharmed}
use certificate_job_operator.Run.Safety.{
  reconcile_certificate_run-returns, ensure-HasNodes, deps_known,
}
use certificate_job_operator.Run.Schedule.{
  start_node, job_name_of, Scheduled, launch, schedule_from, schedule_runnable_nodes,
}

-- How many nodes are running.
abbrev pub running_count : List WorkflowNodeState → ℕ
running_count nodes = length (keep (λ n. is_running n.phase) nodes)

-- Starting a node takes none of the running nodes away, and adds it if it was pending.
running_count-start :
    (name job_name : Str) (t : Time) (nodes : List WorkflowNodeState)
    → running_count nodes ≤ running_count (update_node name (start_node job_name t) nodes)
unfolding update_node
running_count-start name job_name t [] = omega arith
running_count-start name job_name t (n ∷ nodes) =
    ground (arith, running_count-start name job_name t nodes)

running_count-start_pending :
    (name job_name : Str) (t : Time) (nodes : List WorkflowNodeState) {n : WorkflowNodeState}
    → find_node name nodes ≡ some n
    → n.phase ≡ pending
    → suc (running_count nodes) ≤ running_count (update_node name (start_node job_name t) nodes)
unfolding update_node find_node
running_count-start_pending name job_name t [] found waits = absurd (cc)
running_count-start_pending name job_name t (m ∷ nodes) {n} found waits =
    ground (arith, running_count-start_pending name job_name t nodes {n = n})

module _ (c : Client) (cjob : CertificateJob) (cert : Certificate) (run_id : Str) where
  open c use {World}

  running_count-schedule_from :
      (names : List Str) (t : Time) (slots : ℕ) (nodes : List WorkflowNodeState) (s : Session World)
      → running_count nodes
        ≤ running_count (schedule_from c cjob cert run_id names t slots nodes s).nodes
  unfolding schedule_from
  running_count-schedule_from [] t slots nodes s = omega arith
  running_count-schedule_from (name ∷ names) t zero nodes s = omega arith
  running_count-schedule_from (name ∷ names) t (suc slots) nodes s =
      let job_name = job_name_of c cjob cert run_id name in
      ground (
        arith,
        running_count-start name job_name t nodes,
        running_count-schedule_from names t slots (update_node name (start_node job_name t) nodes)
            (launch c cjob cert run_id name s).0,
      )

  -- With a slot, and a pending node first, a run without an error has one more running node.
  running_count-first :
      (name : Str) (names : List Str) (t : Time) (slots : ℕ) (nodes : List WorkflowNodeState)
      (s : Session World) {n : WorkflowNodeState}
      → let sch = schedule_from c cjob cert run_id (name ∷ names) t (suc slots) nodes s in
        find_node name nodes ≡ some n
        → n.phase ≡ pending
        → sch.error ≡ none
        → suc (running_count nodes) ≤ running_count sch.nodes
  unfolding schedule_from
  running_count-first name names t slots nodes s {n} found waits fine =
      let job_name = job_name_of c cjob cert run_id name in
      let more = running_count-start_pending name job_name t nodes {n = n} found waits in
      let rest =
        running_count-schedule_from names t slots (update_node name (start_node job_name t) nodes)
          (launch c cjob cert run_id name s).0 in
      elim (Option-cases ((launch c cjob cert run_id name s).1)) [
        | inr (e, broken) ↦ absurd (ground arith)
        | inl good ↦ ground arith
      ]

  running_count-schedule :
      (deps : Map (List Str)) (t : Time) (slots : ℕ) (nodes : List WorkflowNodeState)
      (s : Session World) (ready : Str) {sch : Scheduled c cjob cert run_id}
      → GraphKnown nodes deps
      → IsRunnable cjob.spec.failure_policy nodes deps ready
      → schedule_runnable_nodes c cjob cert run_id deps t (suc slots) nodes s ≡ some sch
      → sch.error ≡ none
      → suc (running_count nodes) ≤ running_count sch.nodes
  unfolding schedule_runnable_nodes
  running_count-schedule deps t slots nodes s ready {sch} known is_ready h fine =
      let (names, runs, exact) = runnable_nodes_lem cjob.spec.failure_policy nodes deps known in
      let same : schedule_from c cjob cert run_id (sort_strings names) t (suc slots) nodes s ≡ sch =
        ground arith in
      elim (List-cases (sort_strings names)) [
        | inl empty ↦ absurd (
            Memᴰ.not-nil (
              subst (Memᴰ ready) empty
                ((sort_strings-mem ready names).1 ((exact ready).1 is_ready))))
        | inr (name, rest, e) ↦
            let ran : schedule_from c cjob cert run_id (name ∷ rest) t (suc slots) nodes s ≡ sch =
              ap (λ l. schedule_from c cjob cert run_id l t (suc slots) nodes s) (sym e) ∙ same in
            let mem : Memᴰ name (sort_strings names) = subst (Memᴰ name) (sym e) (Memᴰ.head refl) in
            let (n, found, waits, _) = (exact name).0 ((sort_strings-mem name names).0 mem) in
            let more =
              running_count-first name rest t slots nodes s {n = n} found waits
                (ap (λ (x : Scheduled c cjob cert run_id). x.error) ran ∙ fine) in
            subst
              (λ (x : Scheduled c cjob cert run_id).
                suc (running_count nodes) ≤ running_count x.nodes)
              ran more
      ]

module _ (c : Client) (cjob : CertificateJob) (cert : Certificate) (graph : Graph) where
  open c use {World, now}

  running_count-fill_slots :
      (state : CertificateExecutionState) (t : Time) (o : Observation c)
      (nodes : List WorkflowNodeState) (ready : Str) {out : Outcome c}
      → o.active ≡ 0
      → GraphKnown nodes graph.deps
      → IsRunnable cjob.spec.failure_policy nodes graph.deps ready
      → fill_slots c cjob cert graph state t o nodes ≡ some out
      → out.error ≡ none
      → suc (running_count nodes) ≤ running_count out.state.nodes
  unfolding fill_slots conclude_run
  running_count-fill_slots state t o nodes ready {out} idle known is_ready h fine =
      let (n, parallel) = requested_parallelism-positive cjob.spec in
      let slots = requested_parallelism cjob.spec -ℤ pos o.active in
      let exact : slots ≡ pos (suc n) = rw (parallel, idle) (ground arith) in
      let free : pos_part slots ≡ suc n = ap (λ z. pos_part z) exact in
      elim (Option-cases (
        schedule_runnable_nodes c cjob cert state.run_id graph.deps t (pos_part slots) nodes
          o.session)) [
            | inl panic ↦ absurd (ground arith)
            | inr (sch, e) ↦
                let e' =
                  subst
                    (λ k.
                      schedule_runnable_nodes c cjob cert state.run_id graph.deps t k nodes
                        o.session
                      ≡ some sch)
                    free e in
                elim (Option-cases sch.error) [
                  | inr (err, failed) ↦ absurd (ground arith)
                  | inl good ↦
                      let more =
                        running_count-schedule c cjob cert state.run_id graph.deps t n nodes
                          o.session ready {sch = sch} known is_ready e' good in
                      let same : out.state.nodes ≡ sch.nodes = ground arith in ground arith
                ]
          ]

  -- The parallelism does not bound the nodes that run at a time. For a workflow that
  -- `buildWorkflowGraph` accepts, take a run whose started nodes each have a Job that is there,
  -- neither finished nor active yet, and in which some node can run. If already as many nodes run
  -- as the parallelism asks for, or more, the pass returns, and it meets an error of the API server,
  -- or more nodes run after it than the parallelism asks for, and more than before it. The API
  -- server answers the requests for Jobs from one snapshot.
  pub parallelism_is_exceeded :
      (answers : Str → Response Job) (state : CertificateExecutionState) (s : Session World)
      (parallelism : ℕ) (ready : Str)
      → let nodes = ensure_workflow_node_states cjob.spec.jobs state.nodes in
        build_workflow_graph cjob.spec ≡ built graph
        → IsSnapshot c cert.namespace (now s.world) answers
        → All (IsPassed answers) nodes
        → IsRunnable cjob.spec.failure_policy nodes graph.deps ready
        → requested_parallelism cjob.spec ≡ pos parallelism
        → parallelism ≤ running_count nodes
        → (out : Outcome c) × (reconcile_certificate_run c cjob cert graph state s ≡ some out)
          × (((e : ApiError) × (out.error ≡ some e))
              ⊎ ((suc parallelism ≤ running_count out.state.nodes)
                  × (suc (running_count nodes) ≤ running_count out.state.nodes)))
  unfolding reconcile_certificate_run
  parallelism_is_exceeded answers state s p ready h snap idle is_ready asked full =
      let (w, is_graph) = build_workflow_graph_sound cjob.spec h in
      let t = now s.world in
      let nodes = ensure_workflow_node_states cjob.spec.jobs state.nodes in
      let o = observe_workflow_node_jobs c cert.namespace t nodes s in
      let known =
        deps_known cjob.spec graph nodes w is_graph (ensure-HasNodes cjob.spec.jobs state.nodes) in
      let (same, uncounted, unharmed, clean) =
        idle_nodes_not_counted c cert.namespace t answers nodes s snap idle in
      let (out, e) = reconcile_certificate_run-returns c cjob cert graph state s h in
      let filled : fill_slots c cjob cert graph state t o nodes ≡ some out =
        ap (fill_slots c cjob cert graph state t o) (sym same)
        ∙ sym (continue_run-unharmed c cjob cert graph state t o clean unharmed)
        ∙ e in
      (
        out,
        e,
        elim (Option-cases out.error) [
          | inr (err, broken) ↦ inl (err, broken)
          | inl fine ↦
              let more =
                running_count-fill_slots state t o nodes ready {out = out} uncounted known is_ready
                  filled fine in
              inr (omega arith, more)
        ],
      )
