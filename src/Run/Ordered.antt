-- ===== src/Run/Ordered.antt =====
-- Which nodes `scheduleRunnableNodes` starts.
use certificate_job_operator.Prelude.{
  ℕ, zero, suc, Option, none, some, List, [], ◌∷◌, Str, Map, ◌==◌, ==_iff, sort_strings,
  sort_strings-mem, ◌≡◌, refl, sym, ap, ◌∙◌, ◌⊎◌, inl, inr, Memᴰ, arith, Option-cases, Bool-cases,
  subst,
}
use mathlib.Core.Option
use mathlib.Core.List.Memᴰ
use certificate_job_operator.Api.{Time, Certificate, CertificateJob, WorkflowNodeState}
use certificate_job_operator.Client.{Client, Session}
use certificate_job_operator.Workflow.Descendants.Reached.{List-cases}
use certificate_job_operator.Workflow.Nodes.{find_node, update_node}
use certificate_job_operator.Workflow.Nodes.Unique.{find_node-update}
use certificate_job_operator.Workflow.Runnable.{GraphKnown, IsRunnable, runnable_nodes_lem}
use certificate_job_operator.Run.Schedule.{
  start_node, job_name_of, Scheduled, launch, schedule_from, schedule_runnable_nodes,
}

module _ (c : Client) (cjob : CertificateJob) (cert : Certificate) (run_id : Str) where
  open c use {World}

  abbrev pub started : Str → Time → WorkflowNodeState → WorkflowNodeState
  started name t = start_node (job_name_of c cjob cert run_id name) t

  -- The node is as before, or it is one of the names and was started.
  abbrev IsStartedFrom :
      List Str → Time → Str → List WorkflowNodeState → List WorkflowNodeState → Type 0
  IsStartedFrom names t name nodes nodes' =
      (find_node name nodes' ≡ find_node name nodes)
      ⊎ (Memᴰ name names
          × (find_node name nodes' ≡ Option.map (started name t) (find_node name nodes)))

  -- A second start at the same time changes nothing.
  started_twice :
      (k name : Str) (t : Time) (found : Option WorkflowNodeState)
      → k ≡ name
      → Option.map (started name t) (Option.map (started k t) found)
        ≡ Option.map (started name t) found
  started_twice k name t none e = refl
  started_twice k name t (some n) e = refl

  one_round :
      (k : Str) (names : List Str) (t : Time) (name : Str) (nodes final : List WorkflowNodeState)
      → IsStartedFrom names t name (update_node k (started k t) nodes) final
      → IsStartedFrom (k ∷ names) t name nodes final
  one_round k names t name nodes final later =
      let read = find_node-update name k (started k t) nodes (λ n. refl) in
      elim (Bool-cases (k == name)) [
        | inr other ↦ ground (arith, (λ (m : Memᴰ name names). Memᴰ.tail {x = k} m))
        | inl same ↦
            let e = (==_iff k name).0 same in
            let here : Memᴰ name (k ∷ names) = Memᴰ.head (sym e) in
            let twice = started_twice k name t (find_node k nodes) e in
            inr (
              here,
              elim later [
                | inl kept ↦
                    ground (arith, ap (λ j. Option.map (started j t) (find_node j nodes)) e)
                | inr (_, again) ↦ ground (arith, ap (λ j. find_node j nodes) e)
              ],
            )
      ]

  schedule_from-starts :
      (names : List Str) (t : Time) (slots : ℕ) (nodes : List WorkflowNodeState) (s : Session World)
      (name : Str)
      → IsStartedFrom names t name nodes
          (schedule_from c cjob cert run_id names t slots nodes s).nodes
  unfolding schedule_from
  schedule_from-starts [] t slots nodes s name = inl refl
  schedule_from-starts (k ∷ names) t zero nodes s name = inl refl
  schedule_from-starts (k ∷ names) t (suc slots) nodes s name =
      elim (Option-cases ((launch c cjob cert run_id k s).1)) [
        | inr (e, broken) ↦ rw (broken, schedule_from) (inl refl)
        | inl fine ↦
            rw (fine, schedule_from)
              (one_round k names t name nodes
                (schedule_from c cjob cert run_id names t slots (update_node k (started k t) nodes)
                  (launch c cjob cert run_id k s).0).nodes
                (schedule_from-starts names t slots (update_node k (started k t) nodes)
                  (launch c cjob cert run_id k s).0 name))
      ]

  -- The first name of the list is started when there is a slot and no error.
  pub schedule_from-first :
      (name : Str) (names : List Str) (t : Time) (slots : ℕ) (nodes : List WorkflowNodeState)
      (s : Session World)
      → let sch = schedule_from c cjob cert run_id (name ∷ names) t (suc slots) nodes s in
        sch.error ≡ none
        → find_node name sch.nodes ≡ Option.map (started name t) (find_node name nodes)
  unfolding schedule_from
  schedule_from-first k names t slots nodes s h =
      elim (Option-cases ((launch c cjob cert run_id k s).1)) [
        | inr (e, broken) ↦ absurd (ground arith)
        | inl fine ↦
            let next = (launch c cjob cert run_id k s).0 in
            let nodes' = update_node k (started k t) nodes in
            let read = find_node-update k k (started k t) nodes (λ n. refl) in
            let self = (==_iff k k).1 refl in
            let twice = started_twice k k t (find_node k nodes) refl in
            rw (fine, schedule_from)
              (elim (schedule_from-starts names t slots nodes' next k) [
                | inl kept ↦ ground arith
                | inr (_, again) ↦ ground arith
              ])
      ]

  -- Where every dependency that the graph names has a node, `scheduleRunnableNodes` leaves each
  -- node as it is, or it starts it, with its Job's name and the time of the pass. It starts only
  -- nodes that were pending before the call, with every dependency succeeded, skipped or, under
  -- BestEffort, failed before the call: no node starts on the strength of another that starts in
  -- the same call.
  pub schedule_runnable_nodes-ordered :
      (deps : Map (List Str)) (t : Time) (slots : ℕ) (nodes : List WorkflowNodeState)
      (s : Session World) {sch : Scheduled c cjob cert run_id}
      → GraphKnown nodes deps
      → schedule_runnable_nodes c cjob cert run_id deps t slots nodes s ≡ some sch
      → (name : Str)
      → (find_node name sch.nodes ≡ find_node name nodes)
        ⊎ (IsRunnable cjob.spec.failure_policy nodes deps name
            × (find_node name sch.nodes ≡ Option.map (started name t) (find_node name nodes)))
  unfolding schedule_runnable_nodes
  schedule_runnable_nodes-ordered deps t slots nodes s {sch} known h name =
      let (names, runs, exact) = runnable_nodes_lem cjob.spec.failure_policy nodes deps known in
      let same : (schedule_from c cjob cert run_id (sort_strings names) t slots nodes s).nodes
          ≡ sch.nodes =
        ground arith in
      elim (schedule_from-starts (sort_strings names) t slots nodes s name) [
        | inl kept ↦ inl (ap (find_node name) (sym same) ∙ kept)
        | inr (mem, started_now) ↦ inr (
          (exact name).0 ((sort_strings-mem name names).0 mem),
          ap (find_node name) (sym same) ∙ started_now,
        )
      ]

  -- With a runnable node, a slot and no error, a runnable node is started.
  pub schedule_runnable_nodes-starts :
      (deps : Map (List Str)) (t : Time) (slots : ℕ) (nodes : List WorkflowNodeState)
      (s : Session World) (ready : Str) {sch : Scheduled c cjob cert run_id}
      → GraphKnown nodes deps
      → IsRunnable cjob.spec.failure_policy nodes deps ready
      → schedule_runnable_nodes c cjob cert run_id deps t (suc slots) nodes s ≡ some sch
      → sch.error ≡ none
      → (name : Str) × IsRunnable cjob.spec.failure_policy nodes deps name
        × (find_node name sch.nodes ≡ Option.map (started name t) (find_node name nodes))
  unfolding schedule_runnable_nodes
  schedule_runnable_nodes-starts deps t slots nodes s ready {sch} known is_ready h fine =
      let (names, runs, exact) = runnable_nodes_lem cjob.spec.failure_policy nodes deps known in
      let same : schedule_from c cjob cert run_id (sort_strings names) t (suc slots) nodes s ≡ sch =
        ground arith in
      elim (List-cases (sort_strings names)) [
        | inl empty ↦ absurd (
            Memᴰ.not-nil (
              subst (Memᴰ ready) empty
                ((sort_strings-mem ready names).1 ((exact ready).1 is_ready))))
        | inr (name, rest, e) ↦
            let ran : schedule_from c cjob cert run_id (name ∷ rest) t (suc slots) nodes s ≡ sch =
              ap (λ l. schedule_from c cjob cert run_id l t (suc slots) nodes s) (sym e) ∙ same in
            let mem : Memᴰ name (sort_strings names) = subst (Memᴰ name) (sym e) (Memᴰ.head refl) in
            (
              name,
              (exact name).0 ((sort_strings-mem name names).0 mem),
              ap (λ (x : Scheduled c cjob cert run_id). find_node name x.nodes) (sym ran)
                  ∙ schedule_from-first name rest t slots nodes s
                      (ap (λ (x : Scheduled c cjob cert run_id). x.error) ran ∙ fine),
            )
      ]
