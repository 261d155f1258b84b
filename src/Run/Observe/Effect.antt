-- ===== src/Run/Observe/Effect.antt =====
-- What an observation of the Jobs does to the nodes, with an API server that answers from one
-- snapshot during the pass.
use certificate_job_operator.Prelude.{
  Bool, true, false, none, List, [], ◌∷◌, map, Str, str, ◌==◌, ==_iff, length, keep, All, ◌≡◌, refl,
  ap, ◌∙◌, ◌≢◌, ◌⊎◌, inl, inr, ⊎_elim, Memᴰ, arith, if◌then◌else◌, Bool-cases, subst,
}
use mathlib.Core.List.Memᴰ
use certificate_job_operator.Prelude.Int.{pos, ltb_ℤ}
use certificate_job_operator.Api.{Time, Job, WorkflowNodeState, running}
use certificate_job_operator.Client.{
  Response-cases, Client, Session, not_found, api_error, Response, ok, failed_with,
}
use certificate_job_operator.Workflow.Nodes.Unique.{node_names}
use certificate_job_operator.Run.Observe.{
  Verdict, end_node, disappeared, judge, is_job_complete, is_job_failed, Observation, observe_nodes,
  observe_workflow_node_jobs,
}

-- What a pass makes of one node, given the answer for its Job.
abbrev pub verdict_on : Time → WorkflowNodeState → Response Job → Verdict
verdict_on t n (ok job) = judge t n job
verdict_on t n (failed_with e) = disappeared t n

abbrev pub verdict_of : Time → (Str → Response Job) → WorkflowNodeState → Verdict
verdict_of t answers n =
    if n.job_name == []
    then record { node = n; counts = false; fails = false }
    else verdict_on t n (answers n.job_name)

-- No request for the Job of the node fails for another reason than a missing Job.
abbrev pub IsAnswered : (Str → Response Job) → WorkflowNodeState → Type 0
IsAnswered answers n = n.job_name ≢ [] → (m : Str) → answers n.job_name ≢ failed_with (api_error m)

answer-cases :
    (r : Response Job)
    → ((m : Str) → r ≢ failed_with (api_error m))
    → (r ≡ failed_with not_found) ⊎ ((job : Job) × (r ≡ ok job))
answer-cases (ok job) h = inr (job, refl)
answer-cases (failed_with not_found) h = inl refl
answer-cases (failed_with (api_error m)) h = absurd (h m refl)

judge-name : (t : Time) (n : WorkflowNodeState) (job : Job) → (judge t n job).node.name ≡ n.name
unfolding judge
judge-name t n job = ground arith

-- An observation keeps the names of the nodes, also where it ends by an error.
observe_nodes-names :
    (c : Client) (namespace : Str) (t : Time) (ns : List WorkflowNodeState) (s : Session c.World)
    → node_names (observe_nodes c namespace t ns s).nodes ≡ node_names ns
unfolding observe_nodes
observe_nodes-names c namespace t [] s = refl
observe_nodes-names c namespace t (n ∷ ns) s =
    let w' = (c.get_job s.world namespace n.job_name).0 in
    let here = observe_nodes-names c namespace t ns s in
    let later = observe_nodes-names c namespace t ns (record s { world = w' }) in
    elim (Response-cases ((c.get_job s.world namespace n.job_name).1)) [
      | inl (job, found) ↦ ground (arith, judge-name t n job)
      | inr (inl gone) ↦ ground arith
      | inr (inr (m, broken)) ↦ ground arith
    ]

pub observe-names :
    (c : Client) (namespace : Str) (t : Time) (ns : List WorkflowNodeState) (s : Session c.World)
    → node_names (observe_workflow_node_jobs c namespace t ns s).nodes ≡ node_names ns
unfolding observe_workflow_node_jobs
observe-names c namespace t ns s = ground (arith, observe_nodes-names c namespace t ns s)

module _ (c : Client) (namespace : Str) (t : Time) (answers : Str → Response Job) where
  open c use {World, get_job}

  abbrev pub IsSnapshot : Type 0
  IsSnapshot = (w : World) (name : Str) → (get_job w namespace name).1 ≡ answers name

  -- Observing is a map over the nodes, with its counters.
  pub record IsObserved (ns : List WorkflowNodeState) (o : Observation c) : Type 0 where
    pub nodes : o.nodes ≡ map (λ n. (verdict_of t answers n).node) ns
    pub active : o.active ≡ length (keep (λ n. (verdict_of t answers n).counts) ns)
    pub failed_nodes : o.failed_nodes ≡ node_names (keep (λ n. (verdict_of t answers n).fails) ns)
    pub error : o.error ≡ none

  verdict-name : (n : WorkflowNodeState) → (verdict_of t answers n).node.name ≡ n.name
  verdict-name n = name_on (answers n.job_name)
    where
      name_on :
          (r : Response Job)
          → (if n.job_name == []
              then record { node = n; counts = false; fails = false }
              else verdict_on t n r).node.name
            ≡ n.name
      name_on (ok job) = ground (arith, judge-name t n job)
      name_on (failed_with e) = ground arith

  observe_nodes-IsObserved :
      IsSnapshot
      → (ns : List WorkflowNodeState) (s : Session World) → All (IsAnswered answers) ns
      → IsObserved ns (observe_nodes c namespace t ns s)
  unfolding observe_nodes
  observe_nodes-IsObserved snap [] s h = record {
    nodes = refl;
    active = refl;
    failed_nodes = refl;
    error = refl;
  }
  observe_nodes-IsObserved snap (n ∷ ns) s h =
      let w' = (get_job s.world namespace n.job_name).0 in
      let here = observe_nodes-IsObserved snap ns s h.1 in
      let later = observe_nodes-IsObserved snap ns (record s { world = w' }) h.1 in
      let named = verdict-name n in
      let asked = snap s.world n.job_name in
      elim (Bool-cases (n.job_name == [])) [
        | inl unnamed ↦ ground arith
        | inr has_job ↦
            elim (answer-cases (answers n.job_name)
              (h.0 (λ e. ground (arith, ==_iff n.job_name [])))) [
                | inl gone ↦ ground arith
                | inr (job, found) ↦ ground (arith, judge-name t n job)
              ]
      ]

  pub observe-IsObserved :
      IsSnapshot
      → (ns : List WorkflowNodeState) (s : Session World) → All (IsAnswered answers) ns
      → IsObserved ns (observe_workflow_node_jobs c namespace t ns s)
  unfolding observe_workflow_node_jobs
  observe-IsObserved snap ns s h = let o = observe_nodes-IsObserved snap ns s h in ground arith

keep-mem {ℓ} :
    {A : Type ℓ} (p : A → Bool) (xs : List A) (a : A) → Memᴰ a xs → p a ≡ true → Memᴰ a (keep p xs)
keep-mem p [] a m h = absurd (Memᴰ.not-nil m)
keep-mem p (x ∷ xs) a m h = elim (Bool-cases (p x)) [
  | inl kept ↦
      rw kept (⊎_elim Memᴰ.head (λ rest. Memᴰ.tail (keep-mem p xs a rest h)) (Memᴰ.cases_cons m))
  | inr dropped ↦ rw dropped (
      ⊎_elim (λ e. absurd (absurd_eq (p x) (subst (λ y. p y ≡ true) e h) dropped))
        (λ rest. keep-mem p xs a rest h) (Memᴰ.cases_cons m))
]
  where
    absurd_eq : (b : Bool) → b ≡ true → b ≡ false → ⊥
    absurd_eq b h k = cc

-- A node whose Job is not found counts as failed.
pub missing_job_fails_node :
    (c : Client) (namespace : Str) (t : Time) (answers : Str → Response Job)
    (ns : List WorkflowNodeState) (s : Session c.World) (n : WorkflowNodeState)
    → IsSnapshot c namespace t answers
    → All (IsAnswered answers) ns
    → Memᴰ n ns
    → n.job_name ≢ []
    → answers n.job_name ≡ failed_with not_found
    → let o = observe_workflow_node_jobs c namespace t ns s in
      Memᴰ (end_node n (str "job disappeared") t) o.nodes × Memᴰ n.name o.failed_nodes
missing_job_fails_node c namespace t answers ns s n snap answered m has_job gone =
    let o = observe-IsObserved c namespace t answers snap ns s answered in
    let verdict : verdict_of t answers n ≡ disappeared t n = ground (arith, ==_iff n.job_name []) in
    let listed =
      keep-mem (λ (x : WorkflowNodeState). (verdict_of t answers x).fails) ns n m
        (ap (λ (v : Verdict). v.fails) verdict) in
    (
      rw o.nodes (
          subst (λ (v : Verdict). Memᴰ v.node (map (λ x. (verdict_of t answers x).node) ns)) verdict
            (Memᴰ.map (λ x. (verdict_of t answers x).node) m)),
      rw o.failed_nodes (Memᴰ.map (λ (x : WorkflowNodeState). x.name) listed),
    )

-- A node that was started, whose Job is there but neither finished nor counted as active yet.
abbrev pub IsIdle : (Str → Response Job) → WorkflowNodeState → Type 0
IsIdle answers n =
    (job : Job) × (n.phase ≡ running)
    × (n.job_name ≢ [])
    × (answers n.job_name ≡ ok job)
    × (is_job_complete job ≡ false)
    × (is_job_failed job ≡ false)
    × (ltb_ℤ (pos 0) job.status.active ≡ false)

idle_verdict :
    (t : Time) (answers : Str → Response Job) (n : WorkflowNodeState)
    → IsIdle answers n
    → verdict_of t answers n ≡ record { node = n; counts = false; fails = false }
unfolding judge
idle_verdict t answers n (job, runs, has_job, found, open_job, no_failure, inactive) =
    ground (arith, ==_iff n.job_name [])

-- A node without a Job's name is passed over.
abbrev pub IsPassed : (Str → Response Job) → WorkflowNodeState → Type 0
IsPassed answers n = (n.job_name ≡ []) ⊎ IsIdle answers n

passed_verdict :
    (t : Time) (answers : Str → Response Job) (n : WorkflowNodeState)
    → IsPassed answers n
    → verdict_of t answers n ≡ record { node = n; counts = false; fails = false }
passed_verdict t answers n (inl unnamed) = ground (arith, ==_iff n.job_name [])
passed_verdict t answers n (inr idle) = idle_verdict t answers n idle

passed_counts :
    (t : Time) (answers : Str → Response Job) (ns : List WorkflowNodeState)
    → All (IsPassed answers) ns
    → (map (λ n. (verdict_of t answers n).node) ns ≡ ns)
      × (keep (λ n. (verdict_of t answers n).counts) ns ≡ [])
      × (keep (λ n. (verdict_of t answers n).fails) ns ≡ [])
passed_counts t answers [] h = (refl, refl, refl)
passed_counts t answers (n ∷ ns) (h, hs) =
    ground (arith, passed_verdict t answers n h, passed_counts t answers ns hs)

passed-IsAnswered :
    (answers : Str → Response Job) (ns : List WorkflowNodeState)
    → All (IsPassed answers) ns
    → All (IsAnswered answers) ns
passed-IsAnswered answers [] h = tt
passed-IsAnswered answers (n ∷ ns) (inl unnamed, hs) =
    (λ has_job m e. has_job unnamed, passed-IsAnswered answers ns hs)
passed-IsAnswered answers (n ∷ ns) (inr (job, runs, has_job, found, a, b, d), hs) =
    (λ _ m e. ground arith, passed-IsAnswered answers ns hs)

-- Such nodes take none of the slots of the parallelism, however many of them are running.
pub idle_nodes_not_counted :
    (c : Client) (namespace : Str) (t : Time) (answers : Str → Response Job)
    (ns : List WorkflowNodeState) (s : Session c.World)
    → IsSnapshot c namespace t answers
    → All (IsPassed answers) ns
    → let o = observe_workflow_node_jobs c namespace t ns s in
      (o.nodes ≡ ns) × (o.active ≡ 0) × (o.failed_nodes ≡ []) × (o.error ≡ none)
idle_nodes_not_counted c namespace t answers ns s snap passed =
    let o =
      observe-IsObserved c namespace t answers snap ns s (passed-IsAnswered answers ns passed) in
    let (same, none_active, none_failed) = passed_counts t answers ns passed in
    (
      o.nodes ∙ same,
      o.active ∙ ap (λ l. length l) none_active,
      o.failed_nodes ∙ ap node_names none_failed,
      o.error,
    )
