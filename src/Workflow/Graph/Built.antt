-- ===== src/Workflow/Graph/Built.antt =====
-- What `buildWorkflowGraph` accepts, and what its maps say.
use certificate_job_operator.Prelude.{
  true, none, List, [], ◌∷◌, ◌++◌, Str, keys, ◌==◌, contains, Distinct, ◌≡◌, refl, sym, ap, ◌∙◌,
  ◌≢◌, ◌↔◌, ◌⊎◌, inl, inr, ⊎_elim, All, Memᴰ, arith, Option-cases, Bool-cases, lookup, subst,
}
use mathlib.Core.Path.{fun_ext}
use mathlib.Core.List.Memᴰ
use certificate_job_operator.Api.{CertificateWorkflowEdge, CertificateJobSpec}
use certificate_job_operator.Webhook.Admission.{IsAcceptedTemplate}
use certificate_job_operator.Workflow.Runnable.{neighbours}
use certificate_job_operator.Templates.{WorkflowError}
use certificate_job_operator.Workflow.Descendants.Reached.{List-cases}
use certificate_job_operator.Workflow.Acyclic.{validate_acyclic}
use certificate_job_operator.Workflow.Acyclic.Loop.{Grounded}
use certificate_job_operator.Workflow.Acyclic.Correct.{IsClosed, validate_acyclic_iff}
use certificate_job_operator.Workflow.Graph.{
  Graph, BuildResult, built, refused, add_jobs, add_edges, no_graph, build_workflow_graph,
}
use certificate_job_operator.Workflow.Graph.Fill.{
  job_names_of, fill, link, IsValidEdge, add_jobs_sound, add_jobs_complete, add_edges_sound,
  add_edges_complete, fresh_iff, sources, targets, fill-names, fill-keys, fill-Distinct,
  fill-no_edges, link-Distinct, link-keys, link-reverse_keys, link-neighbours,
}

-- A workflow that can be run, whatever the order of the checks.
pub record IsWorkflow (spec : CertificateJobSpec) : Type 0 where
  pub some_jobs : spec.jobs ≢ []
  pub jobs : All IsAcceptedTemplate spec.jobs
  pub distinct : Distinct (job_names_of spec.jobs)
  pub edges : All (IsValidEdge (job_names_of spec.jobs)) spec.workflow.edges
  pub acyclic :
      (n : Str)
      → contains (job_names_of spec.jobs) n ≡ true
      → Grounded (sources spec.workflow.edges) n

-- The maps hold the edges of the workflow, in both directions, with every job as a key.
pub record IsGraphOf (spec : CertificateJobSpec) (g : Graph) : Type 0 where
  pub nodes : (n : Str) → contains (keys g.deps) n ≡ contains (job_names_of spec.jobs) n
  pub reverse_nodes : (n : Str) → contains (keys g.reverse) n ≡ contains (job_names_of spec.jobs) n
  pub deps : (n : Str) → neighbours g.deps n ≡ sources spec.workflow.edges n
  pub reverse : (n : Str) → neighbours g.reverse n ≡ targets spec.workflow.edges n

valid_edges :
    (xs ys : List Str) (edges : List CertificateWorkflowEdge)
    → ((s : Str) → contains xs s ≡ contains ys s)
    → All (IsValidEdge xs) edges
    → All (IsValidEdge ys) edges
valid_edges xs ys [] same h = tt
valid_edges xs ys (edge ∷ edges) same (h, hs) =
    (ground (arith, same edge.from, same edge.to), valid_edges xs ys edges same hs)

pub sources-known :
    (names : List Str) (edges : List CertificateWorkflowEdge) (n dep : Str)
    → All (IsValidEdge names) edges
    → Memᴰ dep (sources edges n)
    → contains names dep ≡ true
sources-known names [] n dep h m = absurd (Memᴰ.not-nil m)
sources-known names (edge ∷ edges) n dep (h, hs) m =
    let rest = sources-known names edges n dep hs in
    elim (Bool-cases (edge.to == n)) [
      | inl here ↦ ⊎_elim (λ e. rw e h.0) rest (Memᴰ.cases_cons (subst (Memᴰ dep) (rw here) m))
      | inr other ↦ rest (subst (Memᴰ dep) (rw other) m)
    ]

pub targets-known :
    (names : List Str) (edges : List CertificateWorkflowEdge) (n dep : Str)
    → All (IsValidEdge names) edges
    → Memᴰ dep (targets edges n)
    → contains names dep ≡ true
targets-known names [] n dep h m = absurd (Memᴰ.not-nil m)
targets-known names (edge ∷ edges) n dep (h, hs) m =
    let rest = targets-known names edges n dep hs in
    elim (Bool-cases (edge.from == n)) [
      | inl here ↦ ⊎_elim (λ e. rw e h.1) rest (Memᴰ.cases_cons (subst (Memᴰ dep) (rw here) m))
      | inr other ↦ rest (subst (Memᴰ dep) (rw other) m)
    ]

module _ (spec : CertificateJobSpec) where
  abbrev names : List Str
  names = job_names_of spec.jobs

  abbrev edges_of : List CertificateWorkflowEdge
  edges_of = spec.workflow.edges

  abbrev filled : Graph
  filled = fill spec.jobs no_graph

  abbrev linked : Graph
  linked = link edges_of filled

  filled-names : (s : Str) → contains filled.job_names s ≡ contains names s
  filled-names s = unfold contains in ground (arith, fill-names spec.jobs no_graph s)

  filled-keys : (s : Str) → contains (keys filled.deps) s ≡ contains names s
  filled-keys s = unfold contains in ground (arith, fill-keys spec.jobs no_graph s)

  filled-reverse_keys : (s : Str) → contains (keys filled.reverse) s ≡ contains names s
  filled-reverse_keys s = unfold contains in ground (arith, fill-keys spec.jobs no_graph s)

  linked-Distinct : Distinct (keys linked.deps)
  linked-Distinct = link-Distinct edges_of filled (fill-Distinct spec.jobs no_graph tt)

  linked-IsGraphOf : All (IsValidEdge filled.job_names) edges_of → IsGraphOf spec linked
  unfolding neighbours lookup
  linked-IsGraphOf valid =
      let empty = λ (n : Str). fill-no_edges spec.jobs no_graph n refl refl in
      record {
        nodes = λ n.
            link-keys edges_of filled n (λ s m. filled-keys s ∙ sym (filled-names s) ∙ m) valid
            ∙ filled-keys n;
        reverse_nodes = λ n.
            link-reverse_keys edges_of filled n
              (λ s m. filled-reverse_keys s ∙ sym (filled-names s) ∙ m) valid
            ∙ filled-reverse_keys n;
        deps = λ n.
            (link-neighbours edges_of filled n).0 ∙ ap (λ l. l ++ sources edges_of n) (empty n).0;
        reverse = λ n.
            (link-neighbours edges_of filled n).1 ∙ ap (λ l. l ++ targets edges_of n) (empty n).1;
      }

  linked-IsClosed : All (IsValidEdge names) edges_of → IsGraphOf spec linked → IsClosed linked.deps
  linked-IsClosed valid g n dep m =
      g.nodes dep ∙ sources-known names edges_of n dep valid (subst (Memᴰ dep) (g.deps n) m)

  linked-accepted :
      All (IsValidEdge filled.job_names) edges_of
      → (validate_acyclic linked.deps ≡ none)
        ↔ ((n : Str) → contains names n ≡ true → Grounded (sources edges_of) n)
  linked-accepted valid =
      let g = linked-IsGraphOf valid in
      let valid' = valid_edges filled.job_names names edges_of filled-names valid in
      let (sound, complete) =
        validate_acyclic_iff linked.deps linked-Distinct (linked-IsClosed valid' g) in
      let same : neighbours linked.deps ≡ sources edges_of = fun_ext g.deps in
      (
        λ h n key. subst (λ next. Grounded next n) same (sound h n (g.nodes n ∙ key)),
        λ h.
            complete
              (λ n key. subst (λ next. Grounded next n) (sym same) (h n (sym (g.nodes n) ∙ key))),
      )

BuildResult-cases :
    (r : BuildResult) → ((g : Graph) × (r ≡ built g)) ⊎ ((e : WorkflowError) × (r ≡ refused e))
BuildResult-cases (built g) = inl (g, refl)
BuildResult-cases (refused e) = inr (e, refl)

-- The stages that an accepted workflow went through.
build_stages :
    (spec : CertificateJobSpec) {g : Graph}
    → build_workflow_graph spec ≡ built g
    → (spec.jobs ≢ [])
      × ((g1 : Graph) × (add_jobs spec.jobs no_graph ≡ built g1)
          × (add_edges spec.workflow.edges g1 ≡ built g)
          × (validate_acyclic g.deps ≡ none))
unfolding build_workflow_graph
build_stages spec {g} h =
    let some_jobs : spec.jobs ≢ [] = λ e. ground arith in
    elim (BuildResult-cases (add_jobs spec.jobs no_graph)) [
      | inr (e, r) ↦ ground arith
      | inl (g1, a) ↦ elim (BuildResult-cases (add_edges spec.workflow.edges g1)) [
        | inr (e, r) ↦ ground arith
        | inl (g2, b) ↦ elim (Option-cases (validate_acyclic g2.deps)) [
          | inr (e, c) ↦ ground arith
          | inl c ↦ (some_jobs, (g1, a, ground arith, ground arith))
        ]
      ]
    ]

-- When `buildWorkflowGraph` returns no error, the workflow is well formed (it has jobs, with
-- distinct names and accepted templates, every edge joins two different jobs, and no chain of
-- dependencies goes on for ever), and the two maps it returns, from a job to its dependencies and to
-- its dependents, hold exactly the edges, each with the jobs as its keys and no other.
pub build_workflow_graph_sound :
    (spec : CertificateJobSpec) {g : Graph}
    → build_workflow_graph spec ≡ built g
    → IsWorkflow spec × IsGraphOf spec g
build_workflow_graph_sound spec {g} h =
    let (some_jobs, stages) = build_stages spec h in
    let (g1, adds, links, acyclic) = stages in
    let (fresh, is_filled) = add_jobs_sound spec.jobs no_graph adds in
    let (ok, distinct, _) = (fresh_iff spec.jobs []).0 fresh in
    let links' = subst (λ x. add_edges spec.workflow.edges x ≡ built g) is_filled links in
    let (valid, is_linked) = add_edges_sound spec.workflow.edges (filled spec) links' in
    (
      record {
        some_jobs = some_jobs;
        jobs = ok;
        distinct = distinct;
        edges = valid_edges _ (names spec) spec.workflow.edges (filled-names spec) valid;
        acyclic =
            (linked-accepted spec valid).0
              (subst (λ x. validate_acyclic x.deps ≡ none) is_linked acyclic);
      },
      subst (IsGraphOf spec) (sym is_linked) (linked-IsGraphOf spec valid),
    )

-- Every well-formed workflow is accepted: `buildWorkflowGraph` returns a graph for it.
pub build_workflow_graph_complete :
    (spec : CertificateJobSpec)
    → IsWorkflow spec
    → (g : Graph) × (build_workflow_graph spec ≡ built g)
unfolding build_workflow_graph
build_workflow_graph_complete spec w =
    let fresh =
      (fresh_iff spec.jobs []).1 (w.jobs, w.distinct, λ s m. unfold contains in absurd (cc)) in
    let valid =
      valid_edges (names spec) (filled spec).job_names spec.workflow.edges
        (λ s. sym (filled-names spec s)) w.edges in
    let adds = add_jobs_complete spec.jobs no_graph fresh in
    let links = add_edges_complete spec.workflow.edges (filled spec) valid in
    let ends = (linked-accepted spec valid).1 w.acyclic in
    (
      linked spec,
      elim (List-cases spec.jobs) [
        | inl empty ↦ absurd (w.some_jobs empty)
        | inr (job, rest, e) ↦ ground arith
      ],
    )
