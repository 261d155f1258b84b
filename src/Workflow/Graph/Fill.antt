-- ===== src/Workflow/Graph/Fill.antt =====
-- The two loops of `buildWorkflowGraph`: when they pass, and what they leave in the maps.
use certificate_job_operator.Prelude.{
  true, false, ◌||◌, List, [], ◌∷◌, ◌++◌, map, Str, Map, keys, ◌==◌, ==_iff, ==_refl, insert,
  lookup-insert, contains, Distinct, ◌≡◌, refl, sym, ◌∙◌, ◌≢◌, ◌↔◌, All, arith, if◌then◌else◌,
  Bool-cases,
}
use mathlib.Core.List.{append-nil, append_assoc}
use certificate_job_operator.Api.{CertificateJobTemplate, CertificateWorkflowEdge}
use certificate_job_operator.Templates.{check_template_iff}
use certificate_job_operator.Webhook.Admission.{IsAcceptedTemplate}
use certificate_job_operator.Workflow.Runnable.{neighbours}
use certificate_job_operator.Workflow.Acyclic.{append_to}
use certificate_job_operator.Workflow.Acyclic.Setup.{
  neighbours-append_to, contains-insert, insert-Distinct,
}
use certificate_job_operator.Workflow.Graph.{Graph, built, add_job, add_jobs, add_edge, add_edges}

abbrev pub job_names_of : List CertificateJobTemplate → List Str
job_names_of = map (λ job. job.name)

-- The graph after the loop over the jobs, and after the one over the edges, if they pass.
pub fill : List CertificateJobTemplate → Graph → Graph
fill [] g = g
fill (job ∷ jobs) g = fill jobs (add_job job g)

pub link : List CertificateWorkflowEdge → Graph → Graph
link [] g = g
link (edge ∷ edges) g = link edges (add_edge edge g)

-- Accepted templates whose names are new.
abbrev pub AreFresh : List CertificateJobTemplate → List Str → Type 0
AreFresh [] seen = Unit
AreFresh (job ∷ jobs) seen =
    IsAcceptedTemplate job × (contains seen job.name ≡ false) × AreFresh jobs (job.name ∷ seen)

abbrev pub IsValidEdge : List Str → CertificateWorkflowEdge → Type 0
IsValidEdge names edge =
    (contains names edge.from ≡ true) × (contains names edge.to ≡ true) × (edge.from ≢ edge.to)

pub add_jobs_sound :
    (jobs : List CertificateJobTemplate) (g : Graph) {g' : Graph}
    → add_jobs jobs g ≡ built g'
    → AreFresh jobs g.job_names × (g' ≡ fill jobs g)
unfolding add_jobs fill
add_jobs_sound [] g h = ground arith
add_jobs_sound (job ∷ jobs) g {g'} h = ground (
  arith,
  ==_iff job.name [],
  check_template_iff job,
  add_jobs_sound jobs (add_job job g) {g' = g'},
)

pub add_jobs_complete :
    (jobs : List CertificateJobTemplate) (g : Graph)
    → AreFresh jobs g.job_names
    → add_jobs jobs g ≡ built (fill jobs g)
unfolding add_jobs fill
add_jobs_complete [] g h = refl
add_jobs_complete (job ∷ jobs) g h =
    ground
      (arith, ==_iff job.name [], check_template_iff job, add_jobs_complete jobs (add_job job g))

pub add_edges_sound :
    (edges : List CertificateWorkflowEdge) (g : Graph) {g' : Graph}
    → add_edges edges g ≡ built g'
    → All (IsValidEdge g.job_names) edges × (g' ≡ link edges g)
unfolding add_edges link
add_edges_sound [] g h = ground arith
add_edges_sound (edge ∷ edges) g {g'} h =
    ground (arith, ==_iff edge.from edge.to, add_edges_sound edges (add_edge edge g) {g' = g'})

pub add_edges_complete :
    (edges : List CertificateWorkflowEdge) (g : Graph)
    → All (IsValidEdge g.job_names) edges
    → add_edges edges g ≡ built (link edges g)
unfolding add_edges link
add_edges_complete [] g h = refl
add_edges_complete (edge ∷ edges) g h =
    ground (arith, ==_iff edge.from edge.to, add_edges_complete edges (add_edge edge g))

-- The new names are new among themselves and against those seen before.
pub fresh_iff :
    (jobs : List CertificateJobTemplate) (seen : List Str)
    → AreFresh jobs seen ↔ (
        All IsAcceptedTemplate jobs
        × Distinct (job_names_of jobs)
        × ((s : Str) → contains seen s ≡ true → contains (job_names_of jobs) s ≡ false))
unfolding contains
fresh_iff [] seen = (λ h. (tt, tt, λ s m. refl), λ h. tt)
fresh_iff (job ∷ jobs) seen =
    let (apart, join) = fresh_iff jobs (job.name ∷ seen) in
    (
      λ h.
          let (ok, distinct, away) = apart h.2 in
          (
            (h.0, ok),
            (away job.name (ground (arith, ==_refl job.name)), distinct),
            λ s m. ground (arith, ==_iff job.name s, h.1, away s),
          ),
      λ h. (
        h.0.0,
        ground (arith, Bool-cases (contains seen job.name), h.2 job.name, ==_refl job.name),
        join (h.0.1, h.1.1, λ s m. ground (arith, ==_iff job.name s, h.2 s, h.1.0)),
      ),
    )

-- The dependencies and the dependents of a node, read off the list of edges.
abbrev pub sources : List CertificateWorkflowEdge → Str → List Str
sources [] n = []
sources (edge ∷ edges) n = if edge.to == n then edge.from ∷ sources edges n else sources edges n

abbrev pub targets : List CertificateWorkflowEdge → Str → List Str
targets [] n = []
targets (edge ∷ edges) n = if edge.from == n then edge.to ∷ targets edges n else targets edges n

neighbours-insert :
    (m : Map (List Str)) (k n : Str) (v : List Str)
    → neighbours (insert k v m) n ≡ (if k == n then v else neighbours m n)
unfolding neighbours
neighbours-insert m k n v = ground (arith, lookup-insert k n v m)

pub fill-names :
    (jobs : List CertificateJobTemplate) (g : Graph) (s : Str)
    → contains (fill jobs g).job_names s
      ≡ (contains (job_names_of jobs) s || contains g.job_names s)
unfolding fill contains
fill-names [] g s = refl
fill-names (job ∷ jobs) g s = ground (arith, fill-names jobs (add_job job g) s)

pub fill-keys :
    (jobs : List CertificateJobTemplate) (g : Graph) (s : Str)
    → (contains (keys (fill jobs g).deps) s
        ≡ (contains (job_names_of jobs) s || contains (keys g.deps) s))
      × (contains (keys (fill jobs g).reverse) s
          ≡ (contains (job_names_of jobs) s || contains (keys g.reverse) s))
unfolding fill contains
fill-keys [] g s = (refl, refl)
fill-keys (job ∷ jobs) g s = ground (
  arith,
  fill-keys jobs (add_job job g) s,
  contains-insert {V = List Str} job.name s [] g.deps,
  contains-insert {V = List Str} job.name s [] g.reverse,
)

pub fill-Distinct :
    (jobs : List CertificateJobTemplate) (g : Graph)
    → Distinct (keys g.deps)
    → Distinct (keys (fill jobs g).deps)
unfolding fill
fill-Distinct [] g d = d
fill-Distinct (job ∷ jobs) g d =
    fill-Distinct jobs (add_job job g) (insert-Distinct {V = List Str} job.name [] g.deps d)

pub fill-no_edges :
    (jobs : List CertificateJobTemplate) (g : Graph) (n : Str)
    → neighbours g.deps n ≡ []
    → neighbours g.reverse n ≡ []
    → (neighbours (fill jobs g).deps n ≡ []) × (neighbours (fill jobs g).reverse n ≡ [])
unfolding fill
fill-no_edges [] g n h k = (h, k)
fill-no_edges (job ∷ jobs) g n h k =
    fill-no_edges jobs (add_job job g) n (ground (arith, neighbours-insert g.deps job.name n []))
      (ground (arith, neighbours-insert g.reverse job.name n []))

pub link-names :
    (edges : List CertificateWorkflowEdge) (g : Graph) → (link edges g).job_names ≡ g.job_names
unfolding link
link-names [] g = refl
link-names (edge ∷ edges) g = link-names edges (add_edge edge g)

pub link-Distinct :
    (edges : List CertificateWorkflowEdge) (g : Graph)
    → Distinct (keys g.deps)
    → Distinct (keys (link edges g).deps)
unfolding link append_to
link-Distinct [] g d = d
link-Distinct (edge ∷ edges) g d =
    link-Distinct edges (add_edge edge g)
      (insert-Distinct edge.to (neighbours g.deps edge.to ++ edge.from ∷ []) g.deps d)

-- An edge between nodes adds no key.
pub link-keys :
    (edges : List CertificateWorkflowEdge) (g : Graph) (s : Str)
    → ((n : Str) → contains g.job_names n ≡ true → contains (keys g.deps) n ≡ true)
    → All (IsValidEdge g.job_names) edges
    → contains (keys (link edges g).deps) s ≡ contains (keys g.deps) s
unfolding link append_to
link-keys [] g s known ok = refl
link-keys (edge ∷ edges) g s known (valid, ok) =
    let value = neighbours g.deps edge.to ++ edge.from ∷ [] in
    let grown = λ (n : Str). contains-insert edge.to n value g.deps in
    let there = known edge.to valid.1 in
    link-keys edges (add_edge edge g) s (λ n m. ground (arith, grown n, known n m)) ok
    ∙ ground (arith, grown s, ==_iff edge.to s)

pub link-reverse_keys :
    (edges : List CertificateWorkflowEdge) (g : Graph) (s : Str)
    → ((n : Str) → contains g.job_names n ≡ true → contains (keys g.reverse) n ≡ true)
    → All (IsValidEdge g.job_names) edges
    → contains (keys (link edges g).reverse) s ≡ contains (keys g.reverse) s
unfolding link append_to
link-reverse_keys [] g s known ok = refl
link-reverse_keys (edge ∷ edges) g s known (valid, ok) =
    let value = neighbours g.reverse edge.from ++ edge.to ∷ [] in
    let grown = λ (n : Str). contains-insert edge.from n value g.reverse in
    let there = known edge.from valid.0 in
    link-reverse_keys edges (add_edge edge g) s (λ n m. ground (arith, grown n, known n m)) ok
    ∙ ground (arith, grown s, ==_iff edge.from s)

pub link-neighbours :
    (edges : List CertificateWorkflowEdge) (g : Graph) (n : Str)
    → (neighbours (link edges g).deps n ≡ neighbours g.deps n ++ sources edges n)
      × (neighbours (link edges g).reverse n ≡ neighbours g.reverse n ++ targets edges n)
unfolding link
link-neighbours [] g n = (sym (append-nil _), sym (append-nil _))
link-neighbours (edge ∷ edges) g n = ground (
  arith,
  ==_iff edge.to n,
  ==_iff edge.from n,
  neighbours-append_to g.deps edge.to n edge.from,
  neighbours-append_to g.reverse edge.from n edge.to,
  append_assoc (neighbours g.deps n) (edge.from ∷ []) (sources edges n),
  append_assoc (neighbours g.reverse n) (edge.to ∷ []) (targets edges n),
  link-neighbours edges (add_edge edge g) n,
)
