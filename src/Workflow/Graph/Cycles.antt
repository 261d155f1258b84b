-- ===== src/Workflow/Graph/Cycles.antt =====
-- A workflow that `buildWorkflowGraph` accepts has no cycle of edges.
use certificate_job_operator.Prelude.{
  true, List, Str, ◌≡◌, refl, sym, ◌⊎◌, inl, inr, ⊎_elim, Memᴰ, contains, subst,
}
use certificate_job_operator.Api.{CertificateJobSpec}
use certificate_job_operator.Workflow.Acyclic.Loop.{Grounded, rests_on}
use certificate_job_operator.Workflow.Graph.{Graph, built, build_workflow_graph}
use certificate_job_operator.Workflow.Graph.Fill.{sources, job_names_of}
use certificate_job_operator.Workflow.Graph.Built.{build_workflow_graph_sound}

-- `n` depends on `m` through one or more edges.
pub data Depends (next : Str → List Str) (n : Str) : Str → Type 0 where
  direct : {m : Str} → Memᴰ m (next n) → Depends next n m
  through : {m d : Str} → Depends next n m → Memᴰ d (next m) → Depends next n d

-- The first edge of a chain.
first_edge :
    (next : Str → List Str) {n m : Str}
    → Depends next n m
    → (d : Str) × Memᴰ d (next n) × ((d ≡ m) ⊎ Depends next d m)
first_edge next (direct {m} e) = (m, e, inl refl)
first_edge next (through {m} {d} p e) =
    let (x, first, rest) = first_edge next p in
    (
      x,
      first,
      inr (
          ⊎_elim (λ same. direct (subst (λ y. Memᴰ d (next y)) (sym same) e)) (λ q. through q e)
            rest),
    )

Grounded-no_cycle : (next : Str → List Str) {n : Str} → Grounded next n → ¬ Depends next n n
Grounded-no_cycle next {n} (rests_on below) cycle =
    let (d, first, rest) = first_edge next cycle in
    Grounded-no_cycle next (below d first) (
      ⊎_elim (λ same. direct (subst (λ y. Memᴰ d (next y)) (sym same) first)) (λ q. through q first)
        rest)

-- When `buildWorkflowGraph` returns no error, no job depends on itself through any chain of edges.
pub accepted_has_no_cycle :
    (spec : CertificateJobSpec) {g : Graph} (n : Str)
    → build_workflow_graph spec ≡ built g
    → contains (job_names_of spec.jobs) n ≡ true
    → ¬ Depends (sources spec.workflow.edges) n n
accepted_has_no_cycle spec n h key =
    Grounded-no_cycle (sources spec.workflow.edges)
      ((build_workflow_graph_sound spec h).0.acyclic n key)
