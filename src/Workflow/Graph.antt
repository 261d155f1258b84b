-- ===== src/Workflow/Graph.antt =====
-- `buildWorkflowGraph`: the checks on a workflow, and its dependency maps in both directions.
pub mod Fill
pub mod Built
pub mod Cycles
use certificate_job_operator.Prelude.{
  Bool, ◌||◌, not, Option, none, some, List, [], ◌∷◌, Str, Map, ◌==◌, insert, contains, length, eqb,
  if◌then◌else◌,
}
use certificate_job_operator.Api.{
  CertificateJobTemplate, CertificateWorkflowEdge, CertificateJobSpec,
}
use certificate_job_operator.Templates.{
  WorkflowError, no_jobs, empty_name, duplicate_name, unknown_node, self_dependency, check_template,
}
use certificate_job_operator.Workflow.Acyclic.{append_to, validate_acyclic}

-- The variables `jobNames`, `deps` and `reverse`.
pub record Graph : Type 0 where
  pub job_names : List Str
  pub deps : Map (List Str)
  pub reverse : Map (List Str)

pub data BuildResult : Type 0 where
  built : Graph → BuildResult
  refused : WorkflowError → BuildResult

abbrev pub add_job : CertificateJobTemplate → Graph → Graph
add_job job g = record {
  job_names = job.name ∷ g.job_names;
  deps = insert job.name [] g.deps;
  reverse = insert job.name [] g.reverse;
}

-- The loop over `spec.jobs`.
unfoldable pub add_jobs : List CertificateJobTemplate → Graph → BuildResult
unfolding insert contains
add_jobs [] g = built g
add_jobs (job ∷ jobs) g =
    let rest = add_jobs jobs (add_job job g) in
    if job.name == []
    then refused empty_name
    else if contains g.job_names job.name
    then refused (duplicate_name job.name)
    else elim (check_template job) [ some e ↦ refused e | none ↦ rest ]

abbrev pub add_edge : CertificateWorkflowEdge → Graph → Graph
add_edge edge g = record g {
  deps = append_to g.deps edge.to edge.from;
  reverse = append_to g.reverse edge.from edge.to;
}

-- The loop over `spec.workflow.edges`.
unfoldable pub add_edges : List CertificateWorkflowEdge → Graph → BuildResult
unfolding append_to contains
add_edges [] g = built g
add_edges (edge ∷ edges) g =
    let rest = add_edges edges (add_edge edge g) in
    if not (contains g.job_names edge.from) || not (contains g.job_names edge.to)
    then refused (unknown_node edge.from edge.to)
    else if edge.from == edge.to
    then refused (self_dependency edge.from edge.to)
    else rest

abbrev pub no_graph : Graph
no_graph = record { job_names = []; deps = []; reverse = [] }

-- The tail of the function, after the edges.
abbrev pub check_cycles : Graph → BuildResult
check_cycles g = elim (validate_acyclic g.deps) [ some e ↦ refused e | none ↦ built g ]

unfoldable pub build_workflow_graph : CertificateJobSpec → BuildResult
unfolding add_jobs add_edges validate_acyclic
build_workflow_graph spec =
    if eqb (length spec.jobs) 0 then refused no_jobs else elim (add_jobs spec.jobs no_graph) [
      | refused e ↦ refused e
      | built g ↦ elim (add_edges spec.workflow.edges g) [
        | refused e ↦ refused e
        | built g' ↦ check_cycles g'
      ]
    ]
