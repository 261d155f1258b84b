-- ===== src/Tests.antt =====
-- The workflow, the certificate and the API server of the tests, and the tests by component.
mod Graphs
mod Policies
mod Passes
mod Observations
mod Statuses
mod Reconciles
mod Events
mod Progresses
use certificate_job_operator.Prelude.{
  lookup, is_some, ℕ, true, false, Option, none, some, List, [], ◌∷◌, ◌++◌, Str, Map, str, ◌==◌,
  if◌then◌else◌,
}
use certificate_job_operator.Prelude.Int.{pos}
use certificate_job_operator.Api.{
  Condition, Container, Job, JobCondition, JobSpec, Secret, Certificate, CertificateJobTemplate,
  CertificateJobSpec, CertificateJob, WorkflowNodeState, ExecutionPhase, pending,
  continue_independent,
}
use certificate_job_operator.Client.{Client, Session, Response, ok, failed_with, not_found}
use certificate_job_operator.Jobs.{empty_pod}

abbrev pub one_container : Container
one_container = record { name = str "main"; security_context = none; volume_mounts = [] }

abbrev pub plain_job : JobSpec
plain_job = record {
  ttl_seconds_after_finished = none;
  template = record {
    labels = (str "team", str "web") ∷ [];
    spec = record empty_pod { containers = one_container ∷ [] };
  };
}

abbrev pub template_named : Str → CertificateJobTemplate
template_named name = record {
  name = name;
  labels = (str "tier", str "edge") ∷ [];
  annotations = [];
  template = plain_job;
}

-- "deploy" waits for "issue"; "notify" waits for nothing.
abbrev pub workflow : CertificateJobSpec
workflow = record {
  certificate_selector = [];
  jobs =
      template_named (str "issue")
      ∷ template_named (str "deploy")
      ∷ template_named (str "notify")
      ∷ [];
  workflow = record { edges = record { from = str "issue"; to = str "deploy" } ∷ [] };
  parallelism = some (pos 2);
  job_ttl_seconds_after_finished = none;
  failure_policy = continue_independent;
}

abbrev pub renewal : CertificateJob
renewal = record {
  namespace = str "pki";
  name = str "renewal";
  generation = pos 1;
  spec = workflow;
  status = record { observed_certificates = []; conditions = [] };
}

abbrev pub site : Certificate
site = record {
  namespace = str "web";
  name = str "site";
  labels = [];
  generation = pos 1;
  spec = record { secret_name = str "site-tls"; other_fields = [] };
  status = [];
}

abbrev pub site_secret : Secret
site_secret = record {
  namespace = str "web";
  name = str "site-tls";
  type = str "kubernetes.io/tls";
  entries = [];
}

abbrev pub answer_job : List Job → Str → Response Job
answer_job [] name = failed_with not_found
answer_job (job ∷ jobs) name = elim (job.name == name) [
  | true ↦ ok job
  | false ↦ answer_job jobs name
]

-- Replaces the condition of the type, or appends it.
abbrev pub replace_condition : List Condition → Condition → List Condition
replace_condition [] c = c ∷ []
replace_condition (d ∷ ds) c = if d.type == c.type then c ∷ ds else d ∷ replace_condition ds c

-- An API server that keeps the Jobs created in it.
abbrev pub server : Client
server = record {
  World = List Job;
  get_job = λ jobs namespace name. (jobs, answer_job jobs name);
  get_secret = λ jobs namespace name. (jobs, ok site_secret);
  get_certificate_job = λ jobs namespace name. (jobs, ok renewal);
  list_certificates = λ jobs namespace. (jobs, ok (site ∷ []));
  list_certificate_jobs = λ jobs namespace. (jobs, ok (renewal ∷ []));
  list_certificates_of_secret = λ jobs namespace secret. (jobs, ok (site ∷ []));
  create_job = λ jobs job. (job ∷ jobs, none);
  update_status = λ jobs cjob. (jobs, none);
  Selector = Str;
  label_selector_as_selector = λ s. ok s;
  is_empty = λ s. s == [];
  matches = λ s labels. is_some (lookup s labels);
  set_status_condition = replace_condition;
  set_controller_reference = λ cjob job. ok (record job { owner = some cjob.name });
  now = λ jobs. 7;
  skip_time = λ jobs name. 7;
  condition_time = λ jobs type. 7;
  hash_string = λ s. str "0a1b2c3d4e5f60718293";
  marshal_input = λ p. ok p.workflow_spec_hash;
  marshal_workflow = λ p. ok p.certificate_selector;
  marshal_status = λ s. [];
  workflow_error_text = λ e. str "error";
  error_text = λ e. str "error";
}

-- A session that begins with the Jobs.
abbrev pub session_with : List Job → Session (List Job)
session_with jobs = record { world = jobs; created = []; events = [] }

abbrev pub node : Str → Str → ExecutionPhase → WorkflowNodeState
node name job_name phase = record {
  name = name;
  job_name = job_name;
  phase = phase;
  message = [];
  started_at = none;
  completed_at = none;
}

abbrev pub job_in : Str → List JobCondition → Job
job_in name conditions = record {
  namespace = str "web";
  name = name;
  labels = [];
  annotations = [];
  owner = none;
  spec = plain_job;
  status = record { conditions = conditions; active = pos 0 };
}
