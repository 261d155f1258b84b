-- ===== src/Templates.antt =====
-- The checks on one job template that the webhook (internal/webhook/v1alpha1) and the controller
-- (buildWorkflowGraph of internal/controller) share, and the errors of both.
use certificate_job_operator.Prelude.{
  Option, none, some, Str, ◌≡◌, ◌↔◌, All, keys, and_then_check, arith,
}
use certificate_job_operator.Api.{CertificateJobTemplate}
use certificate_job_operator.JobSecurity.{
  SecurityError, validate_job_template_security, validate_reserved_labels,
}
use certificate_job_operator.JobSecurity.Policy.{IsRestricted, validate_job_template_security_iff}
use certificate_job_operator.JobSecurity.Labels.{IsFree, validate_reserved_labels_iff}

pub data WorkflowError : Type 0 where
  no_jobs parallelism_below_one empty_name cyclic : WorkflowError
  duplicate_name : (name : Str) → WorkflowError
  invalid_labels invalid_pod_labels : (name label : Str) → WorkflowError
  insecure : (name : Str) → SecurityError → WorkflowError
  unknown_node self_dependency : (from to : Str) → WorkflowError

-- `if err := e; err != nil { return wrap(err) }` as an error of its own.
abbrev wrap {ℓ} : {E : Type ℓ} → (E → WorkflowError) → Option E → Option WorkflowError
wrap f none = none
wrap f (some e) = some (f e)

-- The three checks that both loops make after those of the name, in their order.
unfoldable pub check_template : CertificateJobTemplate → Option WorkflowError
check_template job =
    and_then_check (wrap (invalid_labels job.name) (validate_reserved_labels job.labels)) (
      and_then_check
        (wrap (invalid_pod_labels job.name) (validate_reserved_labels job.template.template.labels))
        (wrap (insecure job.name) (validate_job_template_security job.template)))

-- A template with no reserved label, and a restricted pod.
pub record IsSafeTemplate (job : CertificateJobTemplate) : Type 0 where
  pub labels : All IsFree (keys job.labels)
  pub pod_labels : All IsFree (keys job.template.template.labels)
  pub pod : IsRestricted job.template.template.spec

pub check_template_iff :
    (job : CertificateJobTemplate) → (check_template job ≡ none) ↔ IsSafeTemplate job
unfolding check_template
check_template_iff job = ground (
  arith,
  validate_reserved_labels_iff job.labels,
  validate_reserved_labels_iff job.template.template.labels,
  validate_job_template_security_iff job.template,
)
