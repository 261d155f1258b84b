-- ===== src/Webhook.antt =====
-- internal/webhook/v1alpha1/certificatejob_webhook.go: the mutating and the validating admission
-- webhook of the custom resource.
pub mod Admission
use certificate_job_operator.Prelude.{
  Bool, true, false, Option, none, some, List, [], ◌∷◌, map, Str, ◌==◌, or_default, refuse_if,
  and_then_check, length, eqb, if◌then◌else◌,
}
use certificate_job_operator.Prelude.Int.{ℤ, pos, ltb_ℤ}
use certificate_job_operator.Api.{
  FailurePolicy, stop_downstream, other_policy, CertificateJobTemplate, CertificateJobSpec,
  CertificateJob,
}
use certificate_job_operator.JobSecurity.{apply_job_security_defaults}
use certificate_job_operator.Templates.{
  WorkflowError, no_jobs, parallelism_below_one, empty_name, check_template,
}

-- `if policy == "" { policy = StopDownstream }`.
abbrev pub default_policy : FailurePolicy → FailurePolicy
default_policy (other_policy []) = stop_downstream
default_policy policy = policy

default_template : ℤ → CertificateJobTemplate → CertificateJobTemplate
default_template ttl job = record job { template = apply_job_security_defaults job.template ttl }

default_spec : CertificateJobSpec → CertificateJobSpec
unfolding default_template
default_spec spec =
    let ttl = or_default spec.job_ttl_seconds_after_finished (pos 3600) in
    record spec {
      parallelism = some (or_default spec.parallelism (pos 1));
      job_ttl_seconds_after_finished = some ttl;
      failure_policy = default_policy spec.failure_policy;
      jobs = map (default_template ttl) spec.jobs;
    }

-- `CertificateJobCustomDefaulter.Default`, which returns no error.
unfoldable pub default_certificate_job : CertificateJob → CertificateJob
unfolding default_spec
default_certificate_job cjob = record cjob { spec = default_spec cjob.spec }

check_templates : List CertificateJobTemplate → Option WorkflowError
check_templates [] = none
check_templates (job ∷ jobs) =
    refuse_if (job.name == []) empty_name
      (and_then_check (check_template job) (check_templates jobs))

-- `spec.parallelism != nil && *spec.parallelism < 1`.
abbrev pub is_below_one : Option ℤ → Bool
is_below_one none = false
is_below_one (some p) = ltb_ℤ p (pos 1)

unfoldable pub validate_certificate_job : CertificateJob → Option WorkflowError
unfolding check_templates
validate_certificate_job cjob = refuse_if (eqb (length cjob.spec.jobs) 0) no_jobs (
    refuse_if (is_below_one cjob.spec.parallelism) parallelism_below_one
      (check_templates cjob.spec.jobs))

-- `ValidateCreate`, `ValidateUpdate` and `ValidateDelete`; none of them returns a warning.
unfoldable pub validate_create : CertificateJob → Option WorkflowError
unfolding validate_certificate_job
validate_create cjob = validate_certificate_job cjob

unfoldable pub validate_update : CertificateJob → CertificateJob → Option WorkflowError
unfolding validate_certificate_job
validate_update _ cjob = validate_certificate_job cjob

unfoldable pub validate_delete : CertificateJob → Option WorkflowError
validate_delete _ = none
