-- ===== src/Webhook/Admission.antt =====
-- What the two webhooks promise of an admitted CertificateJob
-- (internal/webhook/v1alpha1/certificatejob_webhook.go).
use certificate_job_operator.Prelude.{
  false, Option, none, some, List, [], ◌∷◌, map, ==_iff, or_default, ◌≡◌, refl, ◌≢◌, ◌↔◌, All,
  arith, length, eqb, subst,
}
use certificate_job_operator.Prelude.Int.{ℤ, pos, ◌≤ℤ◌}
use certificate_job_operator.Api.{
  FailurePolicy, stop_downstream, continue_independent, best_effort, other_policy,
  CertificateJobTemplate, CertificateJobSpec, CertificateJob,
}
use certificate_job_operator.JobSecurity.{apply_job_security_defaults}
use certificate_job_operator.JobSecurity.Policy.{validate_job_template_security_iff}
use certificate_job_operator.JobSecurity.Hardening.{
  IsHardened, validated_is_hardened, apply_job_security_defaults_idem,
}
use certificate_job_operator.Templates.{check_template_iff, IsSafeTemplate}
use certificate_job_operator.Webhook.{
  default_policy, default_template, default_certificate_job, check_templates, is_below_one,
  validate_certificate_job, validate_create,
}

abbrev pub IsAcceptedTemplate : CertificateJobTemplate → Type 0
IsAcceptedTemplate job = (job.name ≢ []) × IsSafeTemplate job

abbrev pub IsAtLeastOne : Option ℤ → Type 0
IsAtLeastOne none = Unit
IsAtLeastOne (some p) = pos 1 ≤ℤ p

pub record IsAcceptable (spec : CertificateJobSpec) : Type 0 where
  pub some_jobs : spec.jobs ≢ []
  pub parallelism : IsAtLeastOne spec.parallelism
  pub jobs : All IsAcceptedTemplate spec.jobs

check_templates_iff :
    (jobs : List CertificateJobTemplate)
    → (check_templates jobs ≡ none) ↔ All IsAcceptedTemplate jobs
unfolding check_templates
check_templates_iff [] = (λ h. tt, λ h. refl)
check_templates_iff (job ∷ jobs) =
    ground (arith, ==_iff job.name [], check_template_iff job, check_templates_iff jobs)

is_below_one_iff : (p : Option ℤ) → (is_below_one p ≡ false) ↔ IsAtLeastOne p
is_below_one_iff none = (λ h. tt, λ h. refl)
is_below_one_iff (some p) = ground arith

length_zero_iff : (jobs : List CertificateJobTemplate) → (eqb (length jobs) 0 ≡ false) ↔ (jobs ≢ [])
length_zero_iff [] = (λ h. cc, λ h. absurd (h refl))
length_zero_iff (job ∷ jobs) = (λ h e. cc, λ h. ground arith)

-- The validating webhook accepts exactly the CertificateJobs with at least one job template, a
-- parallelism of at least 1 where one is given, and templates that are named, free of reserved
-- labels and restricted. It looks at neither duplicate names nor edges.
pub validate_certificate_job_iff :
    (cjob : CertificateJob) → (validate_certificate_job cjob ≡ none) ↔ IsAcceptable cjob.spec
unfolding validate_certificate_job
validate_certificate_job_iff cjob = ground (
  arith,
  length_zero_iff cjob.spec.jobs,
  is_below_one_iff cjob.spec.parallelism,
  check_templates_iff cjob.spec.jobs,
)

abbrev pub IsReadyTemplate : CertificateJobTemplate → Type 0
IsReadyTemplate job =
    IsAcceptedTemplate job
    × IsHardened job.template.template.spec
    × (job.template.ttl_seconds_after_finished ≢ none)

-- What the controller may count on in an admitted object.
pub record IsReady (spec : CertificateJobSpec) : Type 0 where
  pub acceptable : IsAcceptable spec
  pub parallelism : spec.parallelism ≢ none
  pub ttl : spec.job_ttl_seconds_after_finished ≢ none
  pub policy : spec.failure_policy ≢ other_policy []
  pub jobs : All IsReadyTemplate spec.jobs

template-IsReady :
    (ttl : ℤ) (job : CertificateJobTemplate)
    → IsAcceptedTemplate job
    → IsReadyTemplate (default_template ttl job)
unfolding default_template apply_job_security_defaults
template-IsReady ttl job (named, safe) =
    let hardened =
      validated_is_hardened job.template ttl
        ((validate_job_template_security_iff job.template).1 safe.pod) in
    (
      (
        named,
        record { labels = safe.labels; pod_labels = safe.pod_labels; pod = hardened.restricted },
      ),
      hardened,
      λ e. cc,
    )

templates-IsReady :
    (ttl : ℤ) (jobs : List CertificateJobTemplate)
    → All IsAcceptedTemplate jobs
    → All IsReadyTemplate (map (default_template ttl) jobs)
templates-IsReady ttl [] h = tt
templates-IsReady ttl (job ∷ jobs) h =
    (template-IsReady ttl job h.0, templates-IsReady ttl jobs h.1)

ready_accepted :
    (jobs : List CertificateJobTemplate) → All IsReadyTemplate jobs → All IsAcceptedTemplate jobs
ready_accepted [] h = tt
ready_accepted (job ∷ jobs) h = (h.0.0, ready_accepted jobs h.1)

default_policy-set : (p : FailurePolicy) → default_policy p ≢ other_policy []
default_policy-set stop_downstream = λ e. cc
default_policy-set continue_independent = λ e. cc
default_policy-set best_effort = λ e. cc
default_policy-set (other_policy []) = λ e. cc
default_policy-set (other_policy (c ∷ s)) = λ e. ground arith

map-ne-nil :
    (ttl : ℤ) (jobs : List CertificateJobTemplate)
    → jobs ≢ []
    → map (default_template ttl) jobs ≢ []
map-ne-nil ttl [] h = λ e. h refl
map-ne-nil ttl (job ∷ jobs) h = λ e. cc

default-at-least-one : (p : Option ℤ) → IsAtLeastOne p → IsAtLeastOne (some (or_default p (pos 1)))
default-at-least-one none h = ground arith
default-at-least-one (some p) h = h

-- Defaults make an accepted object ready.
pub default_certificate_job-IsReady :
    (cjob : CertificateJob)
    → validate_create cjob ≡ none
    → IsReady (default_certificate_job cjob).spec
unfolding validate_create default_certificate_job
default_certificate_job-IsReady cjob h =
    let spec = cjob.spec in
    let ok = (validate_certificate_job_iff cjob).0 h in
    let ttl = or_default spec.job_ttl_seconds_after_finished (pos 3600) in
    let ready = templates-IsReady ttl spec.jobs ok.jobs in
    record {
      acceptable = record {
        some_jobs = map-ne-nil ttl spec.jobs ok.some_jobs;
        parallelism = default-at-least-one spec.parallelism ok.parallelism;
        jobs = ready_accepted (map (default_template ttl) spec.jobs) ready;
      };
      parallelism = λ e. cc;
      ttl = λ e. cc;
      policy = default_policy-set spec.failure_policy;
      jobs = ready;
    }

default_policy_idem : (p : FailurePolicy) → default_policy (default_policy p) ≡ default_policy p
default_policy_idem stop_downstream = refl
default_policy_idem continue_independent = refl
default_policy_idem best_effort = refl
default_policy_idem (other_policy []) = refl
default_policy_idem (other_policy (c ∷ s)) = refl

template_idem :
    (ttl : ℤ) (job : CertificateJobTemplate)
    → default_template ttl (default_template ttl job) ≡ default_template ttl job
unfolding default_template
template_idem ttl job = rw (apply_job_security_defaults_idem job.template ttl ttl)

templates_idem :
    (ttl : ℤ) (jobs : List CertificateJobTemplate)
    → map (default_template ttl) (map (default_template ttl) jobs) ≡ map (default_template ttl) jobs
templates_idem ttl [] = refl
templates_idem ttl (job ∷ jobs) = rw (template_idem ttl job, templates_idem ttl jobs)

-- The mutating webhook is idempotent, as the API server may call it more than once.
pub default_certificate_job_idem :
    (cjob : CertificateJob)
    → default_certificate_job (default_certificate_job cjob) ≡ default_certificate_job cjob
unfolding default_certificate_job
default_certificate_job_idem cjob = rw (
  default_policy_idem cjob.spec.failure_policy,
  templates_idem (or_default cjob.spec.job_ttl_seconds_after_finished (pos 3600)) cjob.spec.jobs,
)

-- What passes admission, where the mutating webhook runs before the validating one, is ready: it
-- has named, restricted, hardened templates with a TTL, a parallelism of at least 1, a TTL and a
-- failure policy.
pub admitted-IsReady :
    (cjob : CertificateJob)
    → validate_create (default_certificate_job cjob) ≡ none
    → IsReady (default_certificate_job cjob).spec
admitted-IsReady cjob h =
    subst (λ c. IsReady c.spec) (default_certificate_job_idem cjob)
      (default_certificate_job-IsReady (default_certificate_job cjob) h)
