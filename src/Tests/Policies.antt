-- ===== src/Tests/Policies.antt =====
-- Tests of the job security, the webhook, and the Jobs that the controller builds.
use certificate_job_operator.Prelude.{
  none, [], ◌∷◌, ◌++◌, Str, Map, str, keys, contains, lookup, ◌≡◌, ◌≢◌, refl, ◌↔◌, ◌==◌, arith,
  Distinct,
}
use certificate_job_operator.Prelude.Int.{pos}
use certificate_job_operator.Api.{JobSpec}
use certificate_job_operator.JobSecurity.{
  apply_job_security_defaults, validate_job_template_security, validate_reserved_labels,
}
use certificate_job_operator.JobSecurity.Policy.{IsRestricted, validate_job_template_security_iff}
use certificate_job_operator.JobSecurity.Hardening.{IsHardened, IsSecured, validated-IsSecured}
use certificate_job_operator.Webhook.{
  default_certificate_job, validate_certificate_job, validate_create,
}
use certificate_job_operator.Webhook.Admission.{
  IsAcceptable, IsReady, validate_certificate_job_iff, admitted-IsReady,
  default_certificate_job_idem,
}
use certificate_job_operator.Templates.{check_template}
use certificate_job_operator.Jobs.{base_labels, job_spec}
use certificate_job_operator.Jobs.Name.{dash, build_job_name, sanitize_dns_1123}
use certificate_job_operator.Jobs.Name.Label.{IsDigest, IsLabel, build_job_name-IsLabel}
use certificate_job_operator.Jobs.Merge.{
  or_else, merge_maps_with_base_precedence, merge_maps_with_base_precedence_lem,
}
use certificate_job_operator.Jobs.Created.{IsSupplied, job_spec-IsHardened}
use certificate_job_operator.Tests.{plain_job, renewal, template_named}

plain_accepted : validate_job_template_security plain_job ≡ none
unfolding validate_job_template_security ◌==◌
plain_accepted = refl

validate_job_template_security_iff_example :
    (validate_job_template_security plain_job ≡ none) ↔ IsRestricted plain_job.template.spec
validate_job_template_security_iff_example = validate_job_template_security_iff plain_job

abbrev hardened : JobSpec
hardened = apply_job_security_defaults plain_job (pos 3600)

validated-IsSecured_example : IsSecured plain_job (pos 3600) hardened
validated-IsSecured_example = validated-IsSecured plain_job (pos 3600) plain_accepted

abbrev team_label : Map Str
team_label = (str "team", str "web") ∷ []

validate_certificate_job_iff_example :
    (validate_certificate_job renewal ≡ none) ↔ IsAcceptable renewal.spec
validate_certificate_job_iff_example = validate_certificate_job_iff renewal

renewal_admitted : validate_create (default_certificate_job renewal) ≡ none
unfolding validate_create default_certificate_job check_template validate_reserved_labels
    validate_job_template_security apply_job_security_defaults ◌==◌ contains
renewal_admitted = refl

admitted-IsReady_example : IsReady (default_certificate_job renewal).spec
admitted-IsReady_example = admitted-IsReady renewal renewal_admitted

default_certificate_job_idem_example :
    default_certificate_job (default_certificate_job renewal) ≡ default_certificate_job renewal
default_certificate_job_idem_example = default_certificate_job_idem renewal

abbrev labels : Map Str
labels = base_labels (str "renewal") (str "site") (str "web") (str "issue") (str "run")

secret_named : str "site-tls" ≢ []
secret_named = λ e. ground arith

job_spec-IsHardened_example :
    let pod =
      (job_spec labels (template_named (str "issue")) (pos 3600) (str "site-tls")).template.spec in
    IsHardened pod × IsSupplied (str "site-tls") pod
job_spec-IsHardened_example =
    job_spec-IsHardened labels (template_named (str "issue")) (pos 3600) (str "site-tls")
      ((validate_job_template_security_iff plain_job).0 plain_accepted) secret_named

abbrev hex : Str → Str
hex s = str "0a1b2c3d4e5f60718293a4b5c6d7e8f90a1b2c3d4e5f60718293a4b5c6d7e8f9"

hex-IsDigest : (s : Str) → IsDigest (hex s)
hex-IsDigest s = (refl, ground arith)

abbrev long_name : Str
long_name = str "Renewal_of.the.certificate.of.a.site.with.a.very.long.name.indeed"

build_job_name-IsLabel_example :
    let name = build_job_name hex long_name (str "site") (str "issue") (str "run") in
    IsLabel name × ((base : Str) × (base ≢ []) × (name ≡ base ++ dash ∷ str "0a1b2c3d4e5f"))
build_job_name-IsLabel_example =
    build_job_name-IsLabel hex long_name (str "site") (str "issue") (str "run") hex-IsDigest

sanitize_test : sanitize_dns_1123 (str "-Web_Site-") ≡ str "web-site"
unfolding sanitize_dns_1123
sanitize_test = refl

labels-Distinct : Distinct (keys labels)
unfolding contains ◌==◌
labels-Distinct = ground arith

team_label-Distinct : Distinct (keys team_label)
unfolding contains ◌==◌
team_label-Distinct = ground arith

merge_maps_with_base_precedence_lem_example :
    lookup (str "team") (merge_maps_with_base_precedence labels team_label)
    ≡ or_else (lookup (str "team") labels) (lookup (str "team") team_label)
merge_maps_with_base_precedence_lem_example =
    merge_maps_with_base_precedence_lem labels team_label (str "team") labels-Distinct
      team_label-Distinct
