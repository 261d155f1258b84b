-- ===== src/Jobs.antt =====
-- The Job that the controller creates for a node
-- (internal/controller/certificatejob_controller.go): its name, its labels and its mounted secret.
pub mod Name
pub mod Secret
pub mod Merge
pub mod Created
use certificate_job_operator.Prelude.{
  false, none, some, List, [], ◌∷◌, Str, Map, str, lookup, insert, or_default,
}
use certificate_job_operator.Prelude.Int.{ℤ, pos}
use certificate_job_operator.Api.{
  PodSpec, PodTemplateSpec, JobSpec, Job, Certificate, CertificateJobTemplate, CertificateJobSpec,
  CertificateJob,
}
use certificate_job_operator.JobSecurity.{apply_job_security_defaults}
use certificate_job_operator.Jobs.Secret.{inject_certificate_secret}
use certificate_job_operator.Jobs.Merge.{merge_maps, merge_maps_with_base_precedence}

unfoldable pub requested_job_ttl : CertificateJobSpec → ℤ
requested_job_ttl spec = or_default spec.job_ttl_seconds_after_finished (pos 3600)

-- The loop of `jobTemplatesByName`, from the templates set so far.
unfoldable pub templates_from :
    List CertificateJobTemplate → Map CertificateJobTemplate → Map CertificateJobTemplate
unfolding insert
templates_from [] templates = templates
templates_from (tmpl ∷ tmpls) templates = templates_from tmpls (insert tmpl.name tmpl templates)

unfoldable pub job_templates_by_name : List CertificateJobTemplate → Map CertificateJobTemplate
unfolding templates_from
job_templates_by_name jobs = templates_from jobs []

abbrev pub empty_pod : PodSpec
empty_pod = record {
  host_network = false;
  host_pid = false;
  host_ipc = false;
  service_account_name = [];
  automount_service_account_token = none;
  enable_service_links = none;
  security_context = none;
  volumes = [];
  init_containers = [];
  containers = [];
}

-- The zero value that a missing key of the map reads as.
abbrev pub zero_template : CertificateJobTemplate
zero_template = record {
  name = [];
  labels = [];
  annotations = [];
  template = record {
    ttl_seconds_after_finished = none;
    template = record { labels = []; spec = empty_pod };
  };
}

-- `jobTemplates[nodeName]`.
unfoldable pub template_of : List CertificateJobTemplate → Str → CertificateJobTemplate
unfolding job_templates_by_name lookup
template_of jobs name = or_default (lookup name (job_templates_by_name jobs)) zero_template

-- `baseLabels` of `scheduleRunnableNodes`.
abbrev pub base_labels : (cjob certificate namespace node run_id : Str) → Map Str
base_labels cjob certificate namespace node run_id =
    (str "app.kubernetes.io/managed-by", str "certificate-job-operator")
    ∷ (str "certificates.rezzell.com/certificatejob", cjob)
    ∷ (str "certificates.rezzell.com/certificate", certificate)
    ∷ (str "certificates.rezzell.com/certificate-namespace", namespace)
    ∷ (str "certificates.rezzell.com/workflow-node", node)
    ∷ (str "certificates.rezzell.com/run-id", run_id)
    ∷ []

-- `job.Spec` after the labels, the defaults and the secret.
unfoldable pub job_spec : Map Str → CertificateJobTemplate → ℤ → Str → JobSpec
unfolding merge_maps_with_base_precedence apply_job_security_defaults inject_certificate_secret
job_spec labels tmpl ttl secret_name =
    let pod = record (tmpl.template.template) {
      labels = merge_maps_with_base_precedence labels tmpl.template.template.labels;
    } in
    inject_certificate_secret
      (apply_job_security_defaults (record (tmpl.template) { template = pod }) ttl) secret_name

-- The Job as it stands before `SetControllerReference`.
unfoldable pub new_job : CertificateJob → Certificate → Str → Str → Str → Job
unfolding job_spec template_of requested_job_ttl merge_maps merge_maps_with_base_precedence
new_job cjob cert node run_id job_name =
    let tmpl = template_of cjob.spec.jobs node in
    let labels = base_labels cjob.name cert.name cert.namespace node run_id in
    record {
      namespace = cert.namespace;
      name = job_name;
      labels = merge_maps_with_base_precedence labels tmpl.labels;
      annotations = merge_maps [] tmpl.annotations;
      owner = none;
      spec = job_spec labels tmpl (requested_job_ttl cjob.spec) cert.spec.secret_name;
      status = record { conditions = []; active = pos 0 };
    }
