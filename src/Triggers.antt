-- ===== src/Triggers.antt =====
-- Which CertificateJobs an event of a Certificate or of a Secret enqueues:
-- `mapCertificateToCertificateJobs` and `mapSecretToCertificateJobs`
-- (internal/controller/certificatejob_controller.go).
pub mod Enqueued
pub mod RequestSet
pub mod Secrets
pub mod Reached
use certificate_job_operator.Prelude.{
  some, List, [], ◌∷◌, ◌++◌, map, Str, Map, str, ◌==◌, insert, if◌then◌else◌,
}
use certificate_job_operator.Api.{Certificate, CertificateJob, Secret}
use certificate_job_operator.Client.{Client, Response, ok, failed_with}
use certificate_job_operator.Reconcile.{
  certificate_selector_for_job, selector_matches_certificate_labels,
}

-- `reconcile.Request`, a namespaced name.
pub record Request : Type 0 where
  pub namespace : Str
  pub name : Str

-- `req.Namespace + "/" + req.Name`.
abbrev pub request_key : Request → Str
request_key req = req.namespace ++ str "/" ++ req.name

abbrev pub request_of : CertificateJob → Request
request_of cjob = record { namespace = cjob.namespace; name = cjob.name }

-- `for _, req := range reqs { requestSet[key] = req }`.
unfoldable pub add_requests : List Request → Map Request → Map Request
unfolding insert
add_requests [] request_set = request_set
add_requests (req ∷ reqs) request_set = add_requests reqs (insert (request_key req) req request_set)

-- The keys of a Certificate in the index by secret name, which `SetupWithManager` registers.
unfoldable pub certificate_secret_names : Certificate → List Str
unfolding ◌==◌
certificate_secret_names cert =
    if cert.spec.secret_name == [] then [] else cert.spec.secret_name ∷ []

module _ (c : Client) where
  open c use {World, list_certificate_jobs, list_certificates_of_secret}

  -- The loop over the CertificateJobs.
  unfoldable pub requests_for : Certificate → List CertificateJob → List Request
  unfolding certificate_selector_for_job selector_matches_certificate_labels
  requests_for cert [] = []
  requests_for cert (cjob ∷ cjobs) =
      let rest = requests_for cert cjobs in
      elim (certificate_selector_for_job c cjob) [
        | failed_with e ↦ rest
        | ok selector ↦
            if selector_matches_certificate_labels c (some selector) cert.labels
            then request_of cjob ∷ rest
            else rest
      ]

  unfoldable pub map_certificate_to_certificate_jobs : Certificate → World → World × List Request
  unfolding requests_for
  map_certificate_to_certificate_jobs cert w =
      let w' = (list_certificate_jobs w cert.namespace).0 in
      elim ((list_certificate_jobs w cert.namespace).1) [
        | failed_with e ↦ (w', [])
        | ok cjobs ↦ (w', requests_for cert cjobs)
      ]

  -- The loop over the Certificates that use the Secret.
  unfoldable pub collect_requests : List Certificate → World → Map Request → World × Map Request
  unfolding map_certificate_to_certificate_jobs add_requests
  collect_requests [] w request_set = (w, request_set)
  collect_requests (cert ∷ certs) w request_set =
      let r = map_certificate_to_certificate_jobs cert w in
      collect_requests certs r.0 (add_requests r.1 request_set)

  -- The order of the requests is that of the map, which Go leaves open.
  unfoldable pub map_secret_to_certificate_jobs : Secret → World → World × List Request
  unfolding collect_requests
  map_secret_to_certificate_jobs secret w =
      let w' = (list_certificates_of_secret w secret.namespace secret.name).0 in
      elim ((list_certificates_of_secret w secret.namespace secret.name).1) [
        | failed_with e ↦ (w', [])
        | ok certs ↦ let r = collect_requests certs w' [] in (r.0, map (λ entry. entry.1) r.1)
      ]
