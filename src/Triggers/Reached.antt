-- ===== src/Triggers/Reached.antt =====
-- About an event of a Secret and the reconciles after it (`mapSecretToCertificateJobs`).
use certificate_job_operator.Prelude.{
  List, [], map, Str, ◌==◌, ==_iff, Distinct, ◌≡◌, ◌≢◌, sym, ◌∙◌, subst, ◌↔◌, inl, inr, Memᴰ,
  Bool-cases, ⊎_elim,
}
use mathlib.Core.List.Memᴰ
use certificate_job_operator.Api.{Certificate, CertificateJob, Secret}
use certificate_job_operator.Client.{Client, ok}
use certificate_job_operator.Triggers.{
  request_key, request_of, certificate_secret_names, map_secret_to_certificate_jobs,
}
use certificate_job_operator.Triggers.Enqueued.{HaveOwnNames, IsListedBy, enqueued_iff_listed}
use certificate_job_operator.Triggers.Secrets.{HasPlainLists, map_secret_to_certificate_jobs_lem}

-- A Certificate is under the name of its secret, unless that is empty.
certificate_secret_names_iff :
    (cert : Certificate) (name : Str)
    → name ≢ []
    → Memᴰ name (certificate_secret_names cert) ↔ (cert.spec.secret_name ≡ name)
unfolding certificate_secret_names
certificate_secret_names_iff cert name named =
    let s = cert.spec.secret_name in
    elim (Bool-cases (s == [])) [
      | inl empty ↦
          rw empty
            (λ m. absurd (Memᴰ.not-nil m), λ e. absurd (named (sym e ∙ (==_iff s []).0 empty)))
      | inr full ↦ rw full (
        λ m. ⊎_elim (λ e. sym e) (λ n. absurd (Memᴰ.not-nil n)) (Memᴰ.cases_cons m),
        λ e. Memᴰ.head (sym e),
      )
    ]

module _ (c : Client) where
  open c use {World, list_certificates, list_certificate_jobs, list_certificates_of_secret}

  -- What the API server holds while an event of the secret is handled and until the reconcile that
  -- reads the certificates at `later`: the lists agree, and the index is the one registered.
  pub record IsSnapshot (secret : Secret) (w later : World) (certs items : List Certificate)
      (cjobs : List CertificateJob) : Type 0 where
    pub indexed : (list_certificates_of_secret w secret.namespace secret.name).1 ≡ ok certs
    pub jobs :
        (list_certificate_jobs
          (list_certificates_of_secret w secret.namespace secret.name).0
          secret.namespace).1
        ≡ ok cjobs
    pub certificates : (list_certificates later secret.namespace).1 ≡ ok items
    pub scoped : (cert : Certificate) → Memᴰ cert items → cert.namespace ≡ secret.namespace
    pub own_names : HaveOwnNames cjobs
    pub exact :
        (cert : Certificate)
        → Memᴰ cert certs ↔ (Memᴰ cert items × Memᴰ secret.name (certificate_secret_names cert))

  -- With lists that hold the objects of the namespace asked for, that agree with each other, and an
  -- index that is the one which `SetupWithManager` registers: an event of a Secret enqueues no
  -- request twice, and it enqueues a CertificateJob of its namespace exactly when the reconcile of
  -- the CertificateJob lists a certificate whose secret it is.
  pub secret_reaches :
      (secret : Secret) (w later : World) (certs items : List Certificate)
      (cjobs : List CertificateJob)
      → HasPlainLists c
      → IsSnapshot secret w later certs items cjobs
      → secret.name ≢ []
      → let reqs = (map_secret_to_certificate_jobs c secret w).1 in
        Distinct (map (λ req. request_key req) reqs)
        × ((cjob : CertificateJob)
            → Memᴰ cjob cjobs
            → Memᴰ (request_of cjob) reqs ↔ (
                (cert : Certificate) × Memᴰ cert items
                × (cert.spec.secret_name ≡ secret.name)
                × IsListedBy c cert cjob later))
  secret_reaches secret w later certs items cjobs plain snap named =
      let w' = (list_certificates_of_secret w secret.namespace secret.name).0 in
      let in_items = λ (cert : Certificate) (m : Memᴰ cert certs). (snap.exact cert).0 m in
      let (distinct, union) =
        map_secret_to_certificate_jobs_lem c plain secret w certs snap.indexed
          (λ cert m. snap.scoped cert (in_items cert m).0) in
      (
        distinct,
        λ cjob at.
            let same = plain.scoped w' secret.namespace cjobs cjob snap.jobs at in
            let listed : (list_certificates later cjob.namespace).1 ≡ ok items =
              subst (λ n. (list_certificates later n).1 ≡ ok items) (sym same) snap.certificates in
            let iff = λ (cert : Certificate) (m : Memᴰ cert items).
              enqueued_iff_listed c cert cjob cjobs items w' later
                (subst (λ n. (list_certificate_jobs w' n).1 ≡ ok cjobs) (sym (snap.scoped cert m))
                  snap.jobs)
                snap.own_names at listed m in
            (
              λ m.
                  let (cert, there, enqueued) = (union (request_of cjob)).0 m in
                  let (item, key) = in_items cert there in
                  (
                    cert,
                    item,
                    (certificate_secret_names_iff cert secret.name named).0 key,
                    (iff cert item).0 enqueued,
                  ),
              λ (cert, item, uses, is_listed).
                  let key = (certificate_secret_names_iff cert secret.name named).1 uses in
                  (union (request_of cjob)).1
                    (cert, (snap.exact cert).1 (item, key), (iff cert item).1 is_listed),
            ),
      )
