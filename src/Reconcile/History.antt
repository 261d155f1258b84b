-- ===== src/Reconcile/History.antt =====
-- The status of a CertificateJob over sequences of edits and reconciles.
use certificate_job_operator.Prelude.{some, [], Distinct, ◌≡◌, sym, subst, arith, inl, inr}
use certificate_job_operator.Prelude.Int.{ℤ}
use certificate_job_operator.Api.{CertificateJob, CertificateJobSpec}
use certificate_job_operator.Client.{Client, Session, Response-cases}
use certificate_job_operator.Reconcile.{
  JobResult, build_workflow_context, list_matching_certificates, reconcile_certificate_job,
}
use certificate_job_operator.Reconcile.Entries.{keys_of}
use certificate_job_operator.Reconcile.Total.{
  context-cases, context-accepted, reconcile_certificate_job-observed,
}
use certificate_job_operator.Reconcile.OwnNodes.{
  AllHaveOwnNodes, reconcile_certificates-HaveOwnNodes,
}

module _ (c : Client) where
  open c use {World}

  -- A CertificateJob is created without observed states, its spec is edited, and its status is what
  -- a reconcile left, in any session.
  pub data History : CertificateJob → Type 0 where
    created : (cjob : CertificateJob) → cjob.status.observed_certificates ≡ [] → History cjob
    edited :
        (cjob : CertificateJob) (spec : CertificateJobSpec) (generation : ℤ)
        → History cjob
        → History (record cjob { spec = spec; generation = generation })
    reconciled :
        (cjob : CertificateJob) (s : Session World) (r : JobResult c)
        → History cjob
        → reconcile_certificate_job c cjob s ≡ some r
        → History r.cjob

  reconcile_certificate_job-Distinct :
      (cjob : CertificateJob) (s : Session World) {r : JobResult c}
      → reconcile_certificate_job c cjob s ≡ some r
      → Distinct (keys_of cjob.status.observed_certificates)
      → Distinct (keys_of r.cjob.status.observed_certificates)
  unfolding reconcile_certificate_job
  reconcile_certificate_job-Distinct cjob s {r} h d =
      let unchanged =
        λ (e : cjob.status.observed_certificates ≡ r.cjob.status.observed_certificates).
          subst (λ l. Distinct (keys_of l)) e d in
      elim (context-cases c (build_workflow_context c cjob.spec s.world)) [
        | inr (m, e) ↦ unchanged (ground arith)
        | inl (ctx, e) ↦ elim (Response-cases ((list_matching_certificates c cjob s.world).1)) [
          | inl (certs, listed) ↦
              let (r', runs, _, distinct, _) =
                reconcile_certificate_job-observed c cjob s {ctx = ctx} {certs = certs} d e
                  listed in
              let same : r' ≡ r = ground arith in
              subst (λ (x : JobResult c). Distinct (keys_of x.cjob.status.observed_certificates))
                {y = r} same distinct
          | inr (inl failed) ↦ unchanged (ground arith)
          | inr (inr (m, failed)) ↦ unchanged (ground arith)
        ]
      ]

  reconcile_certificate_job-HaveOwnNodes :
      (cjob : CertificateJob) (s : Session World) {r : JobResult c}
      → reconcile_certificate_job c cjob s ≡ some r
      → AllHaveOwnNodes cjob.status.observed_certificates
      → AllHaveOwnNodes r.cjob.status.observed_certificates
  unfolding reconcile_certificate_job
  reconcile_certificate_job-HaveOwnNodes cjob s {r} h all =
      let unchanged =
        λ (e : cjob.status.observed_certificates ≡ r.cjob.status.observed_certificates).
          subst AllHaveOwnNodes e all in
      elim (context-cases c (build_workflow_context c cjob.spec s.world)) [
        | inr (m, e) ↦ unchanged (ground arith)
        | inl (ctx, e) ↦
            let s' = record s { world = (list_matching_certificates c cjob s.world).0 } in
            elim (Response-cases ((list_matching_certificates c cjob s.world).1)) [
              | inr (inl failed) ↦ unchanged (ground arith)
              | inr (inr (m, failed)) ↦ unchanged (ground arith)
              | inl (certs, listed) ↦
                  let accepted = context-accepted c cjob.spec s.world {ctx = ctx} e in
                  reconcile_certificates-HaveOwnNodes c cjob ctx accepted certs s' {r = r}
                    (ground arith) all
            ]
      ]

  -- At most one state for each certificate, and in each state one node of each name.
  pub record IsTidy (cjob : CertificateJob) : Type 0 where
    pub one_state : Distinct (keys_of cjob.status.observed_certificates)
    pub own_nodes : AllHaveOwnNodes cjob.status.observed_certificates

  -- Whatever sequence of edits of the spec and reconciles a CertificateJob has gone through since
  -- it was created without observed states, with any answers of the API server, its status never
  -- holds two observed states for one certificate, and no observed state two nodes of one name.
  pub History-IsTidy : {cjob : CertificateJob} → History cjob → IsTidy cjob
  History-IsTidy (created cjob empty) = record {
    one_state = subst (λ l. Distinct (keys_of l)) (sym empty) tt;
    own_nodes = subst AllHaveOwnNodes (sym empty) tt;
  }
  History-IsTidy (edited cjob spec generation before) =
      let tidy = History-IsTidy before in
      record { one_state = tidy.one_state; own_nodes = tidy.own_nodes }
  History-IsTidy (reconciled cjob s r before h) =
      let tidy = History-IsTidy before in
      record {
        one_state = reconcile_certificate_job-Distinct cjob s {r = r} h tidy.one_state;
        own_nodes = reconcile_certificate_job-HaveOwnNodes cjob s {r = r} h tidy.own_nodes;
      }
