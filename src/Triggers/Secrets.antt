-- ===== src/Triggers/Secrets.antt =====
-- About an event of a Secret (`mapSecretToCertificateJobs`).
use certificate_job_operator.Prelude.{
  List, [], ◌∷◌, map, Str, Map, keys, Distinct, ◌≡◌, refl, sym, ap, ◌∙◌, subst, ◌↔◌, ◌⊎◌, inl, inr,
  ⊎_elim, All_of_mem, Memᴰ, arith,
}
use mathlib.Core.List.Memᴰ
use certificate_job_operator.Api.{Certificate, CertificateJob, Secret}
use certificate_job_operator.Client.{Client, ok, Response-cases}
use certificate_job_operator.Triggers.{
  Request, request_key, add_requests, requests_for, map_certificate_to_certificate_jobs,
  collect_requests, map_secret_to_certificate_jobs,
}
use certificate_job_operator.Triggers.Enqueued.{requests_for-mem}
use certificate_job_operator.Triggers.RequestSet.{
  values, IsInNamespace, IsRequestSet, add_requests_lem, keys-values,
}

module _ (c : Client) where
  open c use {World, list_certificate_jobs, list_certificates_of_secret}

  -- Reading the list changes nothing, and the list has only objects of the namespace.
  pub record HasPlainLists : Type 0 where
    pub still : (w : World) (namespace : Str) → (list_certificate_jobs w namespace).0 ≡ w
    pub scoped :
        (w : World) (namespace : Str) (cjobs : List CertificateJob) (cjob : CertificateJob)
        → (list_certificate_jobs w namespace).1 ≡ ok cjobs
        → Memᴰ cjob cjobs
        → cjob.namespace ≡ namespace

  abbrev requests_at : Certificate → World → List Request
  requests_at cert w = (map_certificate_to_certificate_jobs c cert w).1

  -- An event of one of the certificates would enqueue the request.
  abbrev pub IsEnqueuedBy : List Certificate → World → Request → Type 0
  IsEnqueuedBy certs w req = (cert : Certificate) × Memᴰ cert certs × Memᴰ req (requests_at cert w)

  IsEnqueuedBy-cons :
      (cert : Certificate) (certs : List Certificate) (w : World) (req : Request)
      → IsEnqueuedBy (cert ∷ certs) w req
        ↔ (Memᴰ req (requests_at cert w) ⊎ IsEnqueuedBy certs w req)
  IsEnqueuedBy-cons cert certs w req = (
    λ (other, at, m).
        ⊎_elim (λ here. inl (subst (λ x. Memᴰ req (requests_at x w)) here m))
          (λ later. inr (other, later, m)) (Memᴰ.cases_cons at),
    ⊎_elim (λ m. (cert, Memᴰ.head refl, m)) (λ (other, at, m). (other, Memᴰ.tail at, m)),
  )

  module _ (plain : HasPlainLists) where
    requests_at-namespace :
        (cert : Certificate) (w : World) (req : Request)
        → Memᴰ req (requests_at cert w)
        → req.namespace ≡ cert.namespace
    unfolding map_certificate_to_certificate_jobs
    requests_at-namespace cert w req m =
        elim (Response-cases ((list_certificate_jobs w cert.namespace).1)) [
          | inl (cjobs, e) ↦
              let same : (map_certificate_to_certificate_jobs c cert w).1
                  ≡ requests_for c cert cjobs =
                rw (e, map_certificate_to_certificate_jobs) refl in
              let (cjob, at, made, _) =
                (requests_for-mem c cert req cjobs).0 (subst (Memᴰ req) same m) in
              ap (λ (r : Request). r.namespace) made ∙ plain.scoped w cert.namespace cjobs cjob e at
          | inr (inl e) ↦
              let none_at : (map_certificate_to_certificate_jobs c cert w).1 ≡ [] =
                rw (e, map_certificate_to_certificate_jobs) refl in
              absurd (Memᴰ.not-nil (subst (Memᴰ req) none_at m))
          | inr (inr (text, e)) ↦
              let none_at : (map_certificate_to_certificate_jobs c cert w).1 ≡ [] =
                rw (e, map_certificate_to_certificate_jobs) refl in
              absurd (Memᴰ.not-nil (subst (Memᴰ req) none_at m))
        ]

    map_certificate-still :
        (cert : Certificate) (w : World) → (map_certificate_to_certificate_jobs c cert w).0 ≡ w
    unfolding map_certificate_to_certificate_jobs
    map_certificate-still cert w =
        elim (Response-cases ((list_certificate_jobs w cert.namespace).1)) [
          | inl (cjobs, e) ↦
              rw (e, map_certificate_to_certificate_jobs) (plain.still w cert.namespace)
          | inr (inl e) ↦ rw (e, map_certificate_to_certificate_jobs) (plain.still w cert.namespace)
          | inr (inr (text, e)) ↦
              rw (e, map_certificate_to_certificate_jobs) (plain.still w cert.namespace)
        ]

    -- The map after the loop over some certificates.
    record Collects (namespace : Str) (certs : List Certificate) (w : World) (m m' : Map Request)
        : Type 0 where
      own : IsRequestSet namespace m'
      distinct : Distinct (keys m')
      members : (r : Request) → Memᴰ r (values m') ↔ (IsEnqueuedBy certs w r ⊎ Memᴰ r (values m))

    collect_requests_lem :
        (namespace : Str) (certs : List Certificate) (w : World) (m : Map Request)
        → ((cert : Certificate) → Memᴰ cert certs → cert.namespace ≡ namespace)
        → IsRequestSet namespace m
        → Distinct (keys m)
        → Collects namespace certs w m (collect_requests c certs w m).1
    unfolding collect_requests
    collect_requests_lem namespace [] w m scoped own distinct = record {
      own = own;
      distinct = distinct;
      members = λ r. (inr, ⊎_elim (λ (cert, at, _). absurd (Memᴰ.not-nil at)) (λ h. h));
    }
    collect_requests_lem namespace (cert ∷ certs) w m scoped own distinct =
        let reqs = requests_at cert w in
        let owns =
          All_of_mem (IsInNamespace namespace) reqs
            (λ r at. requests_at-namespace cert w r at ∙ scoped cert (Memᴰ.head refl)) in
        let first = add_requests_lem namespace reqs m owns own distinct in
        let later =
          collect_requests_lem namespace certs w (add_requests reqs m)
            (λ x at. scoped x (Memᴰ.tail at)) first.own first.distinct in
        subst
          (λ x.
            Collects namespace (cert ∷ certs) w m
              (collect_requests c certs x (add_requests reqs m)).1)
          (sym (map_certificate-still cert w))
          (record {
            own = later.own;
            distinct = later.distinct;
            members = λ r.
                ground (arith, later.members r, first.members r, IsEnqueuedBy-cons cert certs w r);
          })

    -- When the lists that the API server answers hold objects of the namespace asked for, and
    -- reading them changes nothing, an event of a Secret enqueues exactly the requests that events
    -- of the certificates that use the Secret would enqueue, each of them once.
    pub map_secret_to_certificate_jobs_lem :
        (secret : Secret) (w : World) (certs : List Certificate)
        → let r = list_certificates_of_secret w secret.namespace secret.name in
          let reqs = (map_secret_to_certificate_jobs c secret w).1 in
          r.1 ≡ ok certs
          → ((cert : Certificate) → Memᴰ cert certs → cert.namespace ≡ secret.namespace)
          → Distinct (map (λ req. request_key req) reqs)
            × ((req : Request) → Memᴰ req reqs ↔ IsEnqueuedBy certs r.0 req)
    unfolding map_secret_to_certificate_jobs
    map_secret_to_certificate_jobs_lem secret w certs answered scoped =
        let w' = (list_certificates_of_secret w secret.namespace secret.name).0 in
        let done = collect_requests_lem secret.namespace certs w' [] scoped tt tt in
        let m' = (collect_requests c certs w' []).1 in
        rw (answered, map_secret_to_certificate_jobs)
          (
            subst Distinct (keys-values secret.namespace m' done.own) done.distinct,
            λ req. (
              λ at. ⊎_elim (λ h. h) (λ e. absurd (Memᴰ.not-nil e)) ((done.members req).0 at),
              λ h. (done.members req).1 (inl h),
            ),
          )
