-- ===== src/Triggers/Enqueued.antt =====
-- About an event of a Certificate (`mapCertificateToCertificateJobs`).
use certificate_job_operator.Prelude.{
  Bool, true, some, List, [], ◌∷◌, sort, sort-mem, keep, ◌≡◌, refl, sym, ap, ◌∙◌, subst, ◌↔◌, ◌⊎◌,
  inl, inr, ⊎_elim, Memᴰ, Memᴰ-cons, arith, Bool-cases,
}
use mathlib.Core.List.Memᴰ
use certificate_job_operator.Api.{Certificate, CertificateJob}
use certificate_job_operator.Client.{Client, ok, Response-cases}
use certificate_job_operator.Reconcile.{
  certificate_less, certificate_selector_for_job, selector_matches_certificate_labels,
  list_matching_certificates,
}
use certificate_job_operator.Triggers.{
  Request, request_of, requests_for, map_certificate_to_certificate_jobs,
}

pub keep-mem :
    {A : Type 0} (p : A → Bool) (a : A) (xs : List A)
    → Memᴰ a (keep p xs) ↔ (Memᴰ a xs × (p a ≡ true))
keep-mem p a [] = (λ m. absurd (Memᴰ.not-nil m), λ h. absurd (Memᴰ.not-nil h.0))
keep-mem p a (x ∷ xs) =
    let same = λ (e : a ≡ x). ap p e in
    ground (arith, same, keep-mem p a xs, Memᴰ-cons a x xs, Memᴰ-cons a x (keep p xs))

-- No two CertificateJobs have one namespaced name.
abbrev pub HaveOwnNames : List CertificateJob → Type 0
HaveOwnNames cjobs =
    (a b : CertificateJob) → Memᴰ a cjobs → Memᴰ b cjobs → request_of a ≡ request_of b → a ≡ b

module _ (c : Client) (cert : Certificate) where
  open c use {World, Selector, list_certificate_jobs, list_certificates}

  -- The selector of the CertificateJob is valid, and lets the certificate in.
  abbrev Selects : CertificateJob → Type 0
  Selects cjob =
      (selector : Selector) × (certificate_selector_for_job c cjob ≡ ok selector)
      × (selector_matches_certificate_labels c (some selector) cert.labels ≡ true)

  -- What a CertificateJob adds to the requests.
  requests_for-cons :
      (cjob : CertificateJob) (cjobs : List CertificateJob)
      → (Selects cjob
          × (requests_for c cert (cjob ∷ cjobs) ≡ request_of cjob ∷ requests_for c cert cjobs))
        ⊎ ((¬ Selects cjob) × (requests_for c cert (cjob ∷ cjobs) ≡ requests_for c cert cjobs))
  unfolding requests_for
  requests_for-cons cjob cjobs = elim (Response-cases (certificate_selector_for_job c cjob)) [
    | inl (selector, e) ↦
        elim (Bool-cases (selector_matches_certificate_labels c (some selector) cert.labels)) [
          | inl lets ↦ inl ((selector, e, lets), rw (e, requests_for) (ground arith))
          | inr keeps_out ↦
              inr (λ (other, e', lets). ground arith, rw (e, requests_for) (ground arith))
        ]
    | inr (inl e) ↦ inr (λ (other, e', lets). ground arith, rw (e, requests_for) refl)
    | inr (inr (m, e)) ↦ inr (λ (other, e', lets). ground arith, rw (e, requests_for) refl)
  ]

  pub requests_for-mem :
      (req : Request) (cjobs : List CertificateJob)
      → Memᴰ req (requests_for c cert cjobs)
        ↔ ((cjob : CertificateJob) × Memᴰ cjob cjobs × (req ≡ request_of cjob) × Selects cjob)
  unfolding requests_for
  requests_for-mem req [] =
      (λ m. absurd (Memᴰ.not-nil m), λ (cjob, m, _, _). absurd (Memᴰ.not-nil m))
  requests_for-mem req (cjob ∷ cjobs) =
      let (sound, complete) = requests_for-mem req cjobs in
      elim (requests_for-cons cjob cjobs) [
        | inl (selects, e) ↦ (
          λ m.
              ⊎_elim (λ here. (cjob, Memᴰ.head refl, here, selects))
                (λ later.
                  let (other, at, same, chosen) = sound later in
                  (other, Memᴰ.tail at, same, chosen))
                (Memᴰ.cases_cons (subst (Memᴰ req) e m)),
          λ (other, at, same, chosen). subst (Memᴰ req) (sym e) (
              ⊎_elim (λ here. Memᴰ.head (same ∙ ap (λ x. request_of x) here))
                (λ later. Memᴰ.tail (complete (other, later, same, chosen))) (Memᴰ.cases_cons at)),
        )
        | inr (rejects, e) ↦ (
          λ m.
              let (other, at, same, chosen) = sound (subst (Memᴰ req) e m) in
              (other, Memᴰ.tail at, same, chosen),
          λ (other, at, same, chosen). subst (Memᴰ req) (sym e) (
              ⊎_elim (λ here. absurd (rejects (subst Selects here chosen)))
                (λ later. complete (other, later, same, chosen)) (Memᴰ.cases_cons at)),
        )
      ]

  -- The reconcile of the CertificateJob lists the certificate.
  abbrev pub IsListedBy : CertificateJob → World → Type 0
  IsListedBy cjob w =
      (certs : List Certificate) × ((list_matching_certificates c cjob w).1 ≡ ok certs)
      × Memᴰ cert certs

  IsListedBy-iff :
      (cjob : CertificateJob) (w : World) (items : List Certificate)
      → (list_certificates w cjob.namespace).1 ≡ ok items
      → Memᴰ cert items
      → IsListedBy cjob w ↔ Selects cjob
  unfolding list_matching_certificates
  IsListedBy-iff cjob w items answered at =
      elim (Response-cases (certificate_selector_for_job c cjob)) [
        | inl (selector, e) ↦
            let p =
              λ (x : Certificate). selector_matches_certificate_labels c (some selector) x.labels in
            let result = keep p (sort certificate_less items) in
            let listed : (list_matching_certificates c cjob w).1 ≡ ok result =
              rw (e, answered, list_matching_certificates) refl in
            let kept = keep-mem p cert (sort certificate_less items) in
            let sorted = sort-mem certificate_less cert items in
            (
              λ (certs, e', m).
                  let same : certs ≡ result = cc in
                  (selector, e, (kept.0 (subst (Memᴰ cert) same m)).1),
              λ (other, e', lets).
                  let same : other ≡ selector = cc in
                  let lets' =
                    subst (λ x. selector_matches_certificate_labels c (some x) cert.labels ≡ true)
                      same lets in
                  (result, listed, kept.1 (sorted.1 at, lets')),
            )
        | inr (inl e) ↦ (λ (certs, e', m). absurd (ground arith), λ (other, e', lets). absurd (cc))
        | inr (inr (text, e)) ↦
            (λ (certs, e', m). absurd (ground arith), λ (other, e', lets). absurd (cc))
      ]

  -- For a CertificateJob that the API server lists, and a certificate that it lists in the
  -- namespace of the CertificateJob, with every namespaced name at most once: an event of the
  -- certificate enqueues the CertificateJob exactly when a reconcile of the CertificateJob that
  -- gets these answers lists the certificate. The CertificateJobs whose selector is invalid are
  -- left out on both sides.
  pub enqueued_iff_listed :
      (cjob : CertificateJob) (cjobs : List CertificateJob) (items : List Certificate)
      (w w' : World)
      → (list_certificate_jobs w cert.namespace).1 ≡ ok cjobs
      → HaveOwnNames cjobs
      → Memᴰ cjob cjobs
      → (list_certificates w' cjob.namespace).1 ≡ ok items
      → Memᴰ cert items
      → Memᴰ (request_of cjob) (map_certificate_to_certificate_jobs c cert w).1 ↔ IsListedBy cjob w'
  unfolding map_certificate_to_certificate_jobs
  enqueued_iff_listed cjob cjobs items w w' answered own at listed mem =
      let (sound, complete) = requests_for-mem (request_of cjob) cjobs in
      let (of_listed, to_listed) = IsListedBy-iff cjob w' items listed mem in
      let requests : (map_certificate_to_certificate_jobs c cert w).1 ≡ requests_for c cert cjobs =
        rw (answered, map_certificate_to_certificate_jobs) refl in
      (
        λ m.
            let (other, there, same, chosen) = sound (subst (Memᴰ (request_of cjob)) requests m) in
            to_listed (subst Selects (own other cjob there at (sym same)) chosen),
        λ is_listed.
            subst (Memᴰ (request_of cjob)) (sym requests)
              (complete (cjob, at, refl, of_listed is_listed)),
      )
