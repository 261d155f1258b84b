-- ===== src/Reconcile/OwnNodes.antt =====
-- The nodes of the observed states in a reconcile (`reconcileCertificateJob`).
use certificate_job_operator.Prelude.{
  ℕ, zero, suc, some, List, [], ◌∷◌, Str, Map, contains, lookup, get_elem?, set, ◌≡◌, subst, inl,
  inr, All, All-append, arith, Option-cases, Bool-cases,
}
use certificate_job_operator.Api.{Certificate, CertificateExecutionState, CertificateJob}
use certificate_job_operator.Client.{Client, Session}
use certificate_job_operator.Workflow.Graph.{build_workflow_graph, built}
use certificate_job_operator.Certificates.{no_progress, reconcile_observed_certificate}
use certificate_job_operator.Certificates.Nodes.{
  HasOwnNodes, reconcile_observed_certificate-HasOwnNodes,
}
use certificate_job_operator.Status.{
  key_of, certificate_key, new_state, observed_state_index, Ensured,
  ensure_observed_certificate_state, filter_observed_states, apply_certificate_job_conditions,
}
use certificate_job_operator.Reconcile.{
  WorkflowContext, Loop, reconcile_entry, reconcile_round, reconcile_each, JobResult,
  reconcile_certificates,
}

abbrev pub AllHaveOwnNodes : List CertificateExecutionState → Type 0
AllHaveOwnNodes = All HasOwnNodes

entry-HasOwnNodes :
    (observed : List CertificateExecutionState) (i : ℕ) {s : CertificateExecutionState}
    → get_elem? observed i ≡ some s
    → AllHaveOwnNodes observed
    → HasOwnNodes s
entry-HasOwnNodes [] i h own = absurd (cc)
entry-HasOwnNodes (x ∷ observed) zero {s} h own =
    let same : x ≡ s = ground arith in subst HasOwnNodes same own.0
entry-HasOwnNodes (x ∷ observed) (suc i) {s} h own = entry-HasOwnNodes observed i {s = s} h own.1

set-HaveOwnNodes :
    (observed : List CertificateExecutionState) (i : ℕ) (s : CertificateExecutionState)
    → AllHaveOwnNodes observed
    → HasOwnNodes s
    → AllHaveOwnNodes (set observed i s)
set-HaveOwnNodes [] i s own h = tt
set-HaveOwnNodes (x ∷ observed) zero s own h = (h, own.1)
set-HaveOwnNodes (x ∷ observed) (suc i) s own h = (own.0, set-HaveOwnNodes observed i s own.1 h)

filter-HaveOwnNodes :
    (observed : List CertificateExecutionState) (keys : List Str)
    → AllHaveOwnNodes observed
    → AllHaveOwnNodes (filter_observed_states observed keys)
unfolding filter_observed_states
filter-HaveOwnNodes [] keys own = tt
filter-HaveOwnNodes (x ∷ observed) keys own = elim (Bool-cases (contains keys (key_of x))) [
  | inl matched ↦ rw matched (own.0, filter-HaveOwnNodes observed keys own.1)
  | inr other ↦ rw other (filter-HaveOwnNodes observed keys own.1)
]

ensure-HaveOwnNodes :
    (index : Map ℕ) (observed : List CertificateExecutionState) (cert : Certificate)
    → AllHaveOwnNodes observed
    → AllHaveOwnNodes (ensure_observed_certificate_state index observed cert).observed
unfolding ensure_observed_certificate_state
ensure-HaveOwnNodes index observed cert own =
    elim (Option-cases (lookup (certificate_key cert.namespace cert.name) index)) [
      | inr (i, found) ↦ rw (found, ensure_observed_certificate_state) own
      | inl absent ↦
          rw (absent, ensure_observed_certificate_state)
            (All-append HasOwnNodes observed (new_state cert ∷ []) own (tt, tt))
    ]

module _ (c : Client) (cjob : CertificateJob) (ctx : WorkflowContext c)
    (accepted : build_workflow_graph cjob.spec ≡ built ctx.graph) where
  entry-HaveOwnNodes :
      (cert : Certificate) (e : Ensured) (entry : CertificateExecutionState) (l : Loop c)
      {l' : Loop c}
      → reconcile_entry c cjob ctx cert e entry l ≡ some l'
      → AllHaveOwnNodes e.observed
      → HasOwnNodes entry
      → AllHaveOwnNodes l'.observed
  unfolding reconcile_entry
  entry-HaveOwnNodes cert e entry l {l'} h all own =
      elim (Option-cases (
        reconcile_observed_certificate c cjob cert ctx.graph ctx.workflow_spec_hash ctx.now entry
          l.session)) [
            | inl panic ↦ absurd (ground arith)
            | inr (r, runs) ↦
                let same : set e.observed e.position r.state ≡ l'.observed = ground arith in
                subst AllHaveOwnNodes same (
                  set-HaveOwnNodes e.observed e.position r.state all (
                    reconcile_observed_certificate-HasOwnNodes c cjob cert ctx.graph accepted
                      ctx.workflow_spec_hash ctx.now entry l.session {r = r} runs own))
          ]

  round-HaveOwnNodes :
      (cert : Certificate) (l : Loop c) {l' : Loop c}
      → reconcile_round c cjob ctx cert l ≡ some l'
      → AllHaveOwnNodes l.observed
      → AllHaveOwnNodes l'.observed
  unfolding reconcile_round
  round-HaveOwnNodes cert l {l'} h all =
      let e = ensure_observed_certificate_state l.index l.observed cert in
      let all' = ensure-HaveOwnNodes l.index l.observed cert all in
      elim (Option-cases (get_elem? e.observed e.position)) [
        | inl out_of_range ↦ absurd (ground arith)
        | inr (entry, at) ↦
            entry-HaveOwnNodes cert e entry l {l' = l'} (ground arith) all'
              (entry-HasOwnNodes e.observed e.position {s = entry} at all')
      ]

  each-HaveOwnNodes :
      (certs : List Certificate) (l : Loop c) {l' : Loop c}
      → reconcile_each c cjob ctx certs l ≡ some l'
      → AllHaveOwnNodes l.observed
      → AllHaveOwnNodes l'.observed
  unfolding reconcile_each
  each-HaveOwnNodes [] l {l'} h all =
      let same : l ≡ l' = ground arith in
      subst (λ (x : Loop c). AllHaveOwnNodes x.observed) same all
  each-HaveOwnNodes (cert ∷ certs) l {l'} h all =
      elim (Option-cases (reconcile_round c cjob ctx cert l)) [
        | inl panic ↦ absurd (ground arith)
        | inr (next, runs) ↦
            each-HaveOwnNodes certs next {l' = l'} (ground arith)
              (round-HaveOwnNodes cert l {l' = next} runs all)
      ]

  pub reconcile_certificates-HaveOwnNodes :
      (certs : List Certificate) (s : Session c.World) {r : JobResult c}
      → reconcile_certificates c cjob ctx certs s ≡ some r
      → AllHaveOwnNodes cjob.status.observed_certificates
      → AllHaveOwnNodes r.cjob.status.observed_certificates
  unfolding reconcile_certificates apply_certificate_job_conditions
  reconcile_certificates-HaveOwnNodes certs s {r} h all =
      let old = cjob.status.observed_certificates in
      let first : Loop c = record {
        index = observed_state_index old;
        observed = old;
        matched_keys = [];
        progress = no_progress;
        session = s;
      } in
      elim (Option-cases (reconcile_each c cjob ctx certs first)) [
        | inl panic ↦ absurd (ground arith)
        | inr (l, runs) ↦
            let same : filter_observed_states l.observed l.matched_keys
                ≡ r.cjob.status.observed_certificates =
              ground arith in
            subst AllHaveOwnNodes same (
              filter-HaveOwnNodes l.observed l.matched_keys
                (each-HaveOwnNodes certs first {l' = l} runs all))
      ]
