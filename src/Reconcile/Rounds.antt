-- ===== src/Reconcile/Rounds.antt =====
-- What holds after each round of the loop over the certificates.
use certificate_job_operator.Prelude.{
  true, ◌||◌, some, List, [], ◌∷◌, map, Str, contains, Distinct, get_elem?, set, ==_iff, ◌≡◌, refl,
  sym, ap, arith, subst,
}
use certificate_job_operator.Api.{Certificate, CertificateExecutionState, CertificateJob}
use certificate_job_operator.Client.{Client}
use certificate_job_operator.Workflow.Graph.{build_workflow_graph, built}
use certificate_job_operator.Certificates.{merge}
use certificate_job_operator.Certificates.Kept.{
  AreOfOne, reconcile_observed_certificate-AreOfOne, reconcile_observed_certificate-returns,
}
use certificate_job_operator.Status.{
  certificate_key, key_of, Ensured, ensure_observed_certificate_state,
}
use certificate_job_operator.Status.Index.{IsIndexOf, ensure_observed_certificate_state_lem}
use certificate_job_operator.Reconcile.{
  WorkflowContext, Loop, reconcile_entry, reconcile_round, reconcile_each,
}
use certificate_job_operator.Reconcile.Entries.{
  keys_of, IsIndexOf-of_keys, keys_of-set, ensure-keys_of,
}

abbrev pub key_of_certificate : Certificate → Str
unfolding certificate_key
key_of_certificate cert = certificate_key cert.namespace cert.name

pub AreOfOne-key : {s s' : CertificateExecutionState} → AreOfOne s s' → key_of s' ≡ key_of s
unfolding certificate_key
AreOfOne-key one = ground arith

module _ (c : Client) where
  -- The index is right, every matched certificate has a state, and no certificate has two, if none
  -- had at the start.
  pub record IsGood (start : List Str) (l : Loop c) : Type 0 where
    pub index : IsIndexOf l.index l.observed
    pub distinct : Distinct start → Distinct (keys_of l.observed)
    pub matched :
        (k : Str) → contains l.matched_keys k ≡ true → contains (keys_of l.observed) k ≡ true

  module _ (start : List Str) (cjob : CertificateJob) (ctx : WorkflowContext c)
      (accepted : build_workflow_graph cjob.spec ≡ built ctx.graph) where
    entry-IsGood :
        (cert : Certificate) (e : Ensured) (entry : CertificateExecutionState) (l : Loop c)
        → IsGood start l
        → IsIndexOf e.index e.observed
        → get_elem? e.observed e.position ≡ some entry
        → contains (keys_of e.observed) (key_of_certificate cert) ≡ true
        → ((k : Str)
            → contains (keys_of l.observed) k ≡ true
            → contains (keys_of e.observed) k ≡ true)
        → (Distinct start → Distinct (keys_of e.observed))
        → (l' : Loop c) × (reconcile_entry c cjob ctx cert e entry l ≡ some l')
          × IsGood start l'
          × (l'.matched_keys ≡ key_of_certificate cert ∷ l.matched_keys)
    unfolding reconcile_entry
    entry-IsGood cert e entry l good right at has grows distinct =
        let (r, runs) =
          reconcile_observed_certificate-returns c cjob cert ctx.graph ctx.workflow_spec_hash
            ctx.now entry l.session accepted in
        let one =
          reconcile_observed_certificate-AreOfOne c cjob cert ctx.graph ctx.workflow_spec_hash
            ctx.now entry l.session {r = r} runs in
        let same_keys = keys_of-set e.observed e.position entry r.state at (AreOfOne-key one) in
        let l' : Loop c = record {
          index = e.index;
          observed = set e.observed e.position r.state;
          matched_keys = key_of_certificate cert ∷ l.matched_keys;
          progress = merge l.progress r.progress;
          session = r.session;
        } in
        (
          l',
          rw (runs, reconcile_entry) refl,
          record {
            index = IsIndexOf-of_keys e.index e.observed l'.observed same_keys right;
            distinct = λ d. subst Distinct (sym same_keys) (distinct d);
            matched = λ k m. rw same_keys (
                unfold contains in
                ground (arith, good.matched k, grows k, ==_iff (key_of_certificate cert) k));
          },
          refl,
        )

    -- A round returns and keeps all this, and matches the certificate.
    pub round-IsGood :
        (cert : Certificate) (l : Loop c)
        → IsGood start l
        → (l' : Loop c) × (reconcile_round c cjob ctx cert l ≡ some l')
          × IsGood start l'
          × (l'.matched_keys ≡ key_of_certificate cert ∷ l.matched_keys)
    unfolding reconcile_round
    round-IsGood cert l good =
        let e = ensure_observed_certificate_state l.index l.observed cert in
        let (right, (entry, at, same), _) =
          ensure_observed_certificate_state_lem l.index l.observed cert good.index in
        let (has, grows, distinct) = ensure-keys_of l.index l.observed cert good.index in
        let (l', runs, good', keys) =
          entry-IsGood cert e entry l good right at has grows (λ d. distinct (good.distinct d)) in
        (l', rw (at, reconcile_round) runs, good', keys)

    pub each-IsGood :
        (certs : List Certificate) (l : Loop c)
        → IsGood start l
        → (l' : Loop c) × (reconcile_each c cjob ctx certs l ≡ some l')
          × IsGood start l'
          × ((k : Str)
              → contains l'.matched_keys k
                ≡ (contains (map (λ x. key_of_certificate x) certs) k || contains l.matched_keys k))
    unfolding reconcile_each contains
    each-IsGood [] l good = (l, refl, good, λ k. refl)
    each-IsGood (cert ∷ certs) l good =
        let (l', runs, good', keys) = round-IsGood cert l good in
        let (l'', run_on, good'', found) = each-IsGood certs l' good' in
        (
          l'',
          rw (runs, reconcile_each) run_on,
          good'',
          λ k. ground (arith, found k, ap (λ x. contains x k) keys),
        )
