-- ===== src/Reconcile/Counted.antt =====
-- What holds of the progress after each round of the loop over the certificates.
use certificate_job_operator.Prelude.{
  Bool, true, false, not, ◌||◌, some, List, [], ◌∷◌, Str, contains, Distinct, set, ==_iff, All, ◌≡◌,
  ◌≢◌, refl, ap, ◌∙◌, arith, subst,
}
use certificate_job_operator.Api.{
  ExecutionPhase, Certificate, CertificateExecutionState, CertificateJob, Secret,
}
use certificate_job_operator.Client.{Client, Session, ok}
use certificate_job_operator.Workflow.Nodes.{is_failed, is_terminal_phase}
use certificate_job_operator.Workflow.Graph.{build_workflow_graph, built}
use certificate_job_operator.Certificates.{
  Progress, merge, Result, build_input_hash, reconcile_observed_certificate,
}
use certificate_job_operator.Certificates.Kept.{
  reconcile_observed_certificate-AreOfOne, reconcile_observed_certificate-returns,
}
use certificate_job_operator.Certificates.Reports.{IsReport, readable_secret_is_reported}
use certificate_job_operator.Status.{ensure_observed_certificate_state}
use certificate_job_operator.Status.Index.{ensure_observed_certificate_state_lem}
use certificate_job_operator.Reconcile.{
  WorkflowContext, Loop, reconcile_entry, reconcile_round, reconcile_each,
}
use certificate_job_operator.Reconcile.Entries.{ensure-keys_of}
use certificate_job_operator.Reconcile.Rounds.{
  key_of_certificate, AreOfOne-key, IsGood, round-IsGood,
}
use certificate_job_operator.Reconcile.Tally.{tally, tally-set, tally-ensure}
use certificate_job_operator.Reconcile.Total.{keys_of_certificates}

abbrev pub goes_on : ExecutionPhase → Bool
unfolding is_terminal_phase
goes_on p = not (is_terminal_phase p)

-- The progress says of the states whether some failed and whether some go on.
pub record IsTally (p : Progress) (keys : List Str) (observed : List CertificateExecutionState)
    : Type 0 where
  pub failure : p.any_failed ≡ tally is_failed keys observed
  pub activity : p.any_in_progress ≡ tally goes_on keys observed
  pub requeue : p.needs_requeue ≡ p.any_in_progress

module _ (c : Client) where
  open c use {World, get_secret, set_status_condition, condition_time}

  -- The certificate names no secret, or one that can be read at any time, and its input can then be
  -- hashed.
  pub data IsReadable (workflow_hash : Str) (cert : Certificate) : Type 0 where
    names_none : cert.spec.secret_name ≡ [] → IsReadable workflow_hash cert
    readable :
        (secret : Secret) (input_hash : Str)
        → cert.spec.secret_name ≢ []
        → ((w : World) → (get_secret w cert.namespace cert.spec.secret_name).1 ≡ ok secret)
        → build_input_hash c cert secret workflow_hash ≡ ok input_hash
        → IsReadable workflow_hash cert

  module _ (cjob : CertificateJob) (ctx : WorkflowContext c)
      (accepted : build_workflow_graph cjob.spec ≡ built ctx.graph) where
    certificate-IsReport :
        (cert : Certificate) (state : CertificateExecutionState) (s : Session World) {r : Result c}
        → IsReadable ctx.workflow_spec_hash cert
        → reconcile_observed_certificate c cjob cert ctx.graph ctx.workflow_spec_hash ctx.now state
            s
          ≡ some r
        → IsReport r.state r.progress
    unfolding reconcile_observed_certificate is_terminal_phase
    certificate-IsReport cert state s {r} (names_none unnamed) h =
        ground (arith, ==_iff cert.spec.secret_name [])
    certificate-IsReport cert state s {r} (readable secret input_hash named reads hashed) h =
        readable_secret_is_reported c cjob cert ctx.graph ctx.workflow_spec_hash ctx.now state s
          {secret = secret} {input_hash = input_hash} {r = r} named (reads s.world) hashed h

    -- A round over a certificate that was not visited yet.
    round-IsTally :
        (start : List Str) (cert : Certificate) (l : Loop c) {l' : Loop c}
        → Distinct start
        → IsGood c start l
        → IsTally l.progress l.matched_keys l.observed
        → IsReadable ctx.workflow_spec_hash cert
        → contains l.matched_keys (key_of_certificate cert) ≡ false
        → reconcile_round c cjob ctx cert l ≡ some l'
        → IsTally l'.progress l'.matched_keys l'.observed
    unfolding reconcile_round reconcile_entry merge
    round-IsTally start cert l {l'} d good counted reads fresh h =
        let e = ensure_observed_certificate_state l.index l.observed cert in
        let (_, (entry, at, same), _) =
          ensure_observed_certificate_state_lem l.index l.observed cert good.index in
        let (_, _, distinct) = ensure-keys_of l.index l.observed cert good.index in
        let (r, runs) =
          reconcile_observed_certificate-returns c cjob cert ctx.graph ctx.workflow_spec_hash
            ctx.now entry l.session accepted in
        let one =
          reconcile_observed_certificate-AreOfOne c cjob cert ctx.graph ctx.workflow_spec_hash
            ctx.now entry l.session {r = r} runs in
        let report = certificate-IsReport cert entry l.session {r = r} reads runs in
        let next : Loop c = record {
          index = e.index;
          observed = set e.observed e.position r.state;
          matched_keys = key_of_certificate cert ∷ l.matched_keys;
          progress = merge l.progress r.progress;
          session = r.session;
        } in
        let grows : (p : ExecutionPhase → Bool)
            → tally p next.matched_keys next.observed
              ≡ (tally p l.matched_keys l.observed || p r.state.phase) =
          λ p.
            subst
              (λ k.
                tally p (k ∷ l.matched_keys) (set e.observed e.position r.state)
                ≡ (tally p l.matched_keys e.observed || p r.state.phase))
              same
              (tally-set p l.matched_keys e.observed e.position entry r.state at (AreOfOne-key one)
                (distinct (good.distinct d)) (ap (contains l.matched_keys) same ∙ fresh))
            ∙ ap (λ b. b || p r.state.phase)
                (tally-ensure p l.matched_keys l.index l.observed cert fresh) in
        let is_next : next ≡ l' = ground arith in
        subst (λ (x : Loop c). IsTally x.progress x.matched_keys x.observed) is_next
          (record {
            failure = ground (arith, grows is_failed, counted.failure, report.failure);
            activity = ground (arith, grows goes_on, counted.activity, report.activity);
            requeue = ground (arith, counted.requeue, report.requeue);
          })

    pub each-IsTally :
        (start : List Str) (certs : List Certificate) (l : Loop c)
        → Distinct start
        → IsGood c start l
        → IsTally l.progress l.matched_keys l.observed
        → All (IsReadable ctx.workflow_spec_hash) certs
        → Distinct (keys_of_certificates certs)
        → ((k : Str)
            → contains (keys_of_certificates certs) k ≡ true
            → contains l.matched_keys k ≡ false)
        → (l' : Loop c) × (reconcile_each c cjob ctx certs l ≡ some l')
          × IsTally l'.progress l'.matched_keys l'.observed
    unfolding reconcile_each contains
    each-IsTally start [] l d good counted reads own fresh = (l, refl, counted)
    each-IsTally start (cert ∷ certs) l d good counted (reads, more) own fresh =
        let key = key_of_certificate cert in
        let (l', runs, good', keys) = round-IsGood c start cjob ctx accepted cert l good in
        let counted' =
          round-IsTally start cert l {l' = l'} d good counted reads
            (fresh key (ground (arith, ==_iff key key))) runs in
        let (l'', run_on, counted'') =
          each-IsTally start certs l' d good' counted' more own.1
            (λ k m. ground (arith, fresh k, ==_iff key k, own.0, ap (λ x. contains x k) keys)) in
        (l'', rw (runs, reconcile_each) run_on, counted'')
