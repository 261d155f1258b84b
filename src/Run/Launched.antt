-- ===== src/Run/Launched.antt =====
-- The Jobs that a pass creates.
use certificate_job_operator.Prelude.{
  ℕ, zero, suc, Bool, true, false, Option, some, List, [], ◌∷◌, ◌++◌, Str, Map, ◌==◌, lookup,
  insert, lookup-insert, or_default, sort_strings, ◌≡◌, refl, sym, ap, ◌∙◌, ◌≢◌, inl, inr, All,
  All-append, arith, if◌then◌else◌, Option-cases, subst,
}
use mathlib.Core.List.{append-nil, append_assoc}
use certificate_job_operator.Api.{
  Time, Job, Certificate, CertificateJob, CertificateJobTemplate, WorkflowNodeState,
}
use certificate_job_operator.Client.{Client, Session, ok, Response-cases}
use certificate_job_operator.JobSecurity.Policy.{IsRestricted}
use certificate_job_operator.JobSecurity.Hardening.{IsHardened}
use certificate_job_operator.Jobs.{
  templates_from, job_templates_by_name, template_of, zero_template, new_job, base_labels,
  requested_job_ttl,
}
use certificate_job_operator.Jobs.Created.{IsSupplied, job_spec-IsHardened}
use certificate_job_operator.Workflow.Nodes.{update_node}
use certificate_job_operator.Workflow.Runnable.{runnable_nodes}
use certificate_job_operator.Run.Schedule.{
  start_node, job_name_of, job_of, Scheduled, create_with, create_missing, launch, schedule_from,
  schedule_runnable_nodes,
}

abbrev pub HasRestrictedPod : CertificateJobTemplate → Type 0
HasRestrictedPod tmpl = IsRestricted tmpl.template.template.spec

zero_template-restricted : HasRestrictedPod zero_template
zero_template-restricted = record {
  own_network = refl;
  own_pid = refl;
  own_ipc = refl;
  default_account = refl;
  no_token = λ e. cc;
  context = tt;
  volumes = tt;
  init_containers = tt;
  containers = tt;
}

templates_from-restricted :
    (jobs : List CertificateJobTemplate) (m : Map CertificateJobTemplate) (name : Str)
    → All HasRestrictedPod jobs
    → HasRestrictedPod (or_default (lookup name m) zero_template)
    → HasRestrictedPod (or_default (lookup name (templates_from jobs m)) zero_template)
unfolding templates_from
templates_from-restricted [] m name h k = k
templates_from-restricted (tmpl ∷ tmpls) m name (h, hs) k =
    templates_from-restricted tmpls (insert tmpl.name tmpl m) name hs
      (rw (lookup-insert tmpl.name name tmpl m) (pick (tmpl.name == name)))
  where
    pick :
        (b : Bool)
        → HasRestrictedPod (or_default (if b then some tmpl else lookup name m) zero_template)
    pick true = h
    pick false = k

-- The template of a node is one of the workflow's, or the zero value.
template_of-restricted :
    (jobs : List CertificateJobTemplate) (name : Str)
    → All HasRestrictedPod jobs
    → HasRestrictedPod (template_of jobs name)
unfolding template_of job_templates_by_name
template_of-restricted jobs name h =
    templates_from-restricted jobs [] name h (unfold lookup in zero_template-restricted)

module _ (c : Client) (cjob : CertificateJob) (cert : Certificate) (run_id : Str) where
  open c use {World, get_job, create_job, set_controller_reference}

  -- `SetControllerReference` sets the owner reference, and nothing else.
  abbrev pub OnlySetsOwner : Type 0
  OnlySetsOwner =
      (job job' : Job)
      → set_controller_reference cjob job ≡ ok job'
      → (owner : Option Str) × (job' ≡ record job { owner = owner })

  -- A Job for the certificate that is safe to run, and has the secret.
  pub record IsSafeJob (job : Job) : Type 0 where
    pub namespace : job.namespace ≡ cert.namespace
    pub hardened : IsHardened job.spec.template.spec
    pub supplied : IsSupplied cert.spec.secret_name job.spec.template.spec

  -- The Jobs created so far are those of before and safe ones.
  abbrev pub AddsSafeJobs : Session World → Session World → Type 0
  AddsSafeJobs s s' = (jobs : List Job) × (s'.created ≡ s.created ++ jobs) × All IsSafeJob jobs

  job_of-IsSafeJob :
      (name : Str)
      → All HasRestrictedPod cjob.spec.jobs
      → cert.spec.secret_name ≢ []
      → IsSafeJob (job_of c cjob cert run_id name)
  unfolding new_job
  job_of-IsSafeJob name ok_templates named =
      let (hard, supplied) =
        job_spec-IsHardened (base_labels cjob.name cert.name cert.namespace name run_id)
          (template_of cjob.spec.jobs name) (requested_job_ttl cjob.spec) cert.spec.secret_name
          (template_of-restricted cjob.spec.jobs name ok_templates) named in
      record { namespace = refl; hardened = hard; supplied = supplied }

  nothing_added : (s s' : Session World) → s'.created ≡ s.created → AddsSafeJobs s s'
  nothing_added s s' e = ([], e ∙ sym (append-nil _), tt)

  create_with-safe :
      (job : Job) (s : Session World)
      → IsSafeJob job
      → AddsSafeJobs s (create_with c cjob cert run_id job s).0
  unfolding create_with
  create_with-safe job s safe = elim (Option-cases ((create_job s.world job).1)) [
    | inl done ↦ (job ∷ [], ground arith, (safe, tt))
    | inr (e, refused) ↦ ([], rw (refused, create_with) (sym (append-nil _)), tt)
  ]

  module _ (owner_only : OnlySetsOwner) (restricted : All HasRestrictedPod cjob.spec.jobs)
      (named : cert.spec.secret_name ≢ []) where
    create_missing-safe :
        (name : Str) (s : Session World)
        → AddsSafeJobs s (create_missing c cjob cert run_id name s).0
    unfolding create_missing
    create_missing-safe name s =
        let job = job_of c cjob cert run_id name in
        elim (Response-cases (set_controller_reference cjob job)) [
          | inl (job', e) ↦
              let (owner, same) = owner_only job job' e in
              let safe = job_of-IsSafeJob name restricted named in
              rw (e, create_missing)
                (create_with-safe job' s (
                  rw same (record {
                    namespace = safe.namespace;
                    hardened = safe.hardened;
                    supplied = safe.supplied;
                  })))
          | inr (inl e) ↦ rw (e, create_missing) (nothing_added s s refl)
          | inr (inr (m, e)) ↦ rw (e, create_missing) (nothing_added s s refl)
        ]

    launch-safe :
        (name : Str) (s : Session World) → AddsSafeJobs s (launch c cjob cert run_id name s).0
    unfolding launch
    launch-safe name s =
        let r = get_job s.world cert.namespace (job_name_of c cjob cert run_id name) in
        elim (Response-cases (r.1)) [
          | inl (found, e) ↦ rw (e, launch) (nothing_added s (record s { world = r.0 }) refl)
          | inr (inl e) ↦ rw (e, launch) (create_missing-safe name (record s { world = r.0 }))
          | inr (inr (m, e)) ↦ rw (e, launch) (nothing_added s (record s { world = r.0 }) refl)
        ]

    adds_trans :
        (s s' s'' : Session World) → AddsSafeJobs s s' → AddsSafeJobs s' s'' → AddsSafeJobs s s''
    adds_trans s s' s'' (jobs, e, safe) (more, e', safe') = (
      jobs ++ more,
      e' ∙ ap (λ l. l ++ more) e ∙ append_assoc s.created jobs more,
      All-append IsSafeJob jobs more safe safe',
    )

    schedule_from-safe :
        (names : List Str) (t : Time) (slots : ℕ) (nodes : List WorkflowNodeState)
        (s : Session World)
        → AddsSafeJobs s (schedule_from c cjob cert run_id names t slots nodes s).session
    unfolding schedule_from
    schedule_from-safe [] t slots nodes s = nothing_added s s refl
    schedule_from-safe (name ∷ names) t zero nodes s = nothing_added s s refl
    schedule_from-safe (name ∷ names) t (suc slots) nodes s =
        let next = (launch c cjob cert run_id name s).0 in
        let rest =
          schedule_from-safe names t slots
            (update_node name (start_node (job_name_of c cjob cert run_id name) t) nodes) next in
        let final =
          schedule_from c cjob cert run_id names t slots
            (update_node name (start_node (job_name_of c cjob cert run_id name) t) nodes) next in
        elim (Option-cases ((launch c cjob cert run_id name s).1)) [
          | inl fine ↦
              rw (fine, schedule_from) (adds_trans s next final.session (launch-safe name s) rest)
          | inr (e, broken) ↦ rw (broken, schedule_from) (launch-safe name s)
        ]

    -- With templates that the policy accepts and a certificate that has a secret, every Job that
    -- `scheduleRunnableNodes` creates is in the certificate's namespace, its pod is hardened, and
    -- all its containers mount the secret; the Jobs created before stay in the record as they are.
    pub schedule_runnable_nodes-safe :
        (deps : Map (List Str)) (t : Time) (slots : ℕ) (nodes : List WorkflowNodeState)
        (s : Session World) {sch : Scheduled c cjob cert run_id}
        → schedule_runnable_nodes c cjob cert run_id deps t slots nodes s ≡ some sch
        → AddsSafeJobs s sch.session
    unfolding schedule_runnable_nodes
    schedule_runnable_nodes-safe deps t slots nodes s {sch} h =
        elim (Option-cases (runnable_nodes cjob.spec.failure_policy nodes deps)) [
          | inl panic ↦ ground arith
          | inr (names, e) ↦
              let same : schedule_from c cjob cert run_id (sort_strings names) t slots nodes s
                  ≡ sch =
                ground arith in
              subst (λ (x : Scheduled c cjob cert run_id). AddsSafeJobs s x.session) {y = sch} same
                (schedule_from-safe (sort_strings names) t slots nodes s)
        ]
