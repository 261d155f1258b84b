-- ===== src/Certificates/Kept.antt =====
-- The result of a reconcile of a certificate (`reconcileObservedCertificate`), and its key.
use certificate_job_operator.Prelude.{
  some, List, [], Str, ◌==◌, ◌≡◌, ◌∙◌, inl, inr, arith, Option-cases, Bool-cases,
}
use certificate_job_operator.Api.{
  Time, Certificate, Secret, CertificateJob, CertificateExecutionState, WorkflowNodeState,
}
use certificate_job_operator.Client.{Client, Session, Response-cases}
use certificate_job_operator.Workflow.Nodes.{ensure_workflow_node_states}
use certificate_job_operator.Workflow.Failure.{apply_failure_policy}
use certificate_job_operator.Workflow.Graph.{Graph, build_workflow_graph, built}
use certificate_job_operator.Run.{
  Outcome, conclude_run, fill_slots, continue_run, reconcile_certificate_run,
}
use certificate_job_operator.Run.Observe.{Observation, observe_workflow_node_jobs}
use certificate_job_operator.Run.Safety.{reconcile_certificate_run-returns}
use certificate_job_operator.Certificates.{
  Result, apply_input_hash_transition, build_input_hash, run_unless_terminal, with_secret,
  read_secret, reconcile_observed_certificate,
}

-- Two states of one certificate.
pub record AreOfOne (s s' : CertificateExecutionState) : Type 0 where
  pub namespace : s'.namespace ≡ s.namespace
  pub name : s'.name ≡ s.name

module _ (c : Client) (cjob : CertificateJob) (cert : Certificate) (graph : Graph) where
  open c use {World, now, skip_time, get_secret}

  fill_slots-AreOfOne :
      (state : CertificateExecutionState) (t : Time) (o : Observation c)
      (nodes : List WorkflowNodeState) {out : Outcome c}
      → fill_slots c cjob cert graph state t o nodes ≡ some out
      → AreOfOne state out.state
  unfolding fill_slots conclude_run
  fill_slots-AreOfOne state t o nodes {out} h = ground arith

  reconcile_certificate_run-AreOfOne :
      (state : CertificateExecutionState) (s : Session World) {out : Outcome c}
      → reconcile_certificate_run c cjob cert graph state s ≡ some out
      → AreOfOne state out.state
  unfolding reconcile_certificate_run continue_run
  reconcile_certificate_run-AreOfOne state s {out} h =
      let nodes = ensure_workflow_node_states cjob.spec.jobs state.nodes in
      let o = observe_workflow_node_jobs c cert.namespace (now s.world) nodes s in
      elim (Option-cases o.error) [
        | inr (e, broken) ↦ ground arith
        | inl good ↦
            elim (Option-cases (
              apply_failure_policy (skip_time o.session.world) cjob.spec.failure_policy o.nodes
                graph.reverse o.failed_nodes)) [
                  | inl panic ↦ ground arith
                  | inr (nodes', e) ↦
                      fill_slots-AreOfOne state (now s.world) o nodes' {out = out} (ground arith)
                ]
      ]

  apply_input_hash_transition-AreOfOne :
      (state : CertificateExecutionState) (input_hash : Str) (t : Time)
      → AreOfOne state
          (apply_input_hash_transition cjob.spec.jobs cert.spec.secret_name state input_hash t)
  unfolding apply_input_hash_transition
  apply_input_hash_transition-AreOfOne state input_hash t = ground arith

  run_unless_terminal-AreOfOne :
      (state : CertificateExecutionState) (s : Session World) {r : Result c}
      → run_unless_terminal c cjob cert graph state s ≡ some r
      → AreOfOne state r.state
  unfolding run_unless_terminal
  run_unless_terminal-AreOfOne state s {r} h =
      elim (Option-cases (reconcile_certificate_run c cjob cert graph state s)) [
        | inl panic ↦ ground arith
        | inr (out, e) ↦
            let same = reconcile_certificate_run-AreOfOne state s {out = out} e in ground arith
      ]

  with_secret-AreOfOne :
      (workflow_hash : Str) (t : Time) (state : CertificateExecutionState) (s : Session World)
      (secret : Secret) {r : Result c}
      → with_secret c cjob cert graph workflow_hash t state s secret ≡ some r
      → AreOfOne state r.state
  unfolding with_secret
  with_secret-AreOfOne workflow_hash t state s secret {r} h =
      elim (Response-cases (build_input_hash c cert secret workflow_hash)) [
        | inr (inl e) ↦ ground arith
        | inr (inr (m, e)) ↦ ground arith
        | inl (input_hash, e) ↦
            let state' =
              apply_input_hash_transition cjob.spec.jobs cert.spec.secret_name state input_hash t in
            let moved = apply_input_hash_transition-AreOfOne state input_hash t in
            let same = run_unless_terminal-AreOfOne state' s {r = r} (ground arith) in
            record { namespace = same.namespace ∙ moved.namespace; name = same.name ∙ moved.name }
      ]

  -- A reconcile of a certificate keeps the two fields that tell its state from the others.
  pub reconcile_observed_certificate-AreOfOne :
      (workflow_hash : Str) (t : Time) (state : CertificateExecutionState) (s : Session World)
      {r : Result c}
      → reconcile_observed_certificate c cjob cert graph workflow_hash t state s ≡ some r
      → AreOfOne state r.state
  unfolding reconcile_observed_certificate read_secret
  reconcile_observed_certificate-AreOfOne workflow_hash t state s {r} h =
      let answer = get_secret s.world cert.namespace cert.spec.secret_name in
      elim (Bool-cases (cert.spec.secret_name == [])) [
        | inl unnamed ↦ ground arith
        | inr named ↦ elim (Response-cases (answer.1)) [
          | inr (inl e) ↦ ground arith
          | inr (inr (m, e)) ↦ ground arith
          | inl (secret, e) ↦
              with_secret-AreOfOne workflow_hash t state (record s { world = answer.0 }) secret
                {r = r} (ground arith)
        ]
      ]

  run_unless_terminal-returns :
      (state : CertificateExecutionState) (s : Session World)
      → build_workflow_graph cjob.spec ≡ built graph
      → (r : Result c) × (run_unless_terminal c cjob cert graph state s ≡ some r)
  unfolding run_unless_terminal
  run_unless_terminal-returns state s h =
      let (out, runs) = reconcile_certificate_run-returns c cjob cert graph state s h in
      elim (Option-cases (run_unless_terminal c cjob cert graph state s)) [
        | inr found ↦ found
        | inl panic ↦ absurd (ground arith)
      ]

  -- For a workflow that `buildWorkflowGraph` accepts, a reconcile of a certificate always returns.
  pub reconcile_observed_certificate-returns :
      (workflow_hash : Str) (t : Time) (state : CertificateExecutionState) (s : Session World)
      → build_workflow_graph cjob.spec ≡ built graph
      → (r : Result c) × (reconcile_observed_certificate c cjob cert graph workflow_hash t state s
          ≡ some r)
  unfolding reconcile_observed_certificate read_secret with_secret
  reconcile_observed_certificate-returns workflow_hash t state s h =
      let answer = get_secret s.world cert.namespace cert.spec.secret_name in
      let s' = record s { world = answer.0 } in
      elim (Option-cases
        (reconcile_observed_certificate c cjob cert graph workflow_hash t state s)) [
          | inr found ↦ found
          | inl panic ↦ absurd (elim (Response-cases (answer.1)) [
            | inr (inl e) ↦ ground arith
            | inr (inr (m, e)) ↦ ground arith
            | inl (secret, e) ↦
                elim (Response-cases (build_input_hash c cert secret workflow_hash)) [
                  | inr (inl x) ↦ ground arith
                  | inr (inr (m, x)) ↦ ground arith
                  | inl (input_hash, x) ↦
                      let (r, runs) =
                        run_unless_terminal-returns
                          (apply_input_hash_transition cjob.spec.jobs cert.spec.secret_name state
                            input_hash t)
                          s' h in
                      ground arith
                ]
          ])
        ]
