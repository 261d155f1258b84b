-- ===== src/Certificates/Nodes.antt =====
-- The nodes of a state in a reconcile of its certificate (`reconcileObservedCertificate`).
use certificate_job_operator.Prelude.{
  some, [], Str, ◌==◌, ◌≡◌, sym, inl, inr, arith, Option-cases, Bool-cases, subst, Distinct,
}
use certificate_job_operator.Api.{
  Time, Certificate, Secret, CertificateJob, CertificateExecutionState,
}
use certificate_job_operator.Client.{Client, Session, Response-cases}
use certificate_job_operator.Workflow.Nodes.{is_terminal_phase}
use certificate_job_operator.Workflow.OwnNodes.{
  HaveOwnNodes, initialize-HaveOwnNodes, ensure-HaveOwnNodes,
}
use certificate_job_operator.Workflow.Graph.{Graph, build_workflow_graph, built}
use certificate_job_operator.Workflow.Graph.Fill.{job_names_of}
use certificate_job_operator.Workflow.Graph.Built.{build_workflow_graph_sound}
use certificate_job_operator.Run.{Outcome, reconcile_certificate_run}
use certificate_job_operator.Run.Names.{reconcile_certificate_run-names}
use certificate_job_operator.Certificates.{
  Result, apply_input_hash_transition, build_input_hash, run_unless_terminal, with_secret,
  read_secret, reconcile_observed_certificate,
}

-- No two nodes of the state have one name.
abbrev pub HasOwnNodes : CertificateExecutionState → Type 0
HasOwnNodes state = HaveOwnNodes state.nodes

same_nodes :
    (state state' : CertificateExecutionState)
    → state'.nodes ≡ state.nodes
    → HasOwnNodes state
    → HasOwnNodes state'
same_nodes state state' e own = subst HaveOwnNodes (sym e) own

module _ (c : Client) (cjob : CertificateJob) (cert : Certificate) (graph : Graph)
    (accepted : build_workflow_graph cjob.spec ≡ built graph) where
  open c use {World, get_secret}

  job_names-Distinct : Distinct (job_names_of cjob.spec.jobs)
  job_names-Distinct = (build_workflow_graph_sound cjob.spec accepted).0.distinct

  transition-HasOwnNodes :
      (state : CertificateExecutionState) (input_hash : Str) (t : Time)
      → HasOwnNodes state
      → HasOwnNodes
          (apply_input_hash_transition cjob.spec.jobs cert.spec.secret_name state input_hash t)
  unfolding apply_input_hash_transition
  transition-HasOwnNodes state input_hash t own =
      let fresh = initialize-HaveOwnNodes cjob.spec.jobs job_names-Distinct in
      elim (Bool-cases (state.input_hash == [])) [
        | inl first ↦ rw first fresh
        | inr later ↦ elim (Bool-cases (state.input_hash == input_hash)) [
          | inl same ↦ rw (later, same) own
          | inr changed ↦ elim (Bool-cases (is_terminal_phase state.phase)) [
            | inl over ↦ rw (later, changed, over) fresh
            | inr going ↦ rw (later, changed, going) own
          ]
        ]
      ]

  run-HasOwnNodes :
      (state : CertificateExecutionState) (s : Session World) {out : Outcome c}
      → reconcile_certificate_run c cjob cert graph state s ≡ some out
      → HasOwnNodes state
      → HasOwnNodes out.state
  run-HasOwnNodes state s {out} h own =
      subst Distinct (sym (reconcile_certificate_run-names c cjob cert graph state s accepted h))
        (ensure-HaveOwnNodes cjob.spec.jobs state.nodes job_names-Distinct own)

  run_unless_terminal-HasOwnNodes :
      (state : CertificateExecutionState) (s : Session World) {r : Result c}
      → run_unless_terminal c cjob cert graph state s ≡ some r
      → HasOwnNodes state
      → HasOwnNodes r.state
  unfolding run_unless_terminal
  run_unless_terminal-HasOwnNodes state s {r} h own =
      elim (Bool-cases (is_terminal_phase state.phase)) [
        | inl over ↦ same_nodes state r.state (ground arith) own
        | inr going ↦ elim (Option-cases (reconcile_certificate_run c cjob cert graph state s)) [
          | inl panic ↦ absurd (ground arith)
          | inr (out, e) ↦
              same_nodes out.state r.state (ground arith)
                (run-HasOwnNodes state s {out = out} e own)
        ]
      ]

  with_secret-HasOwnNodes :
      (workflow_hash : Str) (t : Time) (state : CertificateExecutionState) (s : Session World)
      (secret : Secret) {r : Result c}
      → with_secret c cjob cert graph workflow_hash t state s secret ≡ some r
      → HasOwnNodes state
      → HasOwnNodes r.state
  unfolding with_secret
  with_secret-HasOwnNodes workflow_hash t state s secret {r} h own =
      elim (Response-cases (build_input_hash c cert secret workflow_hash)) [
        | inr (inl e) ↦ same_nodes state r.state (ground arith) own
        | inr (inr (m, e)) ↦ same_nodes state r.state (ground arith) own
        | inl (input_hash, e) ↦
            run_unless_terminal-HasOwnNodes
              (apply_input_hash_transition cjob.spec.jobs cert.spec.secret_name state input_hash t)
              s {r = r} (ground arith) (transition-HasOwnNodes state input_hash t own)
      ]

  pub reconcile_observed_certificate-HasOwnNodes :
      (workflow_hash : Str) (t : Time) (state : CertificateExecutionState) (s : Session World)
      {r : Result c}
      → reconcile_observed_certificate c cjob cert graph workflow_hash t state s ≡ some r
      → HasOwnNodes state
      → HasOwnNodes r.state
  unfolding reconcile_observed_certificate read_secret
  reconcile_observed_certificate-HasOwnNodes workflow_hash t state s {r} h own =
      let answer = get_secret s.world cert.namespace cert.spec.secret_name in
      elim (Bool-cases (cert.spec.secret_name == [])) [
        | inl unnamed ↦ same_nodes state r.state (ground arith) own
        | inr named ↦ elim (Response-cases (answer.1)) [
          | inr (inl e) ↦ same_nodes state r.state (ground arith) own
          | inr (inr (m, e)) ↦ same_nodes state r.state (ground arith) own
          | inl (secret, e) ↦
              with_secret-HasOwnNodes workflow_hash t state (record s { world = answer.0 }) secret
                {r = r} (ground arith) own
        ]
      ]
