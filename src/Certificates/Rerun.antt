-- ===== src/Certificates/Rerun.antt =====
-- When a new input starts a new run (`applyInputHashTransition`).
use certificate_job_operator.Prelude.{
  true, false, none, some, List, [], map, Str, ==_iff, ◌==◌, inl, inr, Bool-cases, ◌≡◌, ◌≢◌, ◌⊎◌,
  arith, subst, sym,
}
use mathlib.Core.List.{Perm}
use certificate_job_operator.Api.{Time, pending, CertificateJobTemplate, CertificateExecutionState}
use certificate_job_operator.Workflow.Nodes.{is_terminal_phase, initialize_node_states, new_node}
use certificate_job_operator.Workflow.InOrder.{AreInOrder, initialize_node_states_lem}
use certificate_job_operator.Jobs.Name.{short_hash}
use certificate_job_operator.Certificates.{apply_input_hash_transition, deferral_message}

-- `state'` is a run that starts afresh after `state`, for the input of the hash, with the secret.
-- Nothing of the run before is left: the certificate alone is the same.
pub record IsFreshRun (jobs : List CertificateJobTemplate) (secret_name input_hash : Str) (t : Time)
    (state state' : CertificateExecutionState) : Type 0 where
  pub namespace : state'.namespace ≡ state.namespace
  pub name : state'.name ≡ state.name
  pub secret : state'.secret_name ≡ secret_name
  pub input : state'.input_hash ≡ input_hash
  pub run_id : state'.run_id ≡ short_hash input_hash 12
  pub phase : state'.phase ≡ pending
  pub no_message : state'.message ≡ []
  pub triggered : state'.last_triggered_time ≡ some t
  pub open_end : state'.last_completed_time ≡ none
  pub nodes : Perm state'.nodes (map (λ job. new_node job.name) jobs)
  pub in_order : AreInOrder state'.nodes

-- The input calls for a new run: there was none before, or it changed after the end of the run.
abbrev pub IsDue : CertificateExecutionState → Str → Type 0
IsDue state input_hash =
    (state.input_hash ≡ [])
    ⊎ ((state.input_hash ≢ input_hash) × (is_terminal_phase state.phase ≡ true))

-- The input changed while the run was going on.
abbrev pub IsTooEarly : CertificateExecutionState → Str → Type 0
IsTooEarly state input_hash =
    (state.input_hash ≢ [])
    × (state.input_hash ≢ input_hash)
    × (is_terminal_phase state.phase ≡ false)

-- When there was no input before, or the input changed and the run before is over, a run starts
-- afresh: pending, with the new hash, run ID, secret and start, with no message and no end, and with
-- one pending node that has no Job for each job of the workflow, as often as the workflow has it,
-- in the order of the names; of the state before only the certificate is kept. An input that
-- changes during a run alters nothing but the message. Otherwise the input is the one of before,
-- and nothing is altered.
pub apply_input_hash_transition_lem :
    (jobs : List CertificateJobTemplate) (secret_name : Str) (state : CertificateExecutionState)
    (input_hash : Str) (t : Time)
    → let state' = apply_input_hash_transition jobs secret_name state input_hash t in
      (IsDue state input_hash × IsFreshRun jobs secret_name input_hash t state state')
      ⊎ ((IsTooEarly state input_hash × (state' ≡ record state { message = deferral_message }))
          ⊎ (((state.input_hash ≢ []) × (state.input_hash ≡ input_hash)) × (state' ≡ state)))
unfolding apply_input_hash_transition
apply_input_hash_transition_lem jobs secret_name state input_hash t =
    let none_before = ==_iff state.input_hash [] in
    let same = ==_iff state.input_hash input_hash in
    let state' = apply_input_hash_transition jobs secret_name state input_hash t in
    let (exact, in_order) = initialize_node_states_lem jobs in
    let fresh : IsDue state input_hash → IsFreshRun jobs secret_name input_hash t state state' =
      λ due.
        let from : state'.nodes ≡ initialize_node_states jobs = ground arith in
        record {
          namespace = ground arith;
          name = ground arith;
          secret = ground arith;
          input = ground arith;
          run_id = ground arith;
          phase = ground arith;
          no_message = ground arith;
          triggered = ground arith;
          open_end = ground arith;
          nodes = subst (λ l. Perm l (map (λ job. new_node job.name) jobs)) (sym from) exact;
          in_order = subst AreInOrder (sym from) in_order;
        } in
    elim (Bool-cases (state.input_hash == [])) [
      | inl first ↦ inl (inl (none_before.0 first), fresh (inl (none_before.0 first)))
      | inr later ↦ elim (Bool-cases (state.input_hash == input_hash)) [
        | inl unchanged ↦ inr (inr ground arith)
        | inr changed ↦ elim (Bool-cases (is_terminal_phase state.phase)) [
          | inl over ↦ let due : IsDue state input_hash = ground arith in inl (due, fresh due)
          | inr busy ↦ inr (inl ground arith)
        ]
      ]
    ]
