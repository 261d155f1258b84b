-- ===== src/Certificates.antt =====
-- One certificate in a reconcile: `reconcileObservedCertificate`, `applyInputHashTransition` and
-- `buildInputHash` (internal/controller/certificatejob_controller.go).
pub mod Rerun
pub mod Finished
pub mod Kept
pub mod Nodes
pub mod Reports
use certificate_job_operator.Prelude.{
  Bool, true, false, not, ◌&&◌, ◌||◌, Option, none, some, List, [], ◌∷◌, ◌++◌, Str, str, ◌==◌,
  if◌then◌else◌,
}
use certificate_job_operator.Api.{
  Time, pending, failed, Certificate, Secret, CertificateJob, CertificateJobTemplate,
  CertificateExecutionState,
}
use certificate_job_operator.Client.{
  Client, Session, ApiError, Response, ok, failed_with, InputPayload,
}
use certificate_job_operator.Workflow.Nodes.{is_failed, is_terminal_phase, initialize_node_states}
use certificate_job_operator.Workflow.Graph.{Graph}
use certificate_job_operator.Jobs.Name.{short_hash}
use certificate_job_operator.Run.{Outcome, reconcile_certificate_run}

pub record Progress : Type 0 where
  pub needs_requeue : Bool
  pub any_failed : Bool
  pub any_in_progress : Bool

abbrev pub no_progress : Progress
no_progress = record { needs_requeue = false; any_failed = false; any_in_progress = false }

abbrev pub in_progress : Progress
in_progress = record { needs_requeue = true; any_failed = false; any_in_progress = true }

unfoldable pub merge : Progress → Progress → Progress
merge p q = record {
  needs_requeue = p.needs_requeue || q.needs_requeue;
  any_failed = p.any_failed || q.any_failed;
  any_in_progress = p.any_in_progress || q.any_in_progress;
}

abbrev pub deferral_message : Str
deferral_message =
    str "input changed while workflow is running; deferring until current run completes"

unfoldable pub apply_input_hash_transition :
    List CertificateJobTemplate
    → Str
    → CertificateExecutionState
    → Str
    → Time
    → CertificateExecutionState
unfolding short_hash initialize_node_states is_terminal_phase ◌==◌
apply_input_hash_transition jobs secret_name state input_hash t =
    let changed = not (state.input_hash == input_hash) in
    if state.input_hash == [] || (changed && is_terminal_phase state.phase)
    then record state {
      secret_name = secret_name;
      input_hash = input_hash;
      run_id = short_hash input_hash 12;
      phase = pending;
      message = [];
      last_triggered_time = some t;
      last_completed_time = none;
      nodes = initialize_node_states jobs;
    }
    else if changed
    then record state { message = deferral_message }
    else state

-- A run that waits for its input: pending, with a message.
abbrev pub hold : CertificateExecutionState → Str → Str → CertificateExecutionState
hold state secret_name message = record state {
  secret_name = secret_name;
  phase = pending;
  message = message;
  last_completed_time = none;
}

module _ (c : Client) where
  open c use {World, get_secret, hash_string, marshal_input, error_text}

  unfoldable pub build_input_hash : Certificate → Secret → Str → Response Str
  build_input_hash cert secret workflow_spec_hash =
      elim (marshal_input (record {
        certificate_spec = cert.spec;
        certificate_status = cert.status;
        certificate_gen = cert.generation;
        secret_type = secret.type;
        secret_data = secret.entries;
        workflow_spec_hash = workflow_spec_hash;
      })) [ failed_with e ↦ failed_with e | ok serialized ↦ ok (hash_string serialized) ]

  -- The state that the pointer leaves behind, the session and the result.
  pub record Result : Type 0 where
    pub state : CertificateExecutionState
    pub session : Session World
    pub progress : Progress

  -- The two branches that leave a terminal run alone.
  abbrev pub wait_unless_terminal : CertificateExecutionState → Session World → Str → Str → Result
  wait_unless_terminal state s secret_name message =
      if is_terminal_phase state.phase
      then record { state = state; session = s; progress = no_progress }
      else record { state = hold state secret_name message; session = s; progress = in_progress }

  -- What follows the call of `reconcileCertificateRun`.
  abbrev pub report_run : Outcome c → Result
  report_run out = elim out.error [
    | some e ↦ record {
      state = record (out.state) {
        phase = pending;
        message = str "transient reconcile error: " ++ error_text e;
        last_completed_time = none;
      };
      session = out.session;
      progress = in_progress;
    }
    | none ↦ record {
      state = out.state;
      session = out.session;
      progress = record {
        needs_requeue = out.is_running;
        any_failed = out.has_failed || is_failed out.state.phase;
        any_in_progress = out.is_running;
      };
    }
  ]

  module _ (cjob : CertificateJob) (cert : Certificate) (graph : Graph) where
    -- From the second `isTerminalPhase(state.Phase)`; `none` is a panic.
    unfoldable pub run_unless_terminal : CertificateExecutionState → Session World → Option Result
    unfolding reconcile_certificate_run is_terminal_phase
    run_unless_terminal state s =
        if is_terminal_phase state.phase
        then some (record {
          state = state;
          session = s;
          progress = record no_progress { any_failed = is_failed state.phase };
        })
        else elim (reconcile_certificate_run c cjob cert graph state s) [
          | none ↦ none
          | some out ↦ some (report_run out)
        ]

    unfoldable pub with_secret :
        Str → Time → CertificateExecutionState → Session World → Secret → Option Result
    unfolding run_unless_terminal apply_input_hash_transition build_input_hash
    with_secret workflow_hash t state s secret = elim (build_input_hash cert secret workflow_hash) [
      | failed_with e ↦ some (
          wait_unless_terminal state s cert.spec.secret_name
            (str "unable to calculate input hash: " ++ error_text e))
      | ok input_hash ↦
          run_unless_terminal
            (apply_input_hash_transition cjob.spec.jobs cert.spec.secret_name state input_hash t) s
    ]

    unfoldable pub read_secret :
        Str → Time → CertificateExecutionState → Session World → Option Result
    unfolding with_secret
    read_secret workflow_hash t state s =
        let s' = record s { world = (get_secret s.world cert.namespace cert.spec.secret_name).0 } in
        elim ((get_secret s.world cert.namespace cert.spec.secret_name).1) [
          | failed_with e ↦ some (
              wait_unless_terminal state s' cert.spec.secret_name (
                str "waiting for readable secret "
                ++ cert.namespace
                ++ str "/"
                ++ cert.spec.secret_name
                ++ str ": "
                ++ error_text e))
          | ok secret ↦ with_secret workflow_hash t state s' secret
        ]

    unfoldable pub reconcile_observed_certificate :
        Str → Time → CertificateExecutionState → Session World → Option Result
    unfolding read_secret ◌==◌
    reconcile_observed_certificate workflow_hash t state s =
        if cert.spec.secret_name == []
        then some (record {
          state = record state {
            secret_name = [];
            phase = failed;
            message = str "certificate.spec.secretName is empty";
            last_completed_time = some t;
          };
          session = s;
          progress = record no_progress { any_failed = true };
        })
        else read_secret workflow_hash t state s
