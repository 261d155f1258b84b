-- ===== src/Status.antt =====
-- The status of a CertificateJob: its observed states and its conditions
-- (internal/controller/certificatejob_controller.go).
pub mod Conditions
pub mod Index
use certificate_job_operator.Prelude.{
  ℕ, suc, true, false, none, some, List, [], ◌∷◌, ◌++◌, Str, Map, str, lookup, insert, length,
  contains, if◌then◌else◌, eqb,
}
use certificate_job_operator.Prelude.Int.{ℤ}
use certificate_job_operator.Api.{
  Time, pending, Certificate, Condition, CertificateExecutionState, CertificateJob,
}
use certificate_job_operator.Certificates.{Progress}

unfoldable pub certificate_key : (namespace name : Str) → Str
certificate_key namespace name = namespace ++ str "/" ++ name

abbrev pub key_of : CertificateExecutionState → Str
unfolding certificate_key
key_of state = certificate_key state.namespace state.name

-- The loop of `observedStateIndex`, from the entry at `i`.
unfoldable pub index_from : ℕ → List CertificateExecutionState → Map ℕ → Map ℕ
unfolding insert
index_from i [] index = index
index_from i (entry ∷ rest) index = index_from (suc i) rest (insert (key_of entry) i index)

unfoldable pub observed_state_index : List CertificateExecutionState → Map ℕ
unfolding index_from
observed_state_index observed = index_from 0 observed []

-- A state with the three fields that are set, and zero values elsewhere.
abbrev pub new_state : Certificate → CertificateExecutionState
new_state cert = record {
  namespace = cert.namespace;
  name = cert.name;
  secret_name = [];
  input_hash = [];
  run_id = [];
  phase = pending;
  message = [];
  last_triggered_time = none;
  last_completed_time = none;
  nodes = [];
}

pub record Ensured : Type 0 where
  pub index : Map ℕ
  pub observed : List CertificateExecutionState
  pub position : ℕ

-- The pointer that is returned is the position in the list.
unfoldable pub ensure_observed_certificate_state :
    Map ℕ → List CertificateExecutionState → Certificate → Ensured
unfolding lookup insert certificate_key
ensure_observed_certificate_state index observed cert =
    let key = certificate_key cert.namespace cert.name in
    elim (lookup key index) [
      | some i ↦ record { index = index; observed = observed; position = i }
      | none ↦ record {
        index = insert key (length observed) index;
        observed = observed ++ new_state cert ∷ [];
        position = length observed;
      }
    ]

unfoldable pub filter_observed_states :
    List CertificateExecutionState → List Str → List CertificateExecutionState
unfolding contains
filter_observed_states [] matched_keys = []
filter_observed_states (entry ∷ rest) matched_keys =
    let filtered = filter_observed_states rest matched_keys in
    if contains matched_keys (key_of entry) then entry ∷ filtered else filtered

-- `meta.SetStatusCondition`, and a reading of the clock for the condition of a type.
module _ (set_status_condition : List Condition → Condition → List Condition)
    (clock : Str → Time) where
  unfoldable pub set_condition :
      (type status reason message : Str) → ℤ → List Condition → List Condition
  set_condition type status reason message generation conditions =
      set_status_condition conditions (record {
        type = type;
        status = status;
        observed_generation = generation;
        reason = reason;
        message = message;
        last_transition_time = clock type;
      })

  -- The conditions after `applyInvalidSpecConditions`, with the text of the error.
  unfoldable pub apply_invalid_spec_conditions : Str → ℤ → List Condition → List Condition
  unfolding set_condition
  apply_invalid_spec_conditions error generation conditions =
      set_condition (str "Degraded") (str "True") (str "InvalidSpec") error generation (
        set_condition (str "Progressing") (str "False") (str "InvalidSpec")
          (str "reconciliation blocked by invalid spec") generation
          (set_condition (str "Ready") (str "False") (str "InvalidSpec") error generation
            conditions))

  -- The first `if` of `applyCertificateJobConditions`.
  unfoldable pub apply_outcome : ℕ → Progress → ℤ → List Condition → List Condition
  unfolding set_condition
  apply_outcome certificate_count progress generation conditions =
      let failure = str "one or more certificate workflows failed" in
      let none_match = eqb certificate_count 0 in
      let reason = if none_match then str "NoMatchingCertificates" else str "Reconciled" in
      let msg =
        if none_match
        then str "no matching certificates"
        else str "certificate-job workflow is ready" in
      if progress.any_failed
      then set_condition (str "Ready") (str "False") (str "WorkflowFailed") failure generation (
          set_condition (str "Degraded") (str "True") (str "WorkflowFailed") failure generation
            conditions)
      else set_condition (str "Ready") (str "True") reason msg generation (
          set_condition (str "Degraded") (str "False") (str "AsExpected")
            (str "no failed workflows") generation conditions)

  -- The second `if`.
  unfoldable pub apply_activity : Progress → ℤ → List Condition → List Condition
  unfolding set_condition
  apply_activity progress generation conditions =
      if progress.any_in_progress
      then set_condition (str "Progressing") (str "True") (str "WorkflowRunning")
          (str "one or more workflows are running") generation conditions
      else set_condition (str "Progressing") (str "False") (str "AsExpected")
          (str "no workflows are running") generation conditions

  unfoldable pub apply_certificate_job_conditions : CertificateJob → ℕ → Progress → CertificateJob
  unfolding apply_outcome apply_activity
  apply_certificate_job_conditions cjob certificate_count progress = record cjob {
    status = record (cjob.status) {
      conditions =
          apply_activity progress cjob.generation
            (apply_outcome certificate_count progress cjob.generation cjob.status.conditions);
    };
  }
