-- ===== src/Status/Conditions.antt =====
-- What the conditions of a CertificateJob say after a reconcile.
use certificate_job_operator.Prelude.{
  ℕ, Bool, true, false, not, ◌∙◌, Option, none, some, List, [], ◌∷◌, Str, str, ◌==◌, ◌≡◌,
  if◌then◌else◌,
}
use certificate_job_operator.Prelude.Int.{ℤ}
use certificate_job_operator.Api.{Time, Condition, CertificateJob}
use certificate_job_operator.Certificates.{Progress}
use certificate_job_operator.Status.{
  set_condition, apply_invalid_spec_conditions, apply_outcome, apply_activity,
  apply_certificate_job_conditions,
}

-- The status of the first condition of a type.
unfoldable pub status_of : Str → List Condition → Option Str
status_of type [] = none
status_of type (c ∷ cs) = if c.type == type then some c.status else status_of type cs

-- `SetStatusCondition` sets the status of the condition of its type, and of no other.
abbrev pub SetsStatus : (List Condition → Condition → List Condition) → Type 0
SetsStatus set =
    (cs : List Condition) (c : Condition) (type : Str)
    → status_of type (set cs c) ≡ (if c.type == type then some c.status else status_of type cs)

-- The three conditions have the given statuses.
pub record IsReported (is_ready is_progressing is_degraded : Str) (cs : List Condition)
    : Type 0 where
  pub ready : status_of (str "Ready") cs ≡ some is_ready
  pub progressing : status_of (str "Progressing") cs ≡ some is_progressing
  pub degraded : status_of (str "Degraded") cs ≡ some is_degraded

abbrev pub truth : Bool → Str
truth b = if b then str "True" else str "False"

module _ (set : List Condition → Condition → List Condition) (sets : SetsStatus set)
    (clock : Str → Time) where
  apply_outcome-status :
      (n : ℕ) (failure busy requeue : Bool) (g : ℤ) (cs : List Condition)
      → let p : Progress = record {
        needs_requeue = requeue;
        any_failed = failure;
        any_in_progress = busy;
      } in
        let cs' = apply_outcome set clock n p g cs in
        (status_of (str "Ready") cs' ≡ some (truth (not failure)))
        × (status_of (str "Degraded") cs' ≡ some (truth failure))
  unfolding apply_outcome set_condition ◌==◌
  apply_outcome-status n true busy requeue g cs = (sets _ _ _, sets _ _ _ ∙ sets _ _ _)
  apply_outcome-status n false busy requeue g cs = (sets _ _ _, sets _ _ _ ∙ sets _ _ _)

  apply_activity-status :
      (failure busy requeue : Bool) (g : ℤ) (cs : List Condition)
      → let p : Progress = record {
        needs_requeue = requeue;
        any_failed = failure;
        any_in_progress = busy;
      } in
        let cs' = apply_activity set clock p g cs in
        (status_of (str "Progressing") cs' ≡ some (truth busy))
        × (status_of (str "Ready") cs' ≡ status_of (str "Ready") cs)
        × (status_of (str "Degraded") cs' ≡ status_of (str "Degraded") cs)
  unfolding apply_activity set_condition ◌==◌
  apply_activity-status failure true requeue g cs = (sets _ _ _, sets _ _ _, sets _ _ _)
  apply_activity-status failure false requeue g cs = (sets _ _ _, sets _ _ _, sets _ _ _)

  -- The three conditions follow from the progress, whatever they were before.
  pub apply_certificate_job_conditions_lem :
      (cjob : CertificateJob) (certificate_count : ℕ) (progress : Progress)
      → IsReported
          (truth (not progress.any_failed))
          (truth progress.any_in_progress)
          (truth progress.any_failed)
          (apply_certificate_job_conditions set clock cjob certificate_count
            progress).status.conditions
  unfolding apply_certificate_job_conditions
  apply_certificate_job_conditions_lem cjob n p =
      let cs = cjob.status.conditions in
      let g = cjob.generation in
      let (ready, degraded) =
        apply_outcome-status n p.any_failed p.any_in_progress p.needs_requeue g cs in
      let (progressing, keeps_ready, keeps_degraded) =
        apply_activity-status p.any_failed p.any_in_progress p.needs_requeue g
          (apply_outcome set clock n p g cs) in
      record {
        ready = keeps_ready ∙ ready;
        progressing = progressing;
        degraded = keeps_degraded ∙ degraded;
      }

  -- An invalid workflow is reported as neither ready nor progressing, and as degraded, whatever the
  -- conditions were before. `SetStatusCondition` sets the status of one type of condition.
  pub apply_invalid_spec_conditions_lem :
      (error : Str) (generation : ℤ) (cs : List Condition)
      → IsReported
          (str "False")
          (str "False")
          (str "True")
          (apply_invalid_spec_conditions set clock error generation cs)
  unfolding apply_invalid_spec_conditions set_condition ◌==◌
  apply_invalid_spec_conditions_lem error generation cs = record {
    ready = sets _ _ _ ∙ sets _ _ _ ∙ sets _ _ _;
    progressing = sets _ _ _ ∙ sets _ _ _;
    degraded = sets _ _ _;
  }
