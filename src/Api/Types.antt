-- ===== src/Api/Types.antt =====
-- api/v1alpha1/certificatejob_types.go: the custom resource and its status.
use certificate_job_operator.Prelude.{Option, List, Str, Map}
use certificate_job_operator.Prelude.Int.{ℤ}
use certificate_job_operator.Api.Pod.{JobSpec}
use certificate_job_operator.Api.Objects.{Time}

-- A string type: the three constants, and any other string, the unset "" among them.
pub data FailurePolicy : Type 0 where
  stop_downstream continue_independent best_effort : FailurePolicy
  other_policy : Str → FailurePolicy

-- A string type: the five constants, and any other string.
pub data ExecutionPhase : Type 0 where
  pending running succeeded failed skipped : ExecutionPhase
  other_phase : Str → ExecutionPhase

pub record CertificateJobTemplate : Type 0 where
  pub name : Str
  pub labels : Map Str
  pub annotations : Map Str
  pub template : JobSpec

pub record CertificateWorkflowEdge : Type 0 where
  pub from : Str
  pub to : Str

pub record CertificateWorkflowSpec : Type 0 where
  pub edges : List CertificateWorkflowEdge

-- `metav1.LabelSelector`, which the source only hands on: its bytes.
abbrev pub LabelSelector : Type 0
LabelSelector = Str

pub record CertificateJobSpec : Type 0 where
  pub certificate_selector : LabelSelector
  pub jobs : List CertificateJobTemplate
  pub workflow : CertificateWorkflowSpec
  pub parallelism : Option ℤ
  pub job_ttl_seconds_after_finished : Option ℤ
  pub failure_policy : FailurePolicy

pub record WorkflowNodeState : Type 0 where
  pub name : Str
  pub job_name : Str
  pub phase : ExecutionPhase
  pub message : Str
  pub started_at : Option Time
  pub completed_at : Option Time

pub record CertificateExecutionState : Type 0 where
  pub namespace : Str
  pub name : Str
  pub secret_name : Str
  pub input_hash : Str
  pub run_id : Str
  pub phase : ExecutionPhase
  pub message : Str
  pub last_triggered_time : Option Time
  pub last_completed_time : Option Time
  pub nodes : List WorkflowNodeState

-- `metav1.Condition`.
pub record Condition : Type 0 where
  pub type : Str
  pub status : Str
  pub observed_generation : ℤ
  pub reason : Str
  pub message : Str
  pub last_transition_time : Time

pub record CertificateJobStatus : Type 0 where
  pub observed_certificates : List CertificateExecutionState
  pub conditions : List Condition

pub record CertificateJob : Type 0 where
  pub namespace : Str
  pub name : Str
  pub generation : ℤ
  pub spec : CertificateJobSpec
  pub status : CertificateJobStatus
