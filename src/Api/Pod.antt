-- ===== src/Api/Pod.antt =====
-- The parts of k8s.io/api (core/v1 and batch/v1) that the source reads or writes. A record has the
-- fields that some line of the source names; the code never looks at the others. A pointer is an
-- option, a nil slice or map is the empty list.
use certificate_job_operator.Prelude.{Bool, Option, List, Str, Map, str}
use certificate_job_operator.Prelude.Int.{ℤ}

pub record SeccompProfile : Type 0 where
  pub type : Str

abbrev pub runtime_default : SeccompProfile
runtime_default = record { type = str "RuntimeDefault" }

pub record Capabilities : Type 0 where
  pub add : List Str
  pub drop : List Str

pub record SecurityContext : Type 0 where
  pub privileged : Option Bool
  pub allow_privilege_escalation : Option Bool
  pub capabilities : Option Capabilities
  pub run_as_user : Option ℤ
  pub run_as_non_root : Option Bool
  pub seccomp_profile : Option SeccompProfile

pub record PodSecurityContext : Type 0 where
  pub run_as_user : Option ℤ
  pub run_as_non_root : Option Bool
  pub seccomp_profile : Option SeccompProfile

pub record VolumeMount : Type 0 where
  pub name : Str
  pub mount_path : Str
  pub read_only : Bool

pub record Container : Type 0 where
  pub name : Str
  pub security_context : Option SecurityContext
  pub volume_mounts : List VolumeMount

pub record VolumeProjection : Type 0 where
  pub service_account_token : Option Str

-- A projected volume is its sources, a secret volume the name of its secret.
pub record Volume : Type 0 where
  pub name : Str
  pub host_path : Option Str
  pub projected : Option (List VolumeProjection)
  pub secret : Option Str

pub record PodSpec : Type 0 where
  pub host_network : Bool
  pub host_pid : Bool
  pub host_ipc : Bool
  pub service_account_name : Str
  pub automount_service_account_token : Option Bool
  pub enable_service_links : Option Bool
  pub security_context : Option PodSecurityContext
  pub volumes : List Volume
  pub init_containers : List Container
  pub containers : List Container

pub record PodTemplateSpec : Type 0 where
  pub labels : Map Str
  pub spec : PodSpec

pub record JobSpec : Type 0 where
  pub ttl_seconds_after_finished : Option ℤ
  pub template : PodTemplateSpec
