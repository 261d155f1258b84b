-- ===== src/Api/Objects.antt =====
-- The objects that the controller gets, lists and creates: batch/v1 Jobs, cert-manager
-- Certificates and core/v1 Secrets, with the fields that the source uses. What the source only
-- serialises into a hash is kept as bytes.
use certificate_job_operator.Prelude.{Option, List, Str, Map, ℕ}
use certificate_job_operator.Prelude.Int.{ℤ}
use certificate_job_operator.Api.Pod.{JobSpec}

-- A reading of `metav1.Now()`.
abbrev pub Time : Type 0
Time = ℕ

pub record JobCondition : Type 0 where
  pub type : Str
  pub status : Str

pub record JobStatus : Type 0 where
  pub conditions : List JobCondition
  pub active : ℤ

pub record Job : Type 0 where
  pub namespace : Str
  pub name : Str
  pub labels : Map Str
  pub annotations : Map Str
  pub owner : Option Str
  pub spec : JobSpec
  pub status : JobStatus

pub record CertificateSpec : Type 0 where
  pub secret_name : Str
  pub other_fields : Str

pub record Certificate : Type 0 where
  pub namespace : Str
  pub name : Str
  pub labels : Map Str
  pub generation : ℤ
  pub spec : CertificateSpec
  pub status : Str

pub record Secret : Type 0 where
  pub namespace : Str
  pub name : Str
  pub type : Str
  pub entries : Map Str
