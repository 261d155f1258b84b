-- ===== src/Client.antt =====
-- What the controller uses and does not implement: the API server behind controller-runtime's
-- client, label selectors, the clock, the JSON encoding and the hash. Their code is not in the
-- repository, so they are one record, which the definitions that use them take as a parameter.
use certificate_job_operator.Prelude.{Bool, Option, List, Str, Map, ◌≡◌, refl, ◌⊎◌, inl, inr}
use certificate_job_operator.Prelude.Int.{ℤ}
use certificate_job_operator.Api.{
  Time, Job, Certificate, CertificateSpec, Secret, CertificateJob, CertificateJobTemplate,
  CertificateWorkflowSpec, CertificateJobStatus, FailurePolicy, LabelSelector, Condition,
}
use certificate_job_operator.Templates.{WorkflowError}

-- `apierrors.IsNotFound(err)`, and any other error with its text.
pub data ApiError : Type 0 where
  not_found : ApiError
  api_error : Str → ApiError

pub data Response (A : Type 0) : Type 0 where
  ok : A → Response A
  failed_with : ApiError → Response A

-- The structure that `buildInputHash` serialises.
pub record InputPayload : Type 0 where
  pub certificate_spec : CertificateSpec
  pub certificate_status : Str
  pub certificate_gen : ℤ
  pub secret_type : Str
  pub secret_data : Map Str
  pub workflow_spec_hash : Str

-- The structure that `buildWorkflowSpecHash` serialises.
pub record WorkflowPayload : Type 0 where
  pub certificate_selector : LabelSelector
  pub jobs : List CertificateJobTemplate
  pub workflow : CertificateWorkflowSpec
  pub parallelism : Option ℤ
  pub job_ttl_seconds_after_finished : Option ℤ
  pub failure_policy : FailurePolicy

-- A call may change the world, as may other clients between two calls: nothing is assumed of it.
pub record Client : Type 1 where
  pub World : Type 0
  pub get_job : World → (namespace name : Str) → World × Response Job
  pub get_secret : World → (namespace name : Str) → World × Response Secret
  pub get_certificate_job : World → (namespace name : Str) → World × Response CertificateJob
  pub list_certificates : World → (namespace : Str) → World × Response (List Certificate)
  pub list_certificate_jobs : World → (namespace : Str) → World × Response (List CertificateJob)
  -- The list by the index on `spec.secretName`.
  pub list_certificates_of_secret :
      World → (namespace secret : Str) → World × Response (List Certificate)
  pub create_job : World → Job → World × Option ApiError
  pub update_status : World → CertificateJob → World × Option ApiError
  pub set_controller_reference : CertificateJob → Job → Response Job
  -- `metav1.LabelSelectorAsSelector`, and the methods of the selector.
  pub Selector : Type 0
  pub label_selector_as_selector : LabelSelector → Response Selector
  pub is_empty : Selector → Bool
  pub matches : Selector → Map Str → Bool
  -- `meta.SetStatusCondition`.
  pub set_status_condition : List Condition → Condition → List Condition
  -- A reading of the clock, and those taken when the node of a name is skipped and when the
  -- condition of a type is set.
  pub now : World → Time
  pub skip_time : World → Str → Time
  pub condition_time : World → Str → Time
  -- The hexadecimal SHA-256 of a string, `json.Marshal`, and `%v` of an error.
  pub hash_string : Str → Str
  pub marshal_input : InputPayload → Response Str
  pub marshal_workflow : WorkflowPayload → Response Str
  pub marshal_status : CertificateJobStatus → Str
  pub error_text : ApiError → Str
  pub workflow_error_text : WorkflowError → Str

-- The world, with the Jobs created in it so far and the events recorded for them.
pub record Session (W : Type 0) : Type 0 where
  pub world : W
  pub created : List Job
  pub events : List (Str × Str × Str)

pub Response-cases :
    {A : Type 0} (r : Response A)
    → ((a : A) × (r ≡ ok a))
      ⊎ ((r ≡ failed_with not_found) ⊎ ((m : Str) × (r ≡ failed_with (api_error m))))
Response-cases (ok a) = inl (a, refl)
Response-cases (failed_with not_found) = inr (inl refl)
Response-cases (failed_with (api_error m)) = inr (inr (m, refl))
