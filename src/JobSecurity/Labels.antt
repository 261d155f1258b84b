-- ===== src/JobSecurity/Labels.antt =====
-- `ValidateReservedLabels` (internal/jobsecurity/security.go).
use certificate_job_operator.Prelude.{
  none, [], ◌∷◌, Str, Map, keys, ◌≡◌, refl, ◌↔◌, All, Memᴰ, contains-mem, arith,
}
use certificate_job_operator.JobSecurity.{reserved_operator_labels, validate_reserved_labels}

abbrev pub IsFree : Str → Type 0
IsFree key = ¬ Memᴰ key reserved_operator_labels

-- `ValidateReservedLabels` returns no error exactly when no key of the map is a reserved label.
pub validate_reserved_labels_iff :
    (labels : Map Str) → (validate_reserved_labels labels ≡ none) ↔ All IsFree (keys labels)
unfolding validate_reserved_labels
validate_reserved_labels_iff [] = (λ h. tt, λ h. refl)
validate_reserved_labels_iff ((key, v) ∷ rest) =
    ground (arith, contains-mem reserved_operator_labels key, validate_reserved_labels_iff rest)
