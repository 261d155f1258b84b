-- ===== src/JobSecurity.antt =====
-- internal/jobsecurity/security.go: the security policy on job templates and the defaults that
-- harden them. An `error` result is an option whose `none` is nil.
pub mod Policy
pub mod Hardening
pub mod Labels
use certificate_job_operator.Prelude.{
  Bool, true, false, not, ◌&&◌, ◌||◌, Option, none, some, List, [], ◌∷◌, ◌++◌, map, Str, Map, str,
  ◌==◌, any, contains, is_some, or_default, refuse_if, and_then_check, if◌then◌else◌,
}
use certificate_job_operator.Prelude.Int.{ℤ, is_zero}
use certificate_job_operator.Api.{
  SeccompProfile, runtime_default, Capabilities, SecurityContext, PodSecurityContext, Container,
  VolumeProjection, Volume, PodSpec, JobSpec,
}

-- The error of each check, with the names that its text quotes.
pub data SecurityError : Type 0 where
  host_network_set host_pid_set host_ipc_set service_account_set automount_set : SecurityError
  pod_root pod_root_allowed : SecurityError
  host_path_volume token_volume : (volume : Str) → SecurityError
  privileged_set escalation_set capabilities_added : (container : Str) → SecurityError
  container_root container_root_allowed : (container : Str) → SecurityError

abbrev pub bool_pointer_true : Option Bool → Bool
bool_pointer_true none = false
bool_pointer_true (some b) = b

-- `v != nil && !*v`.
abbrev pub bool_pointer_false : Option Bool → Bool
bool_pointer_false none = false
bool_pointer_false (some b) = not b

-- `v != nil && *v == 0`.
abbrev pub is_root_user : Option ℤ → Bool
is_root_user none = false
is_root_user (some uid) = is_zero uid

abbrev pub is_empty {ℓ} : {A : Type ℓ} → List A → Bool
is_empty [] = true
is_empty (_ ∷ _) = false

abbrev adds_capabilities : Option Capabilities → Bool
adds_capabilities none = false
adds_capabilities (some c) = not (is_empty c.add)

check_pod_context : Option PodSecurityContext → Option SecurityError
check_pod_context none = none
check_pod_context (some c) =
    refuse_if (is_root_user c.run_as_user) pod_root
      (refuse_if (bool_pointer_false c.run_as_non_root) pod_root_allowed none)

-- The sources of a projected volume.
check_sources : Str → Option (List VolumeProjection) → Option SecurityError
check_sources name none = none
check_sources name (some sources) =
    refuse_if (any (λ s. is_some s.service_account_token) sources) (token_volume name) none

check_volumes : List Volume → Option SecurityError
unfolding check_sources
check_volumes [] = none
check_volumes (v ∷ vs) =
    refuse_if (is_some v.host_path) (host_path_volume v.name)
      (and_then_check (check_sources v.name v.projected) (check_volumes vs))

check_context : Str → Option SecurityContext → Option SecurityError
check_context name none = none
check_context name (some c) = refuse_if (bool_pointer_true c.privileged) (privileged_set name) (
    refuse_if (bool_pointer_true c.allow_privilege_escalation) (escalation_set name) (
      refuse_if (adds_capabilities c.capabilities) (capabilities_added name) (
        refuse_if (is_root_user c.run_as_user) (container_root name)
          (refuse_if (bool_pointer_false c.run_as_non_root) (container_root_allowed name) none))))

check_containers : List Container → Option SecurityError
unfolding check_context
check_containers [] = none
check_containers (c ∷ cs) =
    and_then_check (check_context c.name c.security_context) (check_containers cs)

check_pod_spec : PodSpec → Option SecurityError
unfolding check_pod_context check_volumes check_containers
check_pod_spec p = refuse_if p.host_network host_network_set (
    refuse_if p.host_pid host_pid_set (
      refuse_if p.host_ipc host_ipc_set (
        refuse_if (not (p.service_account_name == [])) service_account_set (
          refuse_if (bool_pointer_true p.automount_service_account_token) automount_set (
            and_then_check (check_pod_context p.security_context) (
              and_then_check (check_volumes p.volumes)
                (check_containers (p.init_containers ++ p.containers))))))))

unfoldable pub validate_job_template_security : JobSpec → Option SecurityError
unfolding check_pod_spec
validate_job_template_security spec = check_pod_spec spec.template.spec

unfoldable pub contains_capability : List Str → Bool
contains_capability capabilities = any (λ c. c == str "ALL") capabilities

abbrev no_context : SecurityContext
no_context = record {
  privileged = none;
  allow_privilege_escalation = none;
  capabilities = none;
  run_as_user = none;
  run_as_non_root = none;
  seccomp_profile = none;
}

abbrev no_pod_context : PodSecurityContext
no_pod_context = record { run_as_user = none; run_as_non_root = none; seccomp_profile = none }

drop_all : Option Capabilities → Capabilities
unfolding contains_capability
drop_all none = record { add = []; drop = str "ALL" ∷ [] }
drop_all (some c) =
    if contains_capability c.drop then c else record c { drop = c.drop ++ str "ALL" ∷ [] }

harden_context : SecurityContext → SecurityContext
unfolding drop_all
harden_context c = record c {
  allow_privilege_escalation = some (or_default c.allow_privilege_escalation false);
  seccomp_profile = some (or_default c.seccomp_profile runtime_default);
  run_as_non_root = some (or_default c.run_as_non_root true);
  capabilities = some (drop_all c.capabilities);
}

apply_container_security_defaults : Container → Container
unfolding harden_context
apply_container_security_defaults c = record c {
  security_context = some (harden_context (or_default c.security_context no_context));
}

harden_pod_context : PodSecurityContext → PodSecurityContext
harden_pod_context c = record c {
  seccomp_profile = some (or_default c.seccomp_profile runtime_default);
  run_as_non_root = some (or_default c.run_as_non_root true);
}

harden_pod_spec : PodSpec → PodSpec
unfolding harden_pod_context apply_container_security_defaults
harden_pod_spec p = record p {
  automount_service_account_token = some false;
  enable_service_links = some (or_default p.enable_service_links false);
  security_context = some (harden_pod_context (or_default p.security_context no_pod_context));
  init_containers = map apply_container_security_defaults p.init_containers;
  containers = map apply_container_security_defaults p.containers;
}

unfoldable pub apply_job_security_defaults : JobSpec → ℤ → JobSpec
unfolding harden_pod_spec
apply_job_security_defaults spec default_ttl = record spec {
  ttl_seconds_after_finished = some (or_default spec.ttl_seconds_after_finished default_ttl);
  template = record (spec.template) { spec = harden_pod_spec spec.template.spec };
}

abbrev pub reserved_operator_labels : List Str
reserved_operator_labels =
    str "app.kubernetes.io/managed-by"
    ∷ str "certificates.rezzell.com/certificatejob"
    ∷ str "certificates.rezzell.com/certificate"
    ∷ str "certificates.rezzell.com/certificate-namespace"
    ∷ str "certificates.rezzell.com/workflow-node"
    ∷ str "certificates.rezzell.com/run-id"
    ∷ []

-- The error is the reserved label that the `range` over the map meets first.
unfoldable pub validate_reserved_labels : Map Str → Option Str
validate_reserved_labels [] = none
validate_reserved_labels ((key, _) ∷ rest) =
    refuse_if (contains reserved_operator_labels key) key (validate_reserved_labels rest)
