-- ===== src/JobSecurity/Policy.antt =====
-- What `ValidateJobTemplateSecurity` accepts (internal/jobsecurity/security.go), stated without
-- reference to the order of its checks.
use certificate_job_operator.Prelude.{
  Bool, true, false, Option, none, some, List, [], ◌∷◌, ◌++◌, Str, ==_iff, ◌≡◌, refl, ◌≢◌, ◌↔◌, any,
  All, All-append, All-append_left, All-append_right, is_some, arith, zero, suc,
}
use certificate_job_operator.Prelude.Int.{ℤ, pos, negsuc}
use certificate_job_operator.Api.{
  Capabilities, SecurityContext, PodSecurityContext, Container, VolumeProjection, Volume, PodSpec,
  JobSpec,
}
use certificate_job_operator.JobSecurity.{
  bool_pointer_true, bool_pointer_false, is_root_user, adds_capabilities, check_pod_context,
  check_sources, check_volumes, check_context, check_containers, check_pod_spec,
  validate_job_template_security,
}

abbrev pub AddsNone : Option Capabilities → Type 0
AddsNone none = Unit
AddsNone (some c) = c.add ≡ []

abbrev pub IsAllowedContext : Option SecurityContext → Type 0
IsAllowedContext none = Unit
IsAllowedContext (some c) =
    (c.privileged ≢ some true)
    × (c.allow_privilege_escalation ≢ some true)
    × AddsNone c.capabilities
    × (c.run_as_user ≢ some (pos 0))
    × (c.run_as_non_root ≢ some false)

abbrev pub IsAllowedPodContext : Option PodSecurityContext → Type 0
IsAllowedPodContext none = Unit
IsAllowedPodContext (some c) = (c.run_as_user ≢ some (pos 0)) × (c.run_as_non_root ≢ some false)

abbrev pub HasNoToken : VolumeProjection → Type 0
HasNoToken s = s.service_account_token ≡ none

abbrev pub AreAllowedSources : Option (List VolumeProjection) → Type 0
AreAllowedSources none = Unit
AreAllowedSources (some sources) = All HasNoToken sources

abbrev pub IsAllowedVolume : Volume → Type 0
IsAllowedVolume v = (v.host_path ≡ none) × AreAllowedSources v.projected

abbrev pub IsAllowedContainer : Container → Type 0
IsAllowedContainer c = IsAllowedContext c.security_context

-- A pod that cannot reach its host, act as another account, or gain privileges.
pub record IsRestricted (p : PodSpec) : Type 0 where
  pub own_network : p.host_network ≡ false
  pub own_pid : p.host_pid ≡ false
  pub own_ipc : p.host_ipc ≡ false
  pub default_account : p.service_account_name ≡ []
  pub no_token : p.automount_service_account_token ≢ some true
  pub context : IsAllowedPodContext p.security_context
  pub volumes : All IsAllowedVolume p.volumes
  pub init_containers : All IsAllowedContainer p.init_containers
  pub containers : All IsAllowedContainer p.containers

pub bool_pointer_true_iff : (v : Option Bool) → (bool_pointer_true v ≡ false) ↔ (v ≢ some true)
bool_pointer_true_iff none = ground arith
bool_pointer_true_iff (some true) = (λ h. cc, λ h. absurd (h refl))
bool_pointer_true_iff (some false) = (λ h e. cc, λ h. refl)

pub bool_pointer_false_iff : (v : Option Bool) → (bool_pointer_false v ≡ false) ↔ (v ≢ some false)
bool_pointer_false_iff none = ground arith
bool_pointer_false_iff (some false) = (λ h. cc, λ h. absurd (h refl))
bool_pointer_false_iff (some true) = (λ h e. cc, λ h. refl)

is_root_user_iff : (v : Option ℤ) → (is_root_user v ≡ false) ↔ (v ≢ some (pos 0))
is_root_user_iff none = ground arith
is_root_user_iff (some (pos zero)) = (λ h. cc, λ h. absurd (h refl))
is_root_user_iff (some (pos (suc n))) = (λ h e. ground arith, λ h. ground arith)
is_root_user_iff (some (negsuc n)) = (λ h e. cc, λ h. refl)

adds_capabilities_iff : (c : Option Capabilities) → (adds_capabilities c ≡ false) ↔ AddsNone c
adds_capabilities_iff none = (λ h. tt, λ h. refl)
adds_capabilities_iff (some c) = ground arith

check_context_iff :
    (name : Str) (c : Option SecurityContext) → (check_context name c ≡ none) ↔ IsAllowedContext c
unfolding check_context
check_context_iff name none = (λ h. tt, λ h. refl)
check_context_iff name (some c) = ground (
  arith,
  bool_pointer_true_iff c.privileged,
  bool_pointer_true_iff c.allow_privilege_escalation,
  adds_capabilities_iff c.capabilities,
  is_root_user_iff c.run_as_user,
  bool_pointer_false_iff c.run_as_non_root,
)

check_pod_context_iff :
    (c : Option PodSecurityContext) → (check_pod_context c ≡ none) ↔ IsAllowedPodContext c
unfolding check_pod_context
check_pod_context_iff none = (λ h. tt, λ h. refl)
check_pod_context_iff (some c) =
    ground (arith, is_root_user_iff c.run_as_user, bool_pointer_false_iff c.run_as_non_root)

any_token_iff :
    (sources : List VolumeProjection)
    → (any (λ s. is_some s.service_account_token) sources ≡ false) ↔ All HasNoToken sources
any_token_iff [] = (λ h. tt, λ h. refl)
any_token_iff (s ∷ sources) = ground (arith, any_token_iff sources)

check_sources_iff :
    (name : Str) (sources : Option (List VolumeProjection))
    → (check_sources name sources ≡ none) ↔ AreAllowedSources sources
unfolding check_sources
check_sources_iff name none = (λ h. tt, λ h. refl)
check_sources_iff name (some sources) = ground (arith, any_token_iff sources)

check_volumes_iff : (vs : List Volume) → (check_volumes vs ≡ none) ↔ All IsAllowedVolume vs
unfolding check_volumes
check_volumes_iff [] = (λ h. tt, λ h. refl)
check_volumes_iff (v ∷ vs) =
    ground (arith, check_sources_iff v.name v.projected, check_volumes_iff vs)

check_containers_iff :
    (cs : List Container) → (check_containers cs ≡ none) ↔ All IsAllowedContainer cs
unfolding check_containers
check_containers_iff [] = (λ h. tt, λ h. refl)
check_containers_iff (c ∷ cs) =
    ground (arith, check_context_iff c.name c.security_context, check_containers_iff cs)

all_containers_iff :
    (inits mains : List Container)
    → (check_containers (inits ++ mains) ≡ none)
      ↔ (All IsAllowedContainer inits × All IsAllowedContainer mains)
all_containers_iff inits mains =
    let both = check_containers_iff (inits ++ mains) in
    (
      λ h. (
        All-append_left IsAllowedContainer inits mains (both.0 h),
        All-append_right IsAllowedContainer inits mains (both.0 h),
      ),
      λ h. both.1 (All-append IsAllowedContainer inits mains h.0 h.1),
    )

check_pod_spec_iff : (p : PodSpec) → (check_pod_spec p ≡ none) ↔ IsRestricted p
unfolding check_pod_spec
check_pod_spec_iff p = ground (
  arith,
  ==_iff p.service_account_name [],
  bool_pointer_true_iff p.automount_service_account_token,
  check_pod_context_iff p.security_context,
  check_volumes_iff p.volumes,
  all_containers_iff p.init_containers p.containers,
)

-- `ValidateJobTemplateSecurity` returns no error exactly for the job specs whose pod is restricted:
-- no host namespaces, no service account, no automounted or projected token, no host path, and
-- neither the pod nor any init or main container asking for root, privilege or capabilities.
pub validate_job_template_security_iff :
    (spec : JobSpec)
    → (validate_job_template_security spec ≡ none) ↔ IsRestricted spec.template.spec
unfolding validate_job_template_security
validate_job_template_security_iff spec = check_pod_spec_iff spec.template.spec
