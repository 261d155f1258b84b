-- ===== src/JobSecurity/Hardening.antt =====
-- What `ApplyJobSecurityDefaults` (internal/jobsecurity/security.go) guarantees.
use certificate_job_operator.Prelude.{
  Bool, true, false, not, Option, none, some, List, [], ◌∷◌, ◌++◌, map, Str, str, ◌==◌, ◌≡◌, refl,
  ◌≢◌, All, arith, or_default,
}
use certificate_job_operator.Prelude.Int.{ℤ, pos}
use certificate_job_operator.Api.{
  SeccompProfile, Capabilities, SecurityContext, PodSecurityContext, Container, PodSpec, JobSpec,
}
use certificate_job_operator.JobSecurity.{
  no_context, no_pod_context, drop_all, harden_context, apply_container_security_defaults,
  harden_pod_context, harden_pod_spec, apply_job_security_defaults, contains_capability,
  validate_job_template_security,
}
use certificate_job_operator.JobSecurity.Policy.{
  AddsNone, IsAllowedContext, IsAllowedPodContext, IsAllowedContainer, IsRestricted,
  validate_job_template_security_iff,
}

abbrev pub DropsAll : Option Capabilities → Type 0
DropsAll none = ⊥
DropsAll (some c) = contains_capability c.drop ≡ true

-- The settings of a container whose template the validation has accepted, after the defaults.
abbrev pub IsHardenedContext : Option SecurityContext → Type 0
IsHardenedContext none = ⊥
IsHardenedContext (some c) =
    (c.privileged ≢ some true)
    × (c.allow_privilege_escalation ≡ some false)
    × (c.seccomp_profile ≢ none)
    × (c.run_as_user ≢ some (pos 0))
    × (c.run_as_non_root ≡ some true)
    × AddsNone c.capabilities
    × DropsAll c.capabilities

abbrev pub IsHardenedContainer : Container → Type 0
IsHardenedContainer c = IsHardenedContext c.security_context

abbrev pub IsHardenedPodContext : Option PodSecurityContext → Type 0
IsHardenedPodContext none = ⊥
IsHardenedPodContext (some c) =
    (c.seccomp_profile ≢ none) × (c.run_as_user ≢ some (pos 0)) × (c.run_as_non_root ≡ some true)

pub record IsHardened (p : PodSpec) : Type 0 where
  pub restricted : IsRestricted p
  pub no_token : p.automount_service_account_token ≡ some false
  pub service_links : p.enable_service_links ≢ none
  pub pod_context : IsHardenedPodContext p.security_context
  pub init_containers : All IsHardenedContainer p.init_containers
  pub containers : All IsHardenedContainer p.containers

contains_capability-append : (cs : List Str) → contains_capability (cs ++ str "ALL" ∷ []) ≡ true
unfolding contains_capability ◌==◌
contains_capability-append [] = refl
contains_capability-append (c ∷ cs) = ground (arith, contains_capability-append cs)

-- With "ALL" among the dropped capabilities there is nothing to add.
drop_all-drops : (c : Option Capabilities) → contains_capability (drop_all c).drop ≡ true
unfolding drop_all contains_capability ◌==◌
drop_all-drops none = refl
drop_all-drops (some c) = ground (arith, contains_capability-append c.drop)

drop_all-adds : (c : Option Capabilities) → AddsNone c → (drop_all c).add ≡ []
unfolding drop_all
drop_all-adds none h = refl
drop_all-adds (some c) h = ground arith

drop_all_idem : (c : Option Capabilities) → drop_all (some (drop_all c)) ≡ drop_all c
drop_all_idem c = unfold drop_all in rw (drop_all-drops c)

-- A value that is not the forbidden one is the required one once the default is filled in.
or_default_ne : (v : Option Bool) (b : Bool) → v ≢ some b → or_default v (not b) ≡ not b
or_default_ne none b h = refl
or_default_ne (some true) true h = absurd (h refl)
or_default_ne (some true) false h = refl
or_default_ne (some false) true h = refl
or_default_ne (some false) false h = absurd (h refl)

harden_context-IsHardened :
    (c : Option SecurityContext)
    → IsAllowedContext c
    → IsHardenedContext (some (harden_context (or_default c no_context)))
unfolding harden_context
harden_context-IsHardened none h = ground (arith, drop_all-drops none, drop_all-adds none)
harden_context-IsHardened (some c) h = ground (
  arith,
  or_default_ne c.allow_privilege_escalation true,
  or_default_ne c.run_as_non_root false,
  drop_all-drops c.capabilities,
  drop_all-adds c.capabilities,
)

containers-IsHardened :
    (cs : List Container)
    → All IsAllowedContainer cs
    → All IsHardenedContainer (map apply_container_security_defaults cs)
unfolding apply_container_security_defaults
containers-IsHardened [] h = tt
containers-IsHardened (c ∷ cs) h =
    (harden_context-IsHardened c.security_context h.0, containers-IsHardened cs h.1)

harden_pod_context-IsHardened :
    (c : Option PodSecurityContext)
    → IsAllowedPodContext c
    → IsHardenedPodContext (some (harden_pod_context (or_default c no_pod_context)))
unfolding harden_pod_context
harden_pod_context-IsHardened none h = ground arith
harden_pod_context-IsHardened (some c) h = ground (arith, or_default_ne c.run_as_non_root false)

hardened_context_allowed : (c : Option SecurityContext) → IsHardenedContext c → IsAllowedContext c
hardened_context_allowed none h = absurd h
hardened_context_allowed (some c) h = ground arith

hardened_containers_allowed :
    (cs : List Container) → All IsHardenedContainer cs → All IsAllowedContainer cs
hardened_containers_allowed [] h = tt
hardened_containers_allowed (c ∷ cs) h =
    (hardened_context_allowed c.security_context h.0, hardened_containers_allowed cs h.1)

hardened_pod_context_allowed :
    (c : Option PodSecurityContext) → IsHardenedPodContext c → IsAllowedPodContext c
hardened_pod_context_allowed none h = absurd h
hardened_pod_context_allowed (some c) h = ground arith

harden_pod_spec-IsHardened : (p : PodSpec) → IsRestricted p → IsHardened (harden_pod_spec p)
unfolding harden_pod_spec
harden_pod_spec-IsHardened p h =
    let ctx = harden_pod_context-IsHardened p.security_context h.context in
    let inits = containers-IsHardened p.init_containers h.init_containers in
    let mains = containers-IsHardened p.containers h.containers in
    record {
      restricted = record {
        own_network = h.own_network;
        own_pid = h.own_pid;
        own_ipc = h.own_ipc;
        default_account = h.default_account;
        no_token = λ e. cc;
        context = hardened_pod_context_allowed (some _) ctx;
        volumes = h.volumes;
        init_containers = hardened_containers_allowed _ inits;
        containers = hardened_containers_allowed _ mains;
      };
      no_token = refl;
      service_links = λ e. cc;
      pod_context = ctx;
      init_containers = inits;
      containers = mains;
    }

-- A job spec that the validation accepts is hardened after the defaults.
pub validated_is_hardened :
    (spec : JobSpec) (ttl : ℤ)
    → validate_job_template_security spec ≡ none
    → IsHardened (apply_job_security_defaults spec ttl).template.spec
unfolding apply_job_security_defaults
validated_is_hardened spec ttl h =
    harden_pod_spec-IsHardened spec.template.spec ((validate_job_template_security_iff spec).0 h)

-- The defaults never turn an accepted job spec into one that the validation refuses.
pub defaults_keep_validity :
    (spec : JobSpec) (ttl : ℤ)
    → validate_job_template_security spec ≡ none
    → validate_job_template_security (apply_job_security_defaults spec ttl) ≡ none
defaults_keep_validity spec ttl h =
    (validate_job_template_security_iff (apply_job_security_defaults spec ttl)).1
      (validated_is_hardened spec ttl h).restricted

harden_context_idem : (c : SecurityContext) → harden_context (harden_context c) ≡ harden_context c
unfolding harden_context
harden_context_idem c = rw (drop_all_idem c.capabilities)

container_idem :
    (c : Container)
    → apply_container_security_defaults (apply_container_security_defaults c)
      ≡ apply_container_security_defaults c
unfolding apply_container_security_defaults
container_idem c = rw (harden_context_idem (or_default c.security_context no_context))

containers_idem :
    (cs : List Container)
    → map apply_container_security_defaults (map apply_container_security_defaults cs)
      ≡ map apply_container_security_defaults cs
containers_idem [] = refl
containers_idem (c ∷ cs) = rw (container_idem c, containers_idem cs)

harden_pod_spec_idem : (p : PodSpec) → harden_pod_spec (harden_pod_spec p) ≡ harden_pod_spec p
unfolding harden_pod_spec
harden_pod_spec_idem p = rw (containers_idem p.init_containers, containers_idem p.containers)

-- Applying the defaults again, with any other TTL, changes nothing: the webhook and the controller
-- may both apply them.
pub apply_job_security_defaults_idem :
    (spec : JobSpec) (ttl later : ℤ)
    → apply_job_security_defaults (apply_job_security_defaults spec ttl) later
      ≡ apply_job_security_defaults spec ttl
unfolding apply_job_security_defaults
apply_job_security_defaults_idem spec ttl later = rw (harden_pod_spec_idem spec.template.spec)

-- The seccomp profile that a container, or a pod, asks for.
abbrev pub profile_of : Container → Option SeccompProfile
profile_of c = elim c.security_context [ none ↦ none | some context ↦ context.seccomp_profile ]

abbrev pub pod_profile_of : PodSpec → Option SeccompProfile
pod_profile_of p = elim p.security_context [ none ↦ none | some context ↦ context.seccomp_profile ]

-- The profile that is given, or else the default of the container runtime.
abbrev pub given_or_runtime : Option SeccompProfile → Option SeccompProfile
given_or_runtime (some profile) = some profile
given_or_runtime none = some (record { type = str "RuntimeDefault" })

profiles-given :
    (cs : List Container)
    → map (λ c. profile_of c) (map apply_container_security_defaults cs)
      ≡ map (λ c. given_or_runtime (profile_of c)) cs
unfolding apply_container_security_defaults harden_context
profiles-given [] = refl
profiles-given (c ∷ cs) = ground (arith, profiles-given cs)

-- `spec'` is hardened, and has what `spec` leaves open filled in.
pub record IsSecured (spec : JobSpec) (ttl : ℤ) (spec' : JobSpec) : Type 0 where
  pub hardened : IsHardened spec'.template.spec
  pub time_to_live :
      spec'.ttl_seconds_after_finished ≡ some (or_default spec.ttl_seconds_after_finished ttl)
  pub service_links :
      spec'.template.spec.enable_service_links
      ≡ some (or_default spec.template.spec.enable_service_links false)
  pub pod_profile :
      pod_profile_of spec'.template.spec ≡ given_or_runtime (pod_profile_of spec.template.spec)
  pub init_profiles :
      map (λ c. profile_of c) spec'.template.spec.init_containers
      ≡ map (λ c. given_or_runtime (profile_of c)) spec.template.spec.init_containers
  pub profiles :
      map (λ c. profile_of c) spec'.template.spec.containers
      ≡ map (λ c. given_or_runtime (profile_of c)) spec.template.spec.containers

-- A job spec that the validation accepts is, after the defaults, hardened: still restricted, with
-- no service-account token, and with every init and main container under a non-root user, with no
-- privilege escalation, no added capability and "ALL" dropped. The seccomp profiles of the pod and
-- of each container are those that the template gives, of whatever type, or else RuntimeDefault;
-- likewise the time to live is the template's or else the default, and service links are off unless
-- the template says something about them.
pub validated-IsSecured :
    (spec : JobSpec) (ttl : ℤ)
    → validate_job_template_security spec ≡ none
    → IsSecured spec ttl (apply_job_security_defaults spec ttl)
unfolding apply_job_security_defaults harden_pod_spec harden_pod_context
validated-IsSecured spec ttl h = record {
  hardened = validated_is_hardened spec ttl h;
  time_to_live = refl;
  service_links = refl;
  pod_profile = ground arith;
  init_profiles = profiles-given spec.template.spec.init_containers;
  profiles = profiles-given spec.template.spec.containers;
}
