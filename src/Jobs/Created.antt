-- ===== src/Jobs/Created.antt =====
-- What the pod of a created Job is like.
use certificate_job_operator.Prelude.{
  true, some, List, [], ◌∷◌, map, Str, Map, ◌==◌, ==_iff, All, ◌≡◌, refl, ◌≢◌, Memᴰ, Bool-cases,
  inl, inr, arith,
}
use certificate_job_operator.Prelude.Int.{ℤ}
use certificate_job_operator.Api.{VolumeMount, Container, Volume, PodSpec, CertificateJobTemplate}
use certificate_job_operator.JobSecurity.{apply_job_security_defaults}
use certificate_job_operator.JobSecurity.Policy.{
  IsAllowedVolume, IsAllowedContainer, IsRestricted, validate_job_template_security_iff,
}
use certificate_job_operator.JobSecurity.Hardening.{
  IsHardened, IsHardenedContainer, validated_is_hardened,
}
use certificate_job_operator.Jobs.{job_spec}
use certificate_job_operator.Jobs.Merge.{merge_maps_with_base_precedence}
use certificate_job_operator.Jobs.Secret.{
  secret_volume_name, secret_mount_path, set_secret_volume, set_mount, ensure_volume_mount,
  mount_secret, inject_into_pod,
}

-- The container mounts the secret volume, read-only, at the agreed path.
abbrev pub MountsSecret : Container → Type 0
MountsSecret c =
    (m : VolumeMount) × Memᴰ m c.volume_mounts
    × (m.name ≡ secret_volume_name)
    × (m.mount_path ≡ secret_mount_path)
    × (m.read_only ≡ true)

abbrev pub HasSecretVolume : Str → List Volume → Type 0
HasSecretVolume secret volumes =
    (v : Volume) × Memᴰ v volumes × (v.name ≡ secret_volume_name) × (v.secret ≡ some secret)

pub record IsSupplied (secret : Str) (p : PodSpec) : Type 0 where
  pub volume : HasSecretVolume secret p.volumes
  pub init_containers : All MountsSecret p.init_containers
  pub containers : All MountsSecret p.containers

set_secret_volume-has :
    (secret : Str) (vs : List Volume) → HasSecretVolume secret (set_secret_volume secret vs)
unfolding set_secret_volume
set_secret_volume-has secret [] = (_, Memᴰ.head refl, refl, refl)
set_secret_volume-has secret (v ∷ vs) = elim (Bool-cases (v.name == secret_volume_name)) [
  | inl here ↦
      rw here (record v { secret = some secret }, Memᴰ.head refl, (==_iff _ _).0 here, refl)
  | inr other ↦
      let (w, m, named, has) = set_secret_volume-has secret vs in
      rw other (w, Memᴰ.tail m, named, has)
]

set_secret_volume-allowed :
    (secret : Str) (vs : List Volume)
    → All IsAllowedVolume vs
    → All IsAllowedVolume (set_secret_volume secret vs)
unfolding set_secret_volume
set_secret_volume-allowed secret [] h = ((refl, tt), tt)
set_secret_volume-allowed secret (v ∷ vs) h =
    ground (arith, set_secret_volume-allowed secret vs h.1)

set_mount-has :
    (ms : List VolumeMount)
    → (m : VolumeMount) × Memᴰ m (set_mount secret_volume_name secret_mount_path ms)
      × (m.name ≡ secret_volume_name)
      × (m.mount_path ≡ secret_mount_path)
      × (m.read_only ≡ true)
unfolding set_mount
set_mount-has [] = (_, Memᴰ.head refl, refl, refl, refl)
set_mount-has (m ∷ ms) = elim (Bool-cases (m.name == secret_volume_name)) [
  | inl here ↦ rw here (
    record m { mount_path = secret_mount_path; read_only = true },
    Memᴰ.head refl,
    (==_iff _ _).0 here,
    refl,
    refl,
  )
  | inr other ↦
      let (x, at, named, path, ro) = set_mount-has ms in rw other (x, Memᴰ.tail at, named, path, ro)
]

map-mounts : (cs : List Container) → All MountsSecret (map mount_secret cs)
unfolding ensure_volume_mount
map-mounts [] = tt
map-mounts (c ∷ cs) = (set_mount-has c.volume_mounts, map-mounts cs)

map-hardened :
    (cs : List Container)
    → All IsHardenedContainer cs
    → All IsHardenedContainer (map mount_secret cs)
unfolding ensure_volume_mount
map-hardened [] h = tt
map-hardened (c ∷ cs) h = (h.0, map-hardened cs h.1)

map-allowed :
    (cs : List Container) → All IsAllowedContainer cs → All IsAllowedContainer (map mount_secret cs)
unfolding ensure_volume_mount
map-allowed [] h = tt
map-allowed (c ∷ cs) h = (h.0, map-allowed cs h.1)

inject-IsHardened :
    (secret : Str) (p : PodSpec) → IsHardened p → IsHardened (inject_into_pod secret p)
unfolding inject_into_pod
inject-IsHardened secret p h = record {
  restricted = record {
    own_network = h.restricted.own_network;
    own_pid = h.restricted.own_pid;
    own_ipc = h.restricted.own_ipc;
    default_account = h.restricted.default_account;
    no_token = h.restricted.no_token;
    context = h.restricted.context;
    volumes = set_secret_volume-allowed secret p.volumes h.restricted.volumes;
    init_containers = map-allowed p.init_containers h.restricted.init_containers;
    containers = map-allowed p.containers h.restricted.containers;
  };
  no_token = h.no_token;
  service_links = h.service_links;
  pod_context = h.pod_context;
  init_containers = map-hardened p.init_containers h.init_containers;
  containers = map-hardened p.containers h.containers;
}

inject-IsSupplied : (secret : Str) (p : PodSpec) → IsSupplied secret (inject_into_pod secret p)
unfolding inject_into_pod
inject-IsSupplied secret p = record {
  volume = set_secret_volume-has secret p.volumes;
  init_containers = map-mounts p.init_containers;
  containers = map-mounts p.containers;
}

-- The spec of a created Job, from a template that the policy accepts and for a certificate with a
-- secret: its pod is hardened, has the secret as a volume, and every init and main container mounts
-- it read-only at the agreed path.
pub job_spec-IsHardened :
    (labels : Map Str) (tmpl : CertificateJobTemplate) (ttl : ℤ) (secret : Str)
    → IsRestricted tmpl.template.template.spec
    → secret ≢ []
    → let pod = (job_spec labels tmpl ttl secret).template.spec in
      IsHardened pod × IsSupplied secret pod
unfolding job_spec
job_spec-IsHardened labels tmpl ttl [] ok named = absurd (named refl)
job_spec-IsHardened labels tmpl ttl (c ∷ secret) ok named =
    let merged = record (tmpl.template) {
      template = record (tmpl.template.template) {
        labels = merge_maps_with_base_precedence labels tmpl.template.template.labels;
      };
    } in
    let before = (apply_job_security_defaults merged ttl).template.spec in
    let hard =
      validated_is_hardened merged ttl ((validate_job_template_security_iff merged).1 ok) in
    (inject-IsHardened (c ∷ secret) before hard, inject-IsSupplied (c ∷ secret) before)
