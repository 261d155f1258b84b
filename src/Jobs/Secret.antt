-- ===== src/Jobs/Secret.antt =====
-- `injectCertificateSecret` and `ensureVolumeMount`.
use certificate_job_operator.Prelude.{
  true, none, some, List, [], ◌∷◌, map, Str, str, ◌==◌, if◌then◌else◌,
}
use certificate_job_operator.Api.{VolumeMount, Container, Volume, PodSpec, JobSpec}

abbrev pub secret_volume_name : Str
secret_volume_name = str "certificate-input"

abbrev pub secret_mount_path : Str
secret_mount_path = str "/var/run/certificate-input"

-- The loop over the volumes: the first of the name gets the secret, whatever else it has; with no
-- such volume one is appended.
unfoldable pub set_secret_volume : Str → List Volume → List Volume
unfolding ◌==◌
set_secret_volume secret [] =
    record { name = secret_volume_name; host_path = none; projected = none; secret = some secret }
    ∷ []
set_secret_volume secret (v ∷ vs) =
    if v.name == secret_volume_name
    then record v { secret = some secret } ∷ vs
    else v ∷ set_secret_volume secret vs

-- The loop over the mounts, likewise.
unfoldable pub set_mount : Str → Str → List VolumeMount → List VolumeMount
unfolding ◌==◌
set_mount name path [] = record { name = name; mount_path = path; read_only = true } ∷ []
set_mount name path (m ∷ ms) =
    if m.name == name
    then record m { mount_path = path; read_only = true } ∷ ms
    else m ∷ set_mount name path ms

unfoldable pub ensure_volume_mount : Str → Str → Container → Container
unfolding set_mount
ensure_volume_mount name path c = record c { volume_mounts = set_mount name path c.volume_mounts }

abbrev pub mount_secret : Container → Container
mount_secret c = ensure_volume_mount secret_volume_name secret_mount_path c

unfoldable pub inject_into_pod : Str → PodSpec → PodSpec
unfolding set_secret_volume ensure_volume_mount
inject_into_pod secret p = record p {
  volumes = set_secret_volume secret p.volumes;
  init_containers = map mount_secret p.init_containers;
  containers = map mount_secret p.containers;
}

unfoldable pub inject_certificate_secret : JobSpec → Str → JobSpec
unfolding inject_into_pod
inject_certificate_secret spec [] = spec
inject_certificate_secret spec (c ∷ name) = record spec {
  template = record (spec.template) { spec = inject_into_pod (c ∷ name) spec.template.spec };
}
