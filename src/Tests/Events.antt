-- ===== src/Tests/Events.antt =====
-- Tests of the events and of the namespaces.
use certificate_job_operator.Prelude.{
  List, [], ◌∷◌, keep, map, Str, str, ◌==◌, ==_iff, Distinct, contains, ◌≡◌, refl, ◌≢◌, ◌↔◌, ap,
  sym, ◌∙◌, ◌⊎◌, subst, ⊎_elim, Memᴰ, arith, if◌then◌else◌, some, inl, inr,
}
use mathlib.Core.List.Memᴰ
use certificate_job_operator.Api.{Certificate, CertificateJob}
use certificate_job_operator.Client.{Client, ok}
use certificate_job_operator.Triggers.{
  request_key, request_of, certificate_secret_names, map_certificate_to_certificate_jobs,
  map_secret_to_certificate_jobs,
}
use certificate_job_operator.Triggers.Enqueued.{
  HaveOwnNames, keep-mem, IsListedBy, enqueued_iff_listed,
}
use certificate_job_operator.Triggers.Secrets.{HasPlainLists}
use certificate_job_operator.Triggers.Reached.{IsSnapshot, secret_reaches}
use certificate_job_operator.Namespaces.{parse_watch_namespaces, watch_namespace_cache_config}
use certificate_job_operator.Namespaces.Parsed.{IsAskedFor, watch_namespace_cache_config_lem}
use certificate_job_operator.Namespaces.Joined.{entries_of, parse_watch_namespaces-join}
use certificate_job_operator.Tests.{renewal, site, site_secret, server}

-- A CertificateJob in the namespace of the certificate, and one that selects other labels.
abbrev rollout : CertificateJob
rollout = record renewal { namespace = str "web"; name = str "rollout" }

abbrev others : CertificateJob
others = record rollout {
  name = str "others";
  spec = record (rollout.spec) { certificate_selector = str "tier" };
}

-- An API server that answers with the objects of the namespace.
abbrev scoped : Client
scoped = record server {
  list_certificates =
      λ jobs namespace. (jobs, ok (keep (λ cert. cert.namespace == namespace) (site ∷ [])));
  list_certificate_jobs = λ jobs namespace.
      (jobs, ok (keep (λ cjob. cjob.namespace == namespace) (rollout ∷ others ∷ renewal ∷ [])));
}

one_of_two : (a x y : CertificateJob) → Memᴰ a (x ∷ y ∷ []) → (a ≡ x) ⊎ (a ≡ y)
one_of_two a x y m =
    ⊎_elim inl (λ n. ⊎_elim inr (λ o. absurd (Memᴰ.not-nil o)) (Memᴰ.cases_cons n))
      (Memᴰ.cases_cons m)

own_two : (x y : CertificateJob) → request_of x ≢ request_of y → HaveOwnNames (x ∷ y ∷ [])
own_two x y differ a b m n same = elim (one_of_two a x y m) [
  | inl p ↦ elim (one_of_two b x y n) [
    | inl q ↦ p ∙ sym q
    | inr q ↦ absurd (differ (ap (λ z. request_of z) (sym p) ∙ same ∙ ap (λ z. request_of z) q))
  ]
  | inr p ↦ elim (one_of_two b x y n) [
    | inl q ↦ absurd (differ (ap (λ z. request_of z) (sym q) ∙ sym same ∙ ap (λ z. request_of z) p))
    | inr q ↦ p ∙ sym q
  ]
]

rollout_own : HaveOwnNames (rollout ∷ others ∷ [])
rollout_own = own_two rollout others (λ e. ground arith)

enqueued_iff_listed_example :
    Memᴰ (request_of rollout) (map_certificate_to_certificate_jobs scoped site []).1
    ↔ IsListedBy scoped site rollout []
unfolding ◌==◌
enqueued_iff_listed_example =
    enqueued_iff_listed scoped site rollout (rollout ∷ others ∷ []) (site ∷ []) [] [] refl
      rollout_own (Memᴰ.head refl) refl (Memᴰ.head refl)

keep-own :
    (namespace : Str) (cjobs : List CertificateJob) (cjob : CertificateJob)
    → Memᴰ cjob (keep (λ (x : CertificateJob). x.namespace == namespace) cjobs)
    → cjob.namespace ≡ namespace
keep-own namespace cjobs cjob m =
    (==_iff cjob.namespace namespace).0 ((keep-mem _ cjob cjobs).0 m).1

scoped_plain : HasPlainLists scoped
scoped_plain = record {
  still = λ w namespace. refl;
  scoped = λ w namespace cjobs cjob answered m.
      let same : cjobs
          ≡ keep (λ (x : CertificateJob). x.namespace == namespace)
              (rollout ∷ others ∷ renewal ∷ []) =
        cc in
      keep-own namespace (rollout ∷ others ∷ renewal ∷ []) cjob (subst (Memᴰ cjob) same m);
}

only_site : (cert : Certificate) → Memᴰ cert (site ∷ []) → cert ≡ site
only_site cert m = ⊎_elim (λ e. e) (λ n. absurd (Memᴰ.not-nil n)) (Memᴰ.cases_cons m)

site_has_key : Memᴰ (str "site-tls") (certificate_secret_names site)
unfolding certificate_secret_names ◌==◌
site_has_key = Memᴰ.head refl

web_snapshot : IsSnapshot scoped site_secret [] [] (site ∷ []) (site ∷ []) (rollout ∷ others ∷ [])
unfolding ◌==◌
web_snapshot = record {
  indexed = refl;
  jobs = refl;
  certificates = refl;
  scoped = λ cert m. ap (λ (x : Certificate). x.namespace) (only_site cert m);
  own_names = rollout_own;
  exact = λ cert. (
    λ m. (
      m,
      subst (λ x. Memᴰ (str "site-tls") (certificate_secret_names x)) (sym (only_site cert m))
          site_has_key,
    ),
    λ h. h.0,
  );
}

secret_reaches_example :
    let reqs = (map_secret_to_certificate_jobs scoped site_secret []).1 in
    Distinct (map (λ req. request_key req) reqs)
    × ((cjob : CertificateJob)
        → Memᴰ cjob (rollout ∷ others ∷ [])
        → Memᴰ (request_of cjob) reqs ↔ (
            (cert : Certificate) × Memᴰ cert (site ∷ [])
            × (cert.spec.secret_name ≡ str "site-tls")
            × IsListedBy scoped cert cjob []))
secret_reaches_example =
    secret_reaches scoped site_secret [] [] (site ∷ []) (site ∷ []) (rollout ∷ others ∷ [])
      scoped_plain web_snapshot (λ e. cc)

abbrev two_names : List Str
two_names = str "web" ∷ str "pki" ∷ []

parse_watch_namespaces-join_example :
    parse_watch_namespaces tt (str "web,pki") ≡ some (entries_of tt two_names)
unfolding contains ◌==◌
parse_watch_namespaces-join_example =
    parse_watch_namespaces-join tt two_names (λ e. cc) (ground arith) (refl, (refl, tt))

abbrev environment : Str → Str
environment name = if name == str "WATCH_NAMESPACE" then str " web, ,pki,web" else []

watch_namespace_cache_config_lem_example :
    IsAskedFor tt environment (watch_namespace_cache_config tt environment)
watch_namespace_cache_config_lem_example = watch_namespace_cache_config_lem tt environment
