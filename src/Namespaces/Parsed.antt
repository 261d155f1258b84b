-- ===== src/Namespaces/Parsed.antt =====
-- About the namespaces that are watched (`watchNamespaceCacheConfig`).
use certificate_job_operator.Prelude.{
  Bool, true, false, ◌&&◌, ◌||◌, not, any, Option, none, some, List, [], ◌∷◌, map, Str, Map, str,
  keys, insert, ◌==◌, ==_iff, contains, Distinct, ◌≡◌, ◌≢◌, refl, sym, ap, ◌∙◌, subst, ◌↔◌, inl,
  inr, arith, Bool-cases, Option-cases, if◌then◌else◌,
}
use certificate_job_operator.Workflow.Descendants.Reached.{List-cases}
use certificate_job_operator.Workflow.Acyclic.Setup.{contains-insert, insert-Distinct}
use certificate_job_operator.Namespaces.{
  trim_space, split_comma, add_namespaces, parse_watch_namespaces, watch_namespace_cache_config,
}

-- Some name is not empty.
abbrev pub any_named : List Str → Bool
any_named = any (λ name. not (name == []))

any_named_of :
    (names : List Str) (k : Str) → contains names k ≡ true → k ≢ [] → any_named names ≡ true
unfolding contains
any_named_of [] k h named = cc
any_named_of (name ∷ names) k h named =
    ground (arith, ==_iff name k, ==_iff name [], any_named_of names k)

named_of_any :
    (names : List Str) → any_named names ≡ true → (k : Str) × (contains names k ≡ true) × (k ≢ [])
unfolding contains
named_of_any [] h = absurd (cc)
named_of_any (name ∷ names) h = elim (Bool-cases (name == [])) [
  | inr named ↦ (name, ground (arith, ==_iff name name), λ e. ground (arith, ==_iff name []))
  | inl empty ↦ let (k, m, named) = named_of_any names (ground arith) in (k, ground arith, named)
]

module _ {Config : Type 0} (config : Config) where
  -- The loop writes the pieces that are left after trimming.
  add_namespaces-keys :
      (pieces : List Str) (m : Map Config) (k : Str)
      → contains (keys (add_namespaces config pieces m)) k
        ≡ ((not (k == []) && contains (map (λ p. trim_space p) pieces) k) || contains (keys m) k)
  unfolding add_namespaces contains
  add_namespaces-keys [] m k = ground arith
  add_namespaces-keys (piece ∷ pieces) m k =
      let ns = trim_space piece in
      ground (
        arith,
        ==_iff k [],
        ==_iff ns [],
        ==_iff ns k,
        contains-insert ns k config m,
        add_namespaces-keys pieces m k,
        add_namespaces-keys pieces (insert ns config m) k,
      )

  add_namespaces-Distinct :
      (pieces : List Str) (m : Map Config)
      → Distinct (keys m)
      → Distinct (keys (add_namespaces config pieces m))
  unfolding add_namespaces
  add_namespaces-Distinct [] m d = d
  add_namespaces-Distinct (piece ∷ pieces) m d = elim (Bool-cases (trim_space piece == [])) [
    | inl empty ↦ rw empty (add_namespaces-Distinct pieces m d)
    | inr named ↦ rw named (
        add_namespaces-Distinct pieces (insert (trim_space piece) config m)
          (insert-Distinct (trim_space piece) config m d))
  ]

  -- The names of a map, none of a nil map.
  abbrev pub watched : Option (Map Config) → List Str
  watched none = []
  watched (some m) = keys m

  -- The names that the pieces of `WATCH_NAMESPACE` are trimmed to.
  abbrev pub names_in : Str → List Str
  names_in raw = map (λ p. trim_space p) (split_comma (trim_space raw))

  -- The test for the empty string and the one for the empty map save a call, and change nothing.
  watched-parse :
      (raw : Str)
      → watched (parse_watch_namespaces config raw)
        ≡ keys (add_namespaces config (split_comma (trim_space raw)) [])
  unfolding parse_watch_namespaces
  watched-parse raw =
      let m = add_namespaces config (split_comma (trim_space raw)) [] in
      elim (Bool-cases (trim_space raw == [])) [
        | inl empty ↦
            rw (empty, (==_iff (trim_space raw) []).0 empty)
              (unfold add_namespaces split_comma trim_space ◌==◌ in refl)
        | inr full ↦ elim (List-cases m) [
          | inl none_named ↦ rw (full, none_named) refl
          | inr (entry, rest, e) ↦ rw (full, e) refl
        ]
      ]

  parse_watch_namespaces_lem :
      (raw : Str)
      → let names = watched (parse_watch_namespaces config raw) in
        Distinct names
        × ((k : Str) → contains names k ≡ (not (k == []) && contains (names_in raw) k))
  parse_watch_namespaces_lem raw =
      let pieces = split_comma (trim_space raw) in
      subst
        (λ names.
          Distinct names
          × ((k : Str) → contains names k ≡ (not (k == []) && contains (names_in raw) k)))
        (sym (watched-parse raw))
        (
          add_namespaces-Distinct pieces [] tt,
          λ k. unfold contains in ground (arith, add_namespaces-keys pieces [] k),
        )

  -- A map is returned with an entry.
  parse_watch_namespaces-some :
      (raw : Str) {m : Map Config}
      → parse_watch_namespaces config raw ≡ some m
      → (k : Str) × (contains (keys m) k ≡ true)
  unfolding parse_watch_namespaces contains
  parse_watch_namespaces-some raw {m = []} e =
      elim (List-cases (add_namespaces config (split_comma (trim_space raw)) [])) [
        | inl none_named ↦ absurd (ground arith)
        | inr (entry, rest, e') ↦ absurd (ground arith)
      ]
  parse_watch_namespaces-some raw {m = entry ∷ m} e =
      (entry.0, ground (arith, ==_iff entry.0 entry.0))

  -- The names that the two variables ask for, each once; a nil map is for every namespace.
  pub record IsAskedFor (getenv : Str → Str) (config_map : Option (Map Config)) : Type 0 where
    pub distinct : Distinct (watched config_map)
    pub exact :
        (k : Str)
        → let read = names_in (getenv (str "WATCH_NAMESPACE")) in
          contains (watched config_map) k ≡ (
            not (k == [])
            && (if any_named read
                then contains read k
                else trim_space (getenv (str "POD_NAMESPACE")) == k))
    pub everything : (config_map ≡ none) ↔ (
        (any_named (names_in (getenv (str "WATCH_NAMESPACE"))) ≡ false)
        × (trim_space (getenv (str "POD_NAMESPACE")) ≡ []))

  -- Whatever the two variables hold, the operator watches exactly the names that the pieces of
  -- `WATCH_NAMESPACE` are trimmed to, the empty ones left out, each of them once; where none is
  -- left, it watches the trimmed `POD_NAMESPACE` alone, and every namespace (a nil map) exactly when
  -- that is empty too. So the empty name, which stands for every namespace, is never a key.
  pub watch_namespace_cache_config_lem :
      (getenv : Str → Str) → IsAskedFor getenv (watch_namespace_cache_config config getenv)
  unfolding watch_namespace_cache_config
  watch_namespace_cache_config_lem getenv =
      let raw = getenv (str "WATCH_NAMESPACE") in
      let read = names_in raw in
      let pod = trim_space (getenv (str "POD_NAMESPACE")) in
      let (d, exact) = parse_watch_namespaces_lem raw in
      elim (Option-cases (parse_watch_namespaces config raw)) [
        | inr (m, e) ↦
            let (k, at) = parse_watch_namespaces-some raw {m = m} e in
            let known = λ (j : Str). ap (λ o. contains (watched o) j) (sym e) ∙ exact j in
            let some_named : any_named read ≡ true =
              any_named_of read k (ground (arith, known k))
                (ground (arith, known k, ==_iff k [])) in
            let out : watch_namespace_cache_config config getenv ≡ some m =
              rw (e, watch_namespace_cache_config) refl in
            subst (IsAskedFor getenv) (sym out) (record {
              distinct = subst (λ o. Distinct (watched o)) e d;
              exact = λ j. rw some_named (known j);
              everything = (λ nothing. absurd (cc), λ (unnamed, _). absurd (cc));
            })
        | inl e ↦
            let known = λ (j : Str). ap (λ o. contains (watched o) j) (sym e) ∙ exact j in
            let unnamed : any_named read ≡ false = elim (Bool-cases (any_named read)) [
              | inr no_name ↦ no_name
              | inl some_name ↦
                  let (k, at, named) = named_of_any read some_name in
                  absurd (unfold contains in ground (arith, known k, ==_iff k []))
            ] in
            elim (Bool-cases (pod == [])) [
              | inl empty ↦
                  let out : watch_namespace_cache_config config getenv ≡ none =
                    rw (e, empty, watch_namespace_cache_config) refl in
                  let no_pod = (==_iff pod []).0 empty in
                  subst (IsAskedFor getenv) (sym out) (record {
                    distinct = tt;
                    exact = λ j.
                        rw (unnamed, no_pod)
                          (unfold contains in ground (arith, ==_iff j [], ==_iff [] j));
                    everything = (λ _. (unnamed, no_pod), λ _. refl);
                  })
              | inr full ↦
                  let out : watch_namespace_cache_config config getenv ≡ some ((pod, config) ∷ []) =
                    rw (e, full, watch_namespace_cache_config) refl in
                  subst (IsAskedFor getenv) (sym out) (record {
                    distinct = unfold contains in (refl, tt);
                    exact = λ j. rw unnamed (
                        unfold contains in
                        ground (arith, ==_iff j [], ==_iff pod j, ==_iff pod []));
                    everything = (
                      λ nothing. absurd (cc),
                      λ (_, no_pod). absurd (ground (arith, ==_iff pod [])),
                    );
                  })
            ]
      ]
