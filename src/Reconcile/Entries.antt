-- ===== src/Reconcile/Entries.antt =====
-- The keys of the observed states while the loop over the certificates runs.
use certificate_job_operator.Prelude.{
  ℕ, zero, suc, true, false, ◌&&◌, none, some, List, [], ◌∷◌, ◌++◌, map, Str, Map, ◌==◌, ==_iff,
  contains, contains-append, Distinct, Distinct-snoc, get_elem?, set, lookup, ◌≡◌, refl, ap, arith,
  inl, inr, Option-cases, Bool-cases, subst,
}
use mathlib.Core.Option
use certificate_job_operator.Api.{Certificate, CertificateExecutionState}
use certificate_job_operator.Status.{
  certificate_key, key_of, new_state, ensure_observed_certificate_state, filter_observed_states,
}
use certificate_job_operator.Status.Index.{IsIndexOf}

abbrev pub keys_of : List CertificateExecutionState → List Str
keys_of = map (λ s. key_of s)

get_elem?-keys_of :
    (observed : List CertificateExecutionState) (i : ℕ)
    → get_elem? (keys_of observed) i ≡ Option.map (λ s. key_of s) (get_elem? observed i)
get_elem?-keys_of [] i = refl
get_elem?-keys_of (s ∷ observed) zero = refl
get_elem?-keys_of (s ∷ observed) (suc i) = get_elem?-keys_of observed i

-- The index depends on the keys alone.
pub IsIndexOf-of_keys :
    (index : Map ℕ) (xs ys : List CertificateExecutionState)
    → keys_of ys ≡ keys_of xs
    → IsIndexOf index xs
    → IsIndexOf index ys
IsIndexOf-of_keys index xs ys same h = record {
  right = λ key i found.
      let (s, at, is_key) = h.right key i found in
      elim (Option-cases (get_elem? ys i)) [
        | inl missing ↦ absurd (
            ground
              (arith, get_elem?-keys_of xs i, get_elem?-keys_of ys i, ap (λ l. get_elem? l i) same))
        | inr (t, there) ↦ (
          t,
          there,
          ground
              (arith, get_elem?-keys_of xs i, get_elem?-keys_of ys i, ap (λ l. get_elem? l i) same),
        )
      ];
  full = λ i t there. elim (Option-cases (get_elem? xs i)) [
    | inl missing ↦ absurd (
        ground
          (arith, get_elem?-keys_of xs i, get_elem?-keys_of ys i, ap (λ l. get_elem? l i) same))
    | inr (s, at) ↦
        let (j, found) = h.full i s at in
        (
          j,
          ground
              (arith, get_elem?-keys_of xs i, get_elem?-keys_of ys i, ap (λ l. get_elem? l i) same),
        )
  ];
}

-- A write that keeps the key of its entry keeps all keys.
pub keys_of-set :
    (observed : List CertificateExecutionState) (i : ℕ) (s s' : CertificateExecutionState)
    → get_elem? observed i ≡ some s
    → key_of s' ≡ key_of s
    → keys_of (set observed i s') ≡ keys_of observed
keys_of-set [] i s s' at same = refl
keys_of-set (x ∷ observed) zero s s' at same = ground arith
keys_of-set (x ∷ observed) (suc i) s s' at same =
    ap (λ l. key_of x ∷ l) (keys_of-set observed i s s' at same)

entry_of_key :
    (observed : List CertificateExecutionState) (k : Str)
    → contains (keys_of observed) k ≡ true
    → (i : ℕ) × (s : CertificateExecutionState) × (get_elem? observed i ≡ some s) × (key_of s ≡ k)
unfolding contains
entry_of_key [] k h = absurd (cc)
entry_of_key (s ∷ observed) k h = elim (Bool-cases (key_of s == k)) [
  | inl here ↦ (0, s, refl, (==_iff (key_of s) k).0 here)
  | inr other ↦
      let (i, t, at, same) = entry_of_key observed k (ground arith) in (suc i, t, at, same)
]

pub key_of_entry :
    (observed : List CertificateExecutionState) (i : ℕ) (s : CertificateExecutionState)
    → get_elem? observed i ≡ some s
    → contains (keys_of observed) (key_of s) ≡ true
unfolding contains
key_of_entry [] i s h = absurd (cc)
key_of_entry (x ∷ observed) zero s h = ground (arith, ==_iff (key_of x) (key_of s))
key_of_entry (x ∷ observed) (suc i) s h = ground (arith, key_of_entry observed i s h)

keys_of-append :
    (xs ys : List CertificateExecutionState) → keys_of (xs ++ ys) ≡ keys_of xs ++ keys_of ys
keys_of-append [] ys = refl
keys_of-append (x ∷ xs) ys = ap (λ l. key_of x ∷ l) (keys_of-append xs ys)

absent_key :
    (index : Map ℕ) (observed : List CertificateExecutionState) (key : Str)
    → IsIndexOf index observed
    → lookup key index ≡ none
    → contains (keys_of observed) key ≡ false
absent_key index observed key h absent = elim (Bool-cases (contains (keys_of observed) key)) [
  | inr fresh ↦ fresh
  | inl old ↦
      let (i, s, at, same) = entry_of_key observed key old in
      let (j, found) = h.full i s at in
      let moved : lookup key index ≡ some j = subst (λ k. lookup k index ≡ some j) same found in
      absurd (ground arith)
]

-- `ensureObservedCertificateState` adds the key of the certificate, where it is missing.
pub ensure-keys_of :
    (index : Map ℕ) (observed : List CertificateExecutionState) (cert : Certificate)
    → IsIndexOf index observed
    → let e = ensure_observed_certificate_state index observed cert in
      let key = certificate_key cert.namespace cert.name in
      (contains (keys_of e.observed) key ≡ true)
      × ((k : Str) → contains (keys_of observed) k ≡ true → contains (keys_of e.observed) k ≡ true)
      × (Distinct (keys_of observed) → Distinct (keys_of e.observed))
unfolding ensure_observed_certificate_state
ensure-keys_of index observed cert h =
    let key = certificate_key cert.namespace cert.name in
    let added = keys_of-append observed (new_state cert ∷ []) in
    elim (Option-cases (lookup key index)) [
      | inr (i, found) ↦
          let (s, at, same) = h.right key i found in
          rw (found, ensure_observed_certificate_state)
            (
              subst (λ x. contains (keys_of observed) x ≡ true) same (key_of_entry observed i s at),
              λ k m. m,
              λ d. d,
            )
      | inl absent ↦
          rw (absent, ensure_observed_certificate_state)
            (
              rw added (
                  unfold contains in
                  ground
                    (arith, contains-append (keys_of observed) (key ∷ []) key, ==_iff key key)),
              λ k m. rw added (ground (arith, contains-append (keys_of observed) (key ∷ []) k)),
              λ d.
                  rw added (
                    Distinct-snoc (keys_of observed) key d
                      (absent_key index observed key h absent)),
            )
    ]

pub filter-keys_of :
    (observed : List CertificateExecutionState) (keys : List Str) (k : Str)
    → contains (keys_of (filter_observed_states observed keys)) k
      ≡ (contains (keys_of observed) k && contains keys k)
unfolding filter_observed_states contains
filter-keys_of [] keys k = refl
filter-keys_of (s ∷ observed) keys k =
    ground (arith, ==_iff (key_of s) k, filter-keys_of observed keys k)

pub filter-Distinct :
    (observed : List CertificateExecutionState) (keys : List Str)
    → Distinct (keys_of observed)
    → Distinct (keys_of (filter_observed_states observed keys))
unfolding filter_observed_states
filter-Distinct [] keys d = tt
filter-Distinct (s ∷ observed) keys d =
    ground (arith, filter-keys_of observed keys (key_of s), filter-Distinct observed keys d.1)
