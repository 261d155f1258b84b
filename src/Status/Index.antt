-- ===== src/Status/Index.antt =====
-- The index of the observed states stays right while states are added.
use certificate_job_operator.Prelude.{
  ℕ, zero, suc, some, List, [], ◌∷◌, ◌++◌, Str, Map, lookup, insert, lookup-insert, get_elem?,
  length, ◌==◌, ==_iff, ==_refl, ◌≡◌, refl, arith, inl, inr, ◌⊎◌, ◌∙◌, sym, subst, length-append,
  Option-cases, Bool-cases, get_elem?-append,
}
use mathlib.Core.List.{append-nil, append_assoc}
use certificate_job_operator.Api.{Certificate, CertificateExecutionState}
use certificate_job_operator.Status.{
  certificate_key, key_of, index_from, observed_state_index, new_state,
  ensure_observed_certificate_state,
}

-- The index leads every key to a state of that key, and it has the keys of all states.
pub record IsIndexOf (index : Map ℕ) (observed : List CertificateExecutionState) : Type 0 where
  pub right :
      (key : Str) (i : ℕ)
      → lookup key index ≡ some i
      → (s : CertificateExecutionState) × (get_elem? observed i ≡ some s) × (key_of s ≡ key)
  pub full :
      (i : ℕ) (s : CertificateExecutionState)
      → get_elem? observed i ≡ some s
      → (j : ℕ) × (lookup (key_of s) index ≡ some j)

get_elem?-before :
    (xs ys : List CertificateExecutionState) (i : ℕ) {s : CertificateExecutionState}
    → get_elem? xs i ≡ some s
    → get_elem? (xs ++ ys) i ≡ some s
get_elem?-before [] ys i h = ground arith
get_elem?-before (x ∷ xs) ys zero h = h
get_elem?-before (x ∷ xs) ys (suc i) h = get_elem?-before xs ys i h

get_elem?-snoc :
    (xs : List CertificateExecutionState) (y : CertificateExecutionState) (i : ℕ)
    {s : CertificateExecutionState}
    → get_elem? (xs ++ y ∷ []) i ≡ some s
    → (get_elem? xs i ≡ some s) ⊎ (s ≡ y)
get_elem?-snoc [] y zero h = ground arith
get_elem?-snoc [] y (suc i) h = ground arith
get_elem?-snoc (x ∷ xs) y zero h = inl h
get_elem?-snoc (x ∷ xs) y (suc i) h = get_elem?-snoc xs y i h

-- Adding a state at the end, with its key.
snoc-IsIndexOf :
    (index : Map ℕ) (observed : List CertificateExecutionState) (s : CertificateExecutionState)
    → IsIndexOf index observed
    → IsIndexOf (insert (key_of s) (length observed) index) (observed ++ s ∷ [])
snoc-IsIndexOf index observed s h = record {
  right = λ key i found. elim (Bool-cases (key_of s == key)) [
    | inl e ↦ (
      s,
      ground (
        arith,
        lookup-insert (key_of s) key (length observed) index,
        get_elem?-append observed s [],
      ),
      (==_iff (key_of s) key).0 e,
    )
    | inr e ↦
        let (t, at, same) =
          h.right key i (ground (arith, lookup-insert (key_of s) key (length observed) index)) in
        (t, get_elem?-before observed (s ∷ []) i at, same)
  ];
  full = λ i t at. elim (get_elem?-snoc observed s i at) [
    | inl old ↦ elim (Bool-cases (key_of s == key_of t)) [
      | inl e ↦ (
        length observed,
        ground (arith, lookup-insert (key_of s) (key_of t) (length observed) index),
      )
      | inr e ↦
          let (j, found) = h.full i t old in
          (j, ground (arith, lookup-insert (key_of s) (key_of t) (length observed) index))
    ]
    | inr e ↦ (
      length observed,
      rw e (
          lookup-insert (key_of s) (key_of s) (length observed) index
          ∙ rw (==_refl (key_of s)) refl),
    )
  ];
}

index_from-IsIndexOf :
    (before rest : List CertificateExecutionState) (index : Map ℕ)
    → IsIndexOf index before
    → IsIndexOf (index_from (length before) rest index) (before ++ rest)
unfolding index_from
index_from-IsIndexOf before [] index h = subst (IsIndexOf index) (sym (append-nil before)) h
index_from-IsIndexOf before (s ∷ rest) index h =
    let longer = before ++ s ∷ [] in
    let index' = insert (key_of s) (length before) index in
    let count : length longer ≡ suc (length before) = length-append before (s ∷ []) ∙ omega arith in
    subst (λ n. IsIndexOf (index_from n rest index') (before ++ s ∷ rest)) count
      (subst (IsIndexOf (index_from (length longer) rest index'))
        (append_assoc before (s ∷ []) rest)
        (index_from-IsIndexOf longer rest index' (snoc-IsIndexOf index before s h)))

-- `observedStateIndex` leads every key to a state of that key, and has the keys of all states.
pub observed_state_index-IsIndexOf :
    (observed : List CertificateExecutionState) → IsIndexOf (observed_state_index observed) observed
unfolding observed_state_index lookup
observed_state_index-IsIndexOf observed =
    index_from-IsIndexOf [] observed []
      (record { right = λ key i h. ground arith; full = λ i s h. ground arith })

-- `ensureObservedCertificateState` returns the place of a state of the certificate, which it adds
-- where there is none, and the index stays right; the states that were there keep their places.
pub ensure_observed_certificate_state_lem :
    (index : Map ℕ) (observed : List CertificateExecutionState) (cert : Certificate)
    → IsIndexOf index observed
    → let out = ensure_observed_certificate_state index observed cert in
      IsIndexOf out.index out.observed
      × ((s : CertificateExecutionState) × (get_elem? out.observed out.position ≡ some s)
          × (key_of s ≡ certificate_key cert.namespace cert.name))
      × ((added : List CertificateExecutionState) × (out.observed ≡ observed ++ added))
unfolding ensure_observed_certificate_state
ensure_observed_certificate_state_lem index observed cert h =
    elim (Option-cases (lookup (certificate_key cert.namespace cert.name) index)) [
      | inl absent ↦
          rw (absent, ensure_observed_certificate_state)
            (
              snoc-IsIndexOf index observed (new_state cert) h,
              (new_state cert, get_elem?-append observed (new_state cert) [], refl),
              (new_state cert ∷ [], refl),
            )
      | inr (i, found) ↦
          rw (found, ensure_observed_certificate_state)
            (h, h.right _ i found, ([], sym (append-nil _)))
    ]
