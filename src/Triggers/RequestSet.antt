-- ===== src/Triggers/RequestSet.antt =====
-- The map `requestSet`: one entry for each request of a namespace.
use certificate_job_operator.Prelude.{
  true, List, [], ◌∷◌, ◌++◌, map, Str, str, Map, keys, ◌==◌, ==_iff, insert, Distinct, ◌≡◌, refl,
  sym, ap, ◌∙◌, ◌↔◌, ◌⊎◌, inl, inr, ⊎_elim, All, Memᴰ, Memᴰ-cons, arith, Bool-cases,
}
use mathlib.Core.List.Memᴰ
use certificate_job_operator.Workflow.Acyclic.Setup.{insert-Distinct}
use certificate_job_operator.Triggers.{Request, request_key, add_requests}

append-cancel : (xs ys zs : Str) → xs ++ ys ≡ xs ++ zs → ys ≡ zs
append-cancel [] ys zs h = h
append-cancel (x ∷ xs) ys zs h = append-cancel xs ys zs cc

-- In one namespace the key determines the request.
key-injective : (a b : Request) → a.namespace ≡ b.namespace → request_key a ≡ request_key b → a ≡ b
key-injective a b same h =
    let names : a.name ≡ b.name =
      append-cancel (b.namespace ++ str "/") a.name b.name
        (ap (λ n. n ++ str "/" ++ a.name) (sym same) ∙ h) in
    ground arith

abbrev pub values : Map Request → List Request
values = map (λ entry. entry.1)

abbrev pub IsInNamespace : Str → Request → Type 0
IsInNamespace namespace req = req.namespace ≡ namespace

-- Every request of the set is in the namespace, under its own key.
abbrev pub IsRequestSet : Str → Map Request → Type 0
IsRequestSet namespace =
    All
      (λ (entry : Str × Request). (entry.0 ≡ request_key entry.1) × (entry.1.namespace ≡ namespace))

module _ (namespace : Str) where
  insert-IsRequestSet :
      (req : Request) (m : Map Request)
      → IsInNamespace namespace req
      → IsRequestSet namespace m
      → IsRequestSet namespace (insert (request_key req) req m)
  unfolding insert
  insert-IsRequestSet req [] own h = ((refl, own), tt)
  insert-IsRequestSet req (entry ∷ m) own (h, hs) = elim (Bool-cases (entry.0 == request_key req)) [
    | inl here ↦ rw here (((==_iff entry.0 (request_key req)).0 here, own), hs)
    | inr other ↦ rw other (h, insert-IsRequestSet req m own hs)
  ]

  insert-mem :
      (r req : Request) (m : Map Request)
      → IsInNamespace namespace req
      → IsRequestSet namespace m
      → Memᴰ r (values (insert (request_key req) req m)) ↔ ((r ≡ req) ⊎ Memᴰ r (values m))
  unfolding insert
  insert-mem r req [] own h = Memᴰ-cons r req []
  insert-mem r req (entry ∷ m) own (h, hs) =
      let same = λ (e : (entry.0 == request_key req) ≡ true).
        key-injective entry.1 req (h.1 ∙ sym own)
          (sym h.0 ∙ (==_iff entry.0 (request_key req)).0 e) in
      let rest = insert-mem r req m own hs in
      elim (Bool-cases (entry.0 == request_key req)) [
        | inl here ↦
            rw here (
              ground (arith, same here, Memᴰ-cons r req (values m), Memᴰ-cons r entry.1 (values m)))
        | inr other ↦ rw other (
            ground (
              arith,
              rest,
              Memᴰ-cons r entry.1 (values m),
              Memᴰ-cons r entry.1 (values (insert (request_key req) req m)),
            ))
      ]

  -- The map after the loop over some requests.
  pub record Adds (reqs : List Request) (m m' : Map Request) : Type 0 where
    pub own : IsRequestSet namespace m'
    pub distinct : Distinct (keys m')
    pub members : (r : Request) → Memᴰ r (values m') ↔ (Memᴰ r reqs ⊎ Memᴰ r (values m))

  pub add_requests_lem :
      (reqs : List Request) (m : Map Request)
      → All (IsInNamespace namespace) reqs
      → IsRequestSet namespace m
      → Distinct (keys m)
      → Adds reqs m (add_requests reqs m)
  unfolding add_requests
  add_requests_lem [] m owns own distinct = record {
    own = own;
    distinct = distinct;
    members = λ r. (inr, ⊎_elim (λ e. absurd (Memᴰ.not-nil e)) (λ h. h));
  }
  add_requests_lem (req ∷ reqs) m (o, owns) own distinct =
      let m' = insert (request_key req) req m in
      let later =
        add_requests_lem reqs m' owns (insert-IsRequestSet req m o own)
          (insert-Distinct (request_key req) req m distinct) in
      record {
        own = later.own;
        distinct = later.distinct;
        members =
            λ r. ground (arith, later.members r, insert-mem r req m o own, Memᴰ-cons r req reqs);
      }

-- The keys are those of the requests.
pub keys-values :
    (namespace : Str) (m : Map Request)
    → IsRequestSet namespace m
    → keys m ≡ map (λ r. request_key r) (values m)
keys-values namespace [] h = refl
keys-values namespace ((k, r) ∷ m) ((e, _), hs) =
    ap (λ l. k ∷ l) (keys-values namespace m hs)
    ∙ ap (λ j. j ∷ map (λ x. request_key x) (values m)) e
