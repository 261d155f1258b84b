-- ===== src/Prelude/Maps.antt =====
-- `map[string]V`: an association list. Its order stands for the order in which a `range` over the
-- map visits the keys, which Go leaves open; a statement for every list is one for every order.
use mathlib.Core.Path.{◌≡◌, refl}
use mathlib.Core.Option.{Option, none, some}
use mathlib.Core.List.{List, [], ◌∷◌, map}
use native.Mathlib.Omega.{arith}
use certificate_job_operator.Prelude.Tests.{if◌then◌else◌}
use certificate_job_operator.Prelude.Text.{Str, ◌==◌, ==_iff}

abbrev pub Map {ℓ} : Type ℓ → Type ℓ
Map V = List (Str × V)

module _ {ℓ} {V : Type ℓ} where
  abbrev pub keys : Map V → List Str
  keys = map (λ e. e.0)

  -- `v, ok := m[k]`.
  unfoldable pub lookup : Str → Map V → Option V
  lookup key [] = none
  lookup key (entry ∷ rest) = if entry.0 == key then some entry.1 else lookup key rest

  -- `m[key] = value`.
  unfoldable pub insert : Str → V → Map V → Map V
  insert key value [] = (key, value) ∷ []
  insert key value (entry ∷ rest) =
      if entry.0 == key then (entry.0, value) ∷ rest else entry ∷ insert key value rest

  -- Reading after a write.
  pub lookup-insert :
      (written read : Str) (value : V) (entries : Map V)
      → lookup read (insert written value entries)
        ≡ (if written == read then some value else lookup read entries)
  unfolding lookup insert
  lookup-insert written read value [] = refl
  lookup-insert written read value (entry ∷ rest) = ground (
    arith,
    ==_iff written read,
    ==_iff entry.0 written,
    ==_iff entry.0 read,
    lookup-insert written read value rest,
  )

  -- `for k, v := range extras { out[k] = v }`.
  unfoldable pub insert_all : Map V → Map V → Map V
  insert_all out [] = out
  insert_all out ((k, v) ∷ rest) = insert_all (insert k v out) rest
