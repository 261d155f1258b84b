-- ===== src/Jobs/Merge.antt =====
-- `mergeMaps` and `mergeMapsWithBasePrecedence`.
use certificate_job_operator.Prelude.{
  false, Option, none, some, [], ◌∷◌, Str, Map, keys, lookup, insert, insert_all, lookup-insert,
  contains, Distinct, ==_iff, ◌≡◌, refl, arith,
}

-- A nil map and an empty one are the same list, so the final test of the source has no effect.
unfoldable pub merge_maps : Map Str → Map Str → Map Str
unfolding insert_all insert
merge_maps base extras = insert_all (insert_all [] base) extras

unfoldable pub merge_maps_with_base_precedence : Map Str → Map Str → Map Str
unfolding insert_all insert
merge_maps_with_base_precedence base extras = insert_all (insert_all [] extras) base

abbrev pub or_else {ℓ} : {A : Type ℓ} → Option A → Option A → Option A
or_else none b = b
or_else (some a) b = some a

lookup_absent : (k : Str) (m : Map Str) → contains (keys m) k ≡ false → lookup k m ≡ none
unfolding lookup contains
lookup_absent k [] h = refl
lookup_absent k ((j, v) ∷ m) h = ground (arith, lookup_absent k m)

lookup-insert_all :
    (k : Str) (out m : Map Str)
    → Distinct (keys m)
    → lookup k (insert_all out m) ≡ or_else (lookup k m) (lookup k out)
unfolding insert_all lookup
lookup-insert_all k out [] d = refl
lookup-insert_all k out ((j, v) ∷ m) d = ground (
  arith,
  ==_iff j k,
  lookup-insert j k v out,
  lookup_absent k m,
  lookup-insert_all k (insert j v out) m d.1,
)

-- In `mergeMapsWithBasePrecedence` every label of the base survives as it is, and a label of the
-- extras does where the base has none of that key. The two maps have distinct keys, as Go's have.
pub merge_maps_with_base_precedence_lem :
    (base extras : Map Str) (k : Str)
    → Distinct (keys base)
    → Distinct (keys extras)
    → lookup k (merge_maps_with_base_precedence base extras)
      ≡ or_else (lookup k base) (lookup k extras)
unfolding merge_maps_with_base_precedence lookup
merge_maps_with_base_precedence_lem base extras k d e =
    ground
      (arith, lookup-insert_all k (insert_all [] extras) base d, lookup-insert_all k [] extras e)
