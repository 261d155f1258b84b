-- ===== src/Prelude/Sort.antt =====
-- `sort.Strings` and `sort.Slice`: a sort by a `less` function. The result of Go's sort on entries
-- of distinct keys is the one ordered permutation, whatever the algorithm.
use Prim.Native.Nat.{suc}
use mathlib.Core.Path.{◌≡◌, refl}
use mathlib.Core.Logic.{◌↔◌, ◌⊎◌}
use mathlib.Core.Bool.{Bool}
use mathlib.Core.List.{List, [], ◌∷◌, Memᴰ}
use native.Mathlib.Omega.{arith}
use certificate_job_operator.Prelude.Tests.{if◌then◌else◌}
use certificate_job_operator.Prelude.Text.{Str, str_lt}
use certificate_job_operator.Prelude.Lists.{length, Memᴰ-cons}

module _ {ℓ} {A : Type ℓ} (less : A → A → Bool) where
  unfoldable pub sort_insert : A → List A → List A
  sort_insert a [] = a ∷ []
  sort_insert a (x ∷ xs) = if less x a then x ∷ sort_insert a xs else a ∷ x ∷ xs

  unfoldable pub sort : List A → List A
  unfolding sort_insert
  sort [] = []
  sort (x ∷ xs) = sort_insert x (sort xs)

  sort_insert-mem : (a b : A) (xs : List A) → Memᴰ a (sort_insert b xs) ↔ ((a ≡ b) ⊎ Memᴰ a xs)
  unfolding sort_insert
  sort_insert-mem a b [] = Memᴰ-cons a b []
  sort_insert-mem a b (x ∷ xs) = ground (
    arith,
    sort_insert-mem a b xs,
    Memᴰ-cons a x xs,
    Memᴰ-cons a x (sort_insert b xs),
    Memᴰ-cons a b (x ∷ xs),
  )

  pub sort-mem : (a : A) (xs : List A) → Memᴰ a (sort xs) ↔ Memᴰ a xs
  unfolding sort
  sort-mem a [] = ((λ m. m), λ m. m)
  sort-mem a (x ∷ xs) =
      ground (arith, sort-mem a xs, sort_insert-mem a x (sort xs), Memᴰ-cons a x xs)

  length-sort_insert : (b : A) (xs : List A) → length (sort_insert b xs) ≡ suc (length xs)
  unfolding sort_insert
  length-sort_insert b [] = refl
  length-sort_insert b (x ∷ xs) = ground (arith, length-sort_insert b xs)

  pub length-sort : (xs : List A) → length (sort xs) ≡ length xs
  unfolding sort
  length-sort [] = refl
  length-sort (x ∷ xs) = ground (arith, length-sort xs, length-sort_insert x (sort xs))

unfoldable pub sort_strings : List Str → List Str
unfolding sort str_lt
sort_strings = sort str_lt

pub sort_strings-mem : (s : Str) (xs : List Str) → Memᴰ s (sort_strings xs) ↔ Memᴰ s xs
unfolding sort_strings
sort_strings-mem s xs = sort-mem str_lt s xs
