-- ===== src/Prelude/Counting.antt =====
-- Lists of strings as finite sets and multisets: occurrences, distinct entries, the pigeonhole.
use Prim.Native.Nat.{ℕ, suc, ◌+◌, ◌≤◌}
use mathlib.Core.Path.{◌≡◌, refl, ap}
use mathlib.Core.Logic.{inl, inr}
use mathlib.Core.Bool.{true, false, ◌||◌}
use mathlib.Core.List.{List, [], ◌∷◌, ◌++◌, Memᴰ}
use mathlib.Core.List.Memᴰ
use native.Mathlib.Omega.{arith}
use certificate_job_operator.Prelude.Tests.{if◌then◌else◌, Bool-cases}
use certificate_job_operator.Prelude.Text.{Str, ◌==◌, ==_iff, ==_refl}
use certificate_job_operator.Prelude.Lists.{length, contains, Memᴰ-cons}

abbrev pub count : Str → List Str → ℕ
count s [] = 0
count s (x ∷ xs) = if x == s then suc (count s xs) else count s xs

-- The entries of a list that are not in a set.
abbrev pub unseen : List Str → List Str → ℕ
unseen [] seen = 0
unseen (x ∷ xs) seen = if contains seen x then unseen xs seen else suc (unseen xs seen)

abbrev pub Distinct : List Str → Type 0
Distinct [] = Unit
Distinct (x ∷ xs) = (contains xs x ≡ false) × Distinct xs

abbrev pub IsSubset : List Str → List Str → Type 0
IsSubset xs ys = (s : Str) → contains xs s ≡ true → contains ys s ≡ true

-- The list without the first occurrence.
abbrev pub erase : Str → List Str → List Str
erase s [] = []
erase s (x ∷ xs) = if x == s then xs else x ∷ erase s xs

pub contains-append :
    (xs ys : List Str) (s : Str) → contains (xs ++ ys) s ≡ (contains xs s || contains ys s)
unfolding contains
contains-append [] ys s = refl
contains-append (x ∷ xs) ys s = ground (arith, contains-append xs ys s)

pub unseen-nil : (xs : List Str) → unseen xs [] ≡ length xs
unfolding contains
unseen-nil [] = refl
unseen-nil (x ∷ xs) = ap suc (unseen-nil xs)

pub unseen-cons :
    (xs seen : List Str) (c : Str)
    → contains seen c ≡ false
    → unseen xs seen ≡ unseen xs (c ∷ seen) + count c xs
unfolding contains
unseen-cons [] seen c h = omega arith
unseen-cons (x ∷ xs) seen c h = ground (arith, ==_iff c x, ==_iff x c, unseen-cons xs seen c)

pub unseen_zero :
    (xs seen : List Str) → ((s : Str) → Memᴰ s xs → contains seen s ≡ true) → unseen xs seen ≡ 0
unseen_zero [] seen h = refl
unseen_zero (x ∷ xs) seen h =
    ground (arith, h x (Memᴰ.head refl), unseen_zero xs seen (λ s m. h s (Memᴰ.tail m)))

pub contains_of_unseen_zero :
    (xs seen : List Str) (s : Str) → unseen xs seen ≡ 0 → Memᴰ s xs → contains seen s ≡ true
contains_of_unseen_zero [] seen s h m = absurd (Memᴰ.not-nil m)
contains_of_unseen_zero (x ∷ xs) seen s h m =
    ground (arith, contains_of_unseen_zero xs seen s, Memᴰ-cons s x xs)

pub count-mem : (s : Str) (xs : List Str) → Memᴰ s xs → 1 ≤ count s xs
count-mem s [] m = absurd (Memᴰ.not-nil m)
count-mem s (x ∷ xs) m = ground (arith, ==_iff x s, count-mem s xs, Memᴰ-cons s x xs)

pub count-append : (s : Str) (xs ys : List Str) → count s (xs ++ ys) ≡ count s xs + count s ys
count-append s [] ys = omega arith
count-append s (x ∷ xs) ys = ground (arith, count-append s xs ys)

length-erase :
    (s : Str) (xs : List Str) → contains xs s ≡ true → suc (length (erase s xs)) ≡ length xs
unfolding contains
length-erase s [] h = absurd (cc)
length-erase s (x ∷ xs) h = ground (arith, length-erase s xs)

contains-erase :
    (s t : Str) (xs : List Str)
    → contains xs t ≡ true
    → (s == t) ≡ false
    → contains (erase s xs) t ≡ true
unfolding contains
contains-erase s t [] h ne = absurd (cc)
contains-erase s t (x ∷ xs) h ne =
    ground (arith, ==_iff x s, ==_iff x t, ==_iff s t, contains-erase s t xs)

-- Distinct entries out of a list are no more than the list has.
pub length-le_of_subset : (xs ys : List Str) → Distinct xs → IsSubset xs ys → length xs ≤ length ys
unfolding contains
length-le_of_subset [] ys d sub = omega arith
length-le_of_subset (x ∷ xs) ys d sub =
    let here = sub x (ground (arith, ==_refl x)) in
    let rest =
      length-le_of_subset xs (erase x ys) d.1
        (λ s m. contains-erase x s ys (sub s (ground arith)) (ground (arith, ==_iff x s))) in
    omega (arith, length-erase x ys here)

-- With as many distinct entries as the list has, nothing of the list is left out.
pub subset_of_length :
    (xs ys : List Str) → Distinct xs → IsSubset xs ys → length xs ≡ length ys → IsSubset ys xs
subset_of_length xs ys d sub e s m = elim (Bool-cases (contains xs s)) [
  | inl there ↦ there
  | inr missing ↦ absurd (omega (arith, length-le_of_subset (s ∷ xs) ys (missing, d) more))
]
  where
    more : IsSubset (s ∷ xs) ys
    more t h = unfold contains in ground (arith, sub t, ==_iff s t)

pub Distinct-snoc :
    (xs : List Str) (x : Str) → Distinct xs → contains xs x ≡ false → Distinct (xs ++ x ∷ [])
unfolding contains
Distinct-snoc [] x d h = (refl, tt)
Distinct-snoc (y ∷ xs) x d h =
    ground (arith, ==_iff x y, ==_iff y x, contains-append xs (x ∷ []) y, Distinct-snoc xs x d.1)

pub contains-snoc :
    (xs : List Str) (x s : Str) → contains (xs ++ x ∷ []) s ≡ (contains xs s || x == s)
contains-snoc xs x s = unfold contains in ground (arith, contains-append xs (x ∷ []) s)
