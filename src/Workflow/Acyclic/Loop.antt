-- ===== src/Workflow/Acyclic/Loop.antt =====
-- The invariant of the loop of `validateAcyclic`, with the nodes visited so far as a ghost list.
use certificate_job_operator.Prelude.{
  Distinct-snoc, contains-snoc, ℕ, ◌+◌, true, false, ◌||◌, List, [], ◌∷◌, Str, Map, keys, ◌≡◌, refl,
  ◌⊎◌, ⊎_elim, ◌==◌, ==_iff, ==_refl, contains, count, Distinct, arith, unseen, unseen-cons, Memᴰ,
  Bool-cases, subst,
}
use certificate_job_operator.Prelude.Int.{pos}
use certificate_job_operator.Workflow.Runnable.{neighbours}
use certificate_job_operator.Workflow.Acyclic.{
  decrement, degree, Tables, Kahn, release, release_all,
}
use certificate_job_operator.Workflow.Acyclic.Setup.{degree-insert, IsTables}

-- Every chain of dependencies from the node ends; `next` gives the dependencies of a node.
pub data Grounded (next : Str → List Str) : Str → Type 0 where
  rests_on : {n : Str} → ((dep : Str) → Memᴰ dep (next n) → Grounded next dep) → Grounded next n

module _ (deps : Map (List Str)) where
  -- What is left of the in-degree of `n` once `todo` is released: the dependencies not yet visited.
  abbrev left : List Str → List Str → Str → ℕ
  left visited todo n = unseen (neighbours deps n) visited + count n todo

  -- The state in the middle of the inner loop, with `todo` still to be released.
  pub record Inv (visited todo : List Str) (k : Kahn) : Type 0 where
    pub degrees : (n : Str) → degree k.indegree n ≡ pos (left visited todo n)
    pub waiting :
        (n : Str)
        → contains k.queue n ≡ true
        → (contains (keys deps) n ≡ true) × (contains visited n ≡ false) × (left visited todo n ≡ 0)
    pub noticed :
        (n : Str)
        → contains (keys deps) n ≡ true
        → left visited todo n ≡ 0
        → (contains visited n ≡ true) ⊎ (contains k.queue n ≡ true)
    pub past : (n : Str) → contains visited n ≡ true → left visited todo n ≡ 0
    pub single : Distinct k.queue

  release-Inv :
      (visited todo : List Str) (next : Str) (k : Kahn)
      → contains (keys deps) next ≡ true
      → Inv visited (next ∷ todo) k
      → Inv visited todo (release next k)
  unfolding release
  release-Inv visited todo next k key h =
      let fall : decrement (degree k.indegree next) ≡ pos (left visited todo next) =
        ground (arith, ==_refl next, h.degrees next) in
      let fresh : contains visited next ≡ false =
        ⊎_elim (λ old. absurd (ground (arith, ==_refl next, h.past next old))) (λ f. f)
          (Bool-cases (contains visited next)) in
      let absent : contains k.queue next ≡ false =
        ⊎_elim (λ old. absurd (ground (arith, ==_refl next, h.waiting next old))) (λ f. f)
          (Bool-cases (contains k.queue next)) in
      record {
        degrees = λ n. ground (
          arith,
          ==_iff next n,
          degree-insert k.indegree next n (decrement (degree k.indegree next)),
          h.degrees n,
        );
        waiting = λ n q. ground (arith, ==_iff next n, contains-snoc k.queue next n, h.waiting n);
        noticed = λ n at zero_left.
            ground (arith, ==_iff next n, contains-snoc k.queue next n, h.noticed n at);
        past = λ n old. ground (arith, h.past n old);
        single = ground (arith, Distinct-snoc k.queue next h.single absent);
      }

  pub release_all-Inv :
      (visited todo : List Str) (k : Kahn)
      → ((s : Str) → contains todo s ≡ true → contains (keys deps) s ≡ true)
      → Inv visited todo k
      → Inv visited [] (release_all todo k)
  unfolding release_all
  release_all-Inv visited [] k keyed h = h
  release_all-Inv visited (next ∷ todo) k keyed h =
      release_all-Inv visited todo (release next k)
        (λ s m. keyed s (unfold contains in ground arith))
        (release-Inv visited todo next k
          (keyed next (unfold contains in ground (arith, ==_refl next))) h)

  -- A node leaves the queue: what is to be released is its outbound list.
  pub pop-Inv :
      (t : Tables) (visited : List Str) (u : Str) (rest : List Str) (k : Kahn) (v : ℕ)
      → IsTables deps t
      → k.queue ≡ u ∷ rest
      → Inv visited [] k
      → Inv (u ∷ visited) (neighbours t.outbound u) (record k { queue = rest; visited = v })
  pop-Inv t visited u rest k v tables e h =
      let head : contains k.queue u ≡ true = rw e (unfold contains in ground (arith, ==_refl u)) in
      let (key, fresh, ready) = h.waiting u head in
      let single : Distinct (u ∷ rest) = subst Distinct e h.single in
      let split : (n : Str) → left (u ∷ visited) (neighbours t.outbound u) n ≡ left visited [] n =
        λ n. omega (arith, tables.turned u n, unseen-cons (neighbours deps n) visited u fresh) in
      let tail : (n : Str) → contains k.queue n ≡ (u == n || contains rest n) =
        λ n. rw e (unfold contains in refl) in
      record {
        degrees = λ n. ground (arith, h.degrees n, split n);
        waiting =
            λ n q. unfold contains in ground (arith, ==_iff u n, tail n, split n, h.waiting n);
        noticed = λ n at z.
            unfold contains in ground (arith, ==_iff u n, tail n, split n, h.noticed n at);
        past = λ n old. unfold contains in ground (arith, ==_iff u n, split n, h.past n);
        single = single.1;
      }
