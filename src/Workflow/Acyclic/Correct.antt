-- ===== src/Workflow/Acyclic/Correct.antt =====
-- `validateAcyclic` ends, and accepts exactly the well-founded dependency maps.
use certificate_job_operator.Prelude.{
  ℕ, zero, suc, ◌+◌, ◌≤◌, true, none, List, [], ◌∷◌, Str, Map, keys, length, ◌≡◌, refl, sym, ap,
  ◌∙◌, ◌↔◌, inl, inr, ⊎_elim, ==_iff, ==_refl, contains, contains-mem, count, Distinct, arith,
  unseen-nil, unseen_zero, contains_of_unseen_zero, IsSubset, length-le_of_subset, subset_of_length,
  Memᴰ, Bool-cases, subst, count-mem,
}
use mathlib.Core.List.Memᴰ
use certificate_job_operator.Workflow.Runnable.{neighbours}
use certificate_job_operator.Workflow.Descendants.Reached.{List-cases}
use certificate_job_operator.Workflow.Acyclic.{
  Tables, Kahn, release_all, visit_all, build_tables, zero_nodes, run_kahn, validate_acyclic,
}
use certificate_job_operator.Workflow.Acyclic.Setup.{
  IsTables, build_tables-IsTables, neighbours_absent, zero_nodes_iff, zero_nodes-Distinct,
}
use certificate_job_operator.Workflow.Acyclic.Loop.{
  Grounded, rests_on, Inv, pop-Inv, release_all-Inv,
}

module _ (deps : Map (List Str)) where
  record Progress (visited : List Str) (k : Kahn) : Type 0 where
    inv : Inv deps visited [] k
    distinct : Distinct visited
    nodes : IsSubset visited (keys deps)
    counted : k.visited ≡ length visited
    grounded : (n : Str) → contains visited n ≡ true → Grounded (neighbours deps) n

  outbound_keys :
      (t : Tables) (u s : Str)
      → IsTables deps t
      → contains (neighbours t.outbound u) s ≡ true
      → contains (keys deps) s ≡ true
  outbound_keys t u s tables m = elim (Bool-cases (contains (keys deps) s)) [
    | inl there ↦ there
    | inr absent ↦
        let some_edge = count-mem s (neighbours t.outbound u) ((contains-mem _ s).0 m) in
        absurd (
          omega
            (arith, some_edge, tables.turned u s, ap (count u) (neighbours_absent deps s absent)))
  ]

  release_all-visited : (todo : List Str) (k : Kahn) → (release_all todo k).visited ≡ k.visited
  unfolding release_all
  release_all-visited [] k = refl
  release_all-visited (next ∷ todo) k = release_all-visited todo _

  round-Progress :
      (t : Tables) (visited : List Str) (u : Str) (rest : List Str) (k : Kahn)
      → IsTables deps t
      → k.queue ≡ u ∷ rest
      → Progress visited k
      → Progress (u ∷ visited) (
          release_all
            (neighbours t.outbound u)
            (record k { queue = rest; visited = suc k.visited }))
  round-Progress t visited u rest k tables e p =
      let k' = record k { queue = rest; visited = suc k.visited } in
      let head : contains k.queue u ≡ true = rw e (unfold contains in ground (arith, ==_refl u)) in
      let (key, fresh, ready) = p.inv.waiting u head in
      record {
        inv =
            release_all-Inv deps (u ∷ visited) (neighbours t.outbound u) k'
              (λ s m. outbound_keys t u s tables m)
              (pop-Inv deps t visited u rest k (suc k.visited) tables e p.inv);
        distinct = (fresh, p.distinct);
        nodes = λ s m. unfold contains in ground (arith, ==_iff u s, p.nodes s);
        counted = release_all-visited (neighbours t.outbound u) k' ∙ ap suc p.counted;
        grounded = λ n m.
            ⊎_elim
              (λ here. subst (Grounded (neighbours deps)) (sym here) (
                rests_on (λ d edge.
                  p.grounded d
                    (contains_of_unseen_zero (neighbours deps u) visited d (omega arith) edge))))
              (λ old. p.grounded n ((contains-mem visited n).1 old))
              (Memᴰ.cases_cons ((contains-mem (u ∷ visited) n).0 m));
      }

  visit_all_lem :
      (t : Tables)
      → IsTables deps t
      → (fuel : ℕ) (visited : List Str) (k : Kahn) → length (keys deps) ≤ fuel + length visited
      → Progress visited k
      → (final : List Str) × Progress final (visit_all t.outbound fuel k)
        × ((visit_all t.outbound fuel k).queue ≡ [])
  unfolding visit_all
  visit_all_lem t tables zero visited k enough p = elim (List-cases k.queue) [
    | inl empty ↦ (visited, p, empty)
    | inr (u, rest, e) ↦
        let next = round-Progress t visited u rest k tables e p in
        absurd
          (omega (arith, length-le_of_subset (u ∷ visited) (keys deps) next.distinct next.nodes))
  ]
  visit_all_lem t tables (suc fuel) visited k enough p = elim (List-cases k.queue) [
    | inl empty ↦ rw (empty, visit_all) (visited, p, empty)
    | inr (u, rest, e) ↦
        rw (e, visit_all)
          (visit_all_lem t tables fuel (u ∷ visited) _ (omega arith)
            (round-Progress t visited u rest k tables e p))
  ]

  start-Progress :
      (t : Tables)
      → IsTables deps t
      → Progress [] (record { indegree = t.indegree; queue = zero_nodes t.indegree; visited = 0 })
  start-Progress t tables =
      let queued = λ (n : Str). zero_nodes_iff t.indegree n tables.distinct in
      let edges = λ (n : Str). unseen-nil (neighbours deps n) in
      record {
        inv = record {
          degrees = λ n. ground (arith, tables.degrees n, edges n);
          waiting = λ n q.
              unfold contains in
              ground (arith, queued n, tables.nodes n, tables.degrees n, edges n);
          noticed = λ n at z.
              unfold contains in
              ground (arith, queued n, tables.nodes n, tables.degrees n, edges n);
          past = λ n old. unfold contains in absurd (cc);
          single = zero_nodes-Distinct t.indegree tables.distinct;
        };
        distinct = tt;
        nodes = λ s m. unfold contains in absurd (cc);
        counted = refl;
        grounded = λ n m. unfold contains in absurd (cc);
      }

  length-keys : (m : Map (List Str)) → length (keys m) ≡ length m
  length-keys [] = refl
  length-keys (e ∷ m) = ap suc (length-keys m)

  run_kahn_lem :
      Distinct (keys deps)
      → (final : List Str) × Progress final (run_kahn deps) × ((run_kahn deps).queue ≡ [])
  unfolding run_kahn
  run_kahn_lem d =
      let tables = build_tables-IsTables deps d in
      visit_all_lem (build_tables deps) tables (length deps) [] _ (omega (arith, length-keys deps))
        (start-Progress (build_tables deps) tables)

  -- Every dependency is itself a node.
  abbrev pub IsClosed : Type 0
  IsClosed = (n dep : Str) → Memᴰ dep (neighbours deps n) → contains (keys deps) dep ≡ true

  Grounded-visited :
      (visited : List Str) (k : Kahn)
      → IsClosed
      → Progress visited k
      → k.queue ≡ []
      → {n : Str} → Grounded (neighbours deps) n
      → contains (keys deps) n ≡ true
      → contains visited n ≡ true
  Grounded-visited visited k closed p e {n} (rests_on below) key =
      let all =
        unseen_zero (neighbours deps n) visited
          (λ d m. Grounded-visited visited k closed p e (below d m) (closed n d m)) in
      ⊎_elim (λ old. old)
        (λ q. absurd (Memᴰ.not-nil (subst (Memᴰ n) e ((contains-mem k.queue n).0 q))))
        (p.inv.noticed n key (omega (arith, all)))

-- The loop of `validateAcyclic` ends by its own test: with as many rounds as there are nodes the
-- queue is empty.
pub run_kahn-drains : (deps : Map (List Str)) → Distinct (keys deps) → (run_kahn deps).queue ≡ []
run_kahn-drains deps d = (run_kahn_lem deps d).2

-- On a dependency map with distinct keys, whose dependencies are nodes themselves,
-- `validateAcyclic` returns no error exactly when every chain of dependencies from every node ends,
-- that is, when the workflow has no cycle.
pub validate_acyclic_iff :
    (deps : Map (List Str))
    → Distinct (keys deps)
    → IsClosed deps
    → (validate_acyclic deps ≡ none)
      ↔ ((n : Str) → contains (keys deps) n ≡ true → Grounded (neighbours deps) n)
unfolding validate_acyclic
validate_acyclic_iff deps d closed =
    let (visited, p, empty) = run_kahn_lem deps d in
    let size = length-keys deps deps in
    (
      λ accepted n key.
          let full : length visited ≡ length (keys deps) = ground (arith, p.counted, size) in
          p.grounded n (subset_of_length visited (keys deps) p.distinct p.nodes full n key),
      λ grounded.
          let all = λ (n : Str) (key : contains (keys deps) n ≡ true).
            Grounded-visited deps visited (run_kahn deps) closed p empty (grounded n key) key in
          let less = length-le_of_subset visited (keys deps) p.distinct p.nodes in
          let more = length-le_of_subset (keys deps) visited d all in
          ground (arith, p.counted, size, less, more),
    )
