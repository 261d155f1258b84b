-- ===== src/Workflow/Acyclic/Setup.antt =====
-- The tables that `validateAcyclic` builds: in-degrees count dependencies, and the outbound map
-- turns the edges round.
use certificate_job_operator.Prelude.{
  ℕ, suc, ◌+◌, true, false, ◌||◌, ◌&&◌, ◌∙◌, List, [], ◌∷◌, ◌++◌, Str, Map, keys, lookup, insert,
  lookup-insert, or_default, length, if◌then◌else◌, ◌≡◌, refl, ◌==◌, ==_iff, ==_refl, contains,
  count, count-append, Distinct, arith,
}
use certificate_job_operator.Prelude.Int.{ℤ, pos, is_zero}
use certificate_job_operator.Workflow.Runnable.{neighbours}
use certificate_job_operator.Workflow.Acyclic.{
  increment, degree, append_to, Tables, zero_degrees, count_dependencies, count_all, zero_nodes,
  build_tables,
}

pub degree-insert :
    (m : Map ℤ) (k n : Str) (d : ℤ) → degree (insert k d m) n ≡ (if k == n then d else degree m n)
unfolding degree
degree-insert m k n d = ground (arith, lookup-insert k n d m)

pub neighbours-append_to :
    (m : Map (List Str)) (k n v : Str)
    → neighbours (append_to m k v) n ≡ (if k == n then neighbours m k ++ v ∷ [] else neighbours m n)
unfolding neighbours append_to
neighbours-append_to m k n v =
    ground (arith, lookup-insert k n (or_default (lookup k m) [] ++ v ∷ []) m)

pub contains-insert {ℓ} :
    {V : Type ℓ} (k n : Str) (v : V) (m : Map V)
    → contains (keys (insert k v m)) n ≡ (k == n || contains (keys m) n)
unfolding insert contains
contains-insert k n v [] = refl
contains-insert k n v ((j, w) ∷ m) =
    ground (arith, ==_iff j k, ==_iff j n, ==_iff k n, contains-insert k n v m)

pub insert-Distinct {ℓ} :
    {V : Type ℓ} (k : Str) (v : V) (m : Map V) → Distinct (keys m) → Distinct (keys (insert k v m))
unfolding insert contains
insert-Distinct k v [] d = (refl, tt)
insert-Distinct k v ((j, w) ∷ m) d =
    ground (arith, ==_iff j k, ==_iff k j, contains-insert k j v m, insert-Distinct k v m d.1)

-- A key that is absent reads as the nil slice.
pub neighbours_absent :
    (m : Map (List Str)) (n : Str) → contains (keys m) n ≡ false → neighbours m n ≡ []
unfolding neighbours lookup contains
neighbours_absent [] n h = refl
neighbours_absent ((k, v) ∷ m) n h = ground (arith, neighbours_absent m n)

zero_degrees-degree :
    (nodes : List Str) (m : Map ℤ) (n : Str)
    → degree m n ≡ pos 0
    → degree (zero_degrees nodes m) n ≡ pos 0
unfolding zero_degrees
zero_degrees-degree [] m n h = h
zero_degrees-degree (k ∷ nodes) m n h =
    zero_degrees-degree nodes (insert k (pos 0) m) n (ground (arith, degree-insert m k n (pos 0)))

zero_degrees-keys :
    (nodes : List Str) (m : Map ℤ) (n : Str)
    → contains (keys (zero_degrees nodes m)) n ≡ (contains nodes n || contains (keys m) n)
unfolding zero_degrees contains
zero_degrees-keys [] m n = refl
zero_degrees-keys (k ∷ nodes) m n =
    ground (arith, zero_degrees-keys nodes (insert k (pos 0) m) n, contains-insert k n (pos 0) m)

zero_degrees-Distinct :
    (nodes : List Str) (m : Map ℤ) → Distinct (keys m) → Distinct (keys (zero_degrees nodes m))
unfolding zero_degrees
zero_degrees-Distinct [] m d = d
zero_degrees-Distinct (k ∷ nodes) m d =
    zero_degrees-Distinct nodes (insert k (pos 0) m) (insert-Distinct k (pos 0) m d)

count_dependencies-degree :
    (node : Str) (deps : List Str) (t : Tables) (n : Str) (m : ℕ)
    → degree t.indegree n ≡ pos m
    → degree (count_dependencies node deps t).indegree n
      ≡ pos (m + (if node == n then length deps else 0))
unfolding count_dependencies
count_dependencies-degree node [] t n m h = ground arith
count_dependencies-degree node (dep ∷ deps) t n m h = ground (
  arith,
  ==_iff node n,
  degree-insert t.indegree node n (increment (degree t.indegree node)),
  count_dependencies-degree node deps
      (record {
        indegree = insert node (increment (degree t.indegree node)) t.indegree;
        outbound = append_to t.outbound dep node;
      })
      n (if node == n then suc m else m),
)

count_dependencies-outbound :
    (node : Str) (deps : List Str) (t : Tables) (u n : Str)
    → count n (neighbours (count_dependencies node deps t).outbound u)
      ≡ count n (neighbours t.outbound u) + (if node == n then count u deps else 0)
unfolding count_dependencies
count_dependencies-outbound node [] t u n = ground arith
count_dependencies-outbound node (dep ∷ deps) t u n = ground (
  arith,
  ==_iff dep u,
  neighbours-append_to t.outbound dep u node,
  count-append n (neighbours t.outbound u) (node ∷ []),
  count_dependencies-outbound node deps
      (record {
        indegree = insert node (increment (degree t.indegree node)) t.indegree;
        outbound = append_to t.outbound dep node;
      })
      u n,
)

count_dependencies-keys :
    (node : Str) (deps : List Str) (t : Tables) (n : Str)
    → contains (keys t.indegree) node ≡ true
    → contains (keys (count_dependencies node deps t).indegree) n ≡ contains (keys t.indegree) n
unfolding count_dependencies
count_dependencies-keys node [] t n h = refl
count_dependencies-keys node (dep ∷ deps) t n h =
    let d = increment (degree t.indegree node) in
    ground (
      arith,
      ==_iff node n,
      contains-insert node n d t.indegree,
      contains-insert node node d t.indegree,
      count_dependencies-keys node deps
          (record { indegree = insert node d t.indegree; outbound = append_to t.outbound dep node })
          n,
    )

count_dependencies-Distinct :
    (node : Str) (deps : List Str) (t : Tables)
    → Distinct (keys t.indegree)
    → Distinct (keys (count_dependencies node deps t).indegree)
unfolding count_dependencies
count_dependencies-Distinct node [] t d = d
count_dependencies-Distinct node (dep ∷ deps) t d =
    let value = increment (degree t.indegree node) in
    count_dependencies-Distinct node deps
      (record { indegree = insert node value t.indegree; outbound = append_to t.outbound dep node })
      (insert-Distinct node value t.indegree d)

-- What the tables hold for a part of the dependency map.
count_all-degree :
    (deps : Map (List Str)) (t : Tables) (n : Str) (m : ℕ)
    → Distinct (keys deps)
    → degree t.indegree n ≡ pos m
    → degree (count_all deps t).indegree n ≡ pos (m + length (neighbours deps n))
unfolding count_all neighbours lookup
count_all-degree [] t n m d h = ground arith
count_all-degree ((node, ds) ∷ rest) t n m d h = ground (
  arith,
  ==_iff node n,
  neighbours_absent rest n,
  count_dependencies-degree node ds t n m h,
  count_all-degree rest (count_dependencies node ds t) n (if node == n then m + length ds else m)
      d.1,
)

count_all-outbound :
    (deps : Map (List Str)) (t : Tables) (u n : Str)
    → Distinct (keys deps)
    → count n (neighbours (count_all deps t).outbound u)
      ≡ count n (neighbours t.outbound u) + count u (neighbours deps n)
unfolding count_all
count_all-outbound [] t u n d = unfold neighbours lookup in omega arith
count_all-outbound ((node, ds) ∷ rest) t u n d =
    let ih = count_all-outbound rest (count_dependencies node ds t) u n d.1 in
    let step = count_dependencies-outbound node ds t u n in
    unfold neighbours lookup in ground (arith, ==_iff node n, neighbours_absent rest n, step, ih)

count_all-keys :
    (deps : Map (List Str)) (t : Tables) (n : Str)
    → ((s : Str) → contains (keys deps) s ≡ true → contains (keys t.indegree) s ≡ true)
    → contains (keys (count_all deps t).indegree) n ≡ contains (keys t.indegree) n
unfolding count_all
count_all-keys [] t n h = refl
count_all-keys ((node, ds) ∷ rest) t n h =
    let there = h node (unfold contains in ground (arith, ==_refl node)) in
    let kept = λ (s : Str). count_dependencies-keys node ds t s there in
    let ih =
      count_all-keys rest (count_dependencies node ds t) n
        (λ s m. rw (kept s) (h s (unfold contains in ground arith))) in
    ih ∙ kept n

count_all-Distinct :
    (deps : Map (List Str)) (t : Tables)
    → Distinct (keys t.indegree)
    → Distinct (keys (count_all deps t).indegree)
unfolding count_all
count_all-Distinct [] t d = d
count_all-Distinct ((node, ds) ∷ rest) t d =
    count_all-Distinct rest (count_dependencies node ds t) (count_dependencies-Distinct node ds t d)

-- The start of the queue: the keys of in-degree 0, each once.
zero_nodes-keys :
    (m : Map ℤ) (n : Str) → contains (keys m) n ≡ false → contains (zero_nodes m) n ≡ false
unfolding zero_nodes contains
zero_nodes-keys [] n h = refl
zero_nodes-keys ((k, d) ∷ m) n h = ground (arith, zero_nodes-keys m n)

pub zero_nodes_iff :
    (m : Map ℤ) (n : Str)
    → Distinct (keys m)
    → contains (zero_nodes m) n ≡ (contains (keys m) n && is_zero (degree m n))
unfolding zero_nodes contains degree lookup
zero_nodes_iff [] n h = refl
zero_nodes_iff ((k, d) ∷ m) n h =
    ground (arith, ==_iff k n, zero_nodes-keys m n, zero_nodes_iff m n h.1)

pub zero_nodes-Distinct : (m : Map ℤ) → Distinct (keys m) → Distinct (zero_nodes m)
unfolding zero_nodes
zero_nodes-Distinct [] h = tt
zero_nodes-Distinct ((k, d) ∷ m) h = ground (arith, zero_nodes-keys m k, zero_nodes-Distinct m h.1)

-- The tables of a dependency map with distinct keys.
pub record IsTables (deps : Map (List Str)) (t : Tables) : Type 0 where
  pub degrees : (n : Str) → degree t.indegree n ≡ pos (length (neighbours deps n))
  pub turned : (u n : Str) → count n (neighbours t.outbound u) ≡ count u (neighbours deps n)
  pub nodes : (n : Str) → contains (keys t.indegree) n ≡ contains (keys deps) n
  pub distinct : Distinct (keys t.indegree)

pub build_tables-IsTables :
    (deps : Map (List Str)) → Distinct (keys deps) → IsTables deps (build_tables deps)
unfolding build_tables
build_tables-IsTables deps d =
    let t0 : Tables = record { indegree = zero_degrees (keys deps) []; outbound = [] } in
    let zeros = λ (n : Str). zero_degrees-degree (keys deps) [] n (unfold degree lookup in refl) in
    let all : (n : Str) → contains (keys t0.indegree) n ≡ contains (keys deps) n =
      λ n. unfold contains in ground (arith, zero_degrees-keys (keys deps) [] n) in
    record {
      degrees = λ n. ground (arith, count_all-degree deps t0 n 0 d (zeros n));
      turned = λ u n. unfold neighbours lookup in omega (arith, count_all-outbound deps t0 u n d);
      nodes = λ n. count_all-keys deps t0 n (λ s h. all s ∙ h) ∙ all n;
      distinct = count_all-Distinct deps t0 (zero_degrees-Distinct (keys deps) [] tt);
    }
