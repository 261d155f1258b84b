-- ===== src/Workflow/Descendants/Reached.antt =====
-- The walk of `descendantNodes` ends, and it finds exactly the descendants of the roots.
use certificate_job_operator.Prelude.{
  ℕ, zero, suc, ◌+◌, ◌≤◌, List, [], ◌∷◌, ◌++◌, Str, Map, ◌==◌, lookup, contains-mem, length,
  length-append, ◌≡◌, refl, ap, ◌↔◌, ◌⊎◌, inl, inr, ⊎_elim, Memᴰ, Memᴰ-cons, arith, Bool-cases,
  unseen, unseen-nil, unseen-cons, count-mem, sort_strings-mem, subst,
}
use mathlib.Core.List.Memᴰ
use certificate_job_operator.Workflow.Runnable.{neighbours}
use certificate_job_operator.Workflow.Descendants.{
  Walk, offer, scan, descend, all_targets, walk_fuel, walk_from, descendant_nodes,
}

-- Some path of at least one edge leads from a root to the node.
pub data Descends (reverse : Map (List Str)) (roots : List Str) : Str → Type 0 where
  child : {r s : Str} → Memᴰ r roots → Memᴰ s (neighbours reverse r) → Descends reverse roots s
  next :
      {u s : Str}
      → Descends reverse roots u
      → Memᴰ s (neighbours reverse u)
      → Descends reverse roots s

pub List-cases {ℓ} :
    {A : Type ℓ} (xs : List A) → (xs ≡ []) ⊎ ((x : A) × (rest : List A) × (xs ≡ x ∷ rest))
List-cases [] = inl refl
List-cases (x ∷ xs) = inr (x, xs, refl)

Memᴰ-concat : (a x : Str) (xs : List Str) → Memᴰ a (xs ++ x ∷ []) ↔ (Memᴰ a xs ⊎ (a ≡ x))
Memᴰ-concat a x xs = (
  λ m. ⊎_elim inl (λ last. inr (Memᴰ.eq_of_singleton last)) (Memᴰ.append_cases xs m),
  ⊎_elim (Memᴰ.append_left _) (λ e. Memᴰ.append_right xs (Memᴰ.head e)),
)

neighbours-mem :
    (graph : Map (List Str)) (u s : Str) → Memᴰ s (neighbours graph u) → Memᴰ s (all_targets graph)
unfolding neighbours lookup
neighbours-mem [] u s m = absurd (Memᴰ.not-nil m)
neighbours-mem ((k, targets) ∷ graph) u s m = elim (Bool-cases (k == u)) [
  | inl here ↦ Memᴰ.append_left _ (rw (here, lookup) at m)
  | inr other ↦ Memᴰ.append_right targets (neighbours-mem graph u s (rw (other, lookup) at m))
]

offer-mem :
    (w : Walk) (c s : Str)
    → (Memᴰ s (offer w c).seen ↔ (Memᴰ s w.seen ⊎ (s ≡ c)))
      × (Memᴰ s w.queue → Memᴰ s (offer w c).queue)
      × (Memᴰ s (offer w c).queue → Memᴰ s w.queue ⊎ (s ≡ c))
      × (Memᴰ s (offer w c).seen → Memᴰ s w.seen ⊎ Memᴰ s (offer w c).queue)
unfolding offer
offer-mem w c s =
    ground (arith, contains-mem w.seen c, Memᴰ-cons s c w.seen, Memᴰ-concat s c w.queue)

scan-mem :
    (w : Walk) (cs : List Str) (s : Str)
    → (Memᴰ s (scan w cs).seen ↔ (Memᴰ s w.seen ⊎ Memᴰ s cs))
      × (Memᴰ s w.queue → Memᴰ s (scan w cs).queue)
      × (Memᴰ s (scan w cs).queue → Memᴰ s w.queue ⊎ Memᴰ s cs)
      × (Memᴰ s (scan w cs).seen → Memᴰ s w.seen ⊎ Memᴰ s (scan w cs).queue)
unfolding scan
scan-mem w [] s = ((inl, ⊎_elim (λ m. m) (λ m. absurd (Memᴰ.not-nil m))), (λ m. m), inl, inl)
scan-mem w (c ∷ cs) s = ground (arith, offer-mem w c s, scan-mem (offer w c) cs s, Memᴰ-cons s c cs)

module _ (reverse : Map (List Str)) where
  abbrev work : Walk → ℕ
  work w = length w.queue + unseen (all_targets reverse) w.seen

  offer-work : (w : Walk) (c : Str) → Memᴰ c (all_targets reverse) → work (offer w c) ≤ work w
  unfolding offer
  offer-work w c m = ground (
    arith,
    unseen-cons (all_targets reverse) w.seen c,
    count-mem c (all_targets reverse) m,
    length-append w.queue (c ∷ []),
  )

  scan-work :
      (w : Walk) (cs : List Str)
      → ((s : Str) → Memᴰ s cs → Memᴰ s (all_targets reverse))
      → work (scan w cs) ≤ work w
  unfolding scan
  scan-work w [] h = omega arith
  scan-work w (c ∷ cs) h = omega (
    arith,
    offer-work w c (h c (Memᴰ.head refl)),
    scan-work (offer w c) cs (λ s m. h s (Memᴰ.tail m)),
  )

  descend-drains : (fuel : ℕ) (w : Walk) → work w ≤ fuel → (descend reverse fuel w).queue ≡ []
  unfolding descend
  descend-drains zero w h = elim (List-cases w.queue) [
    | inl empty ↦ empty
    | inr (u, rest, e) ↦ absurd (omega (arith, ap length e))
  ]
  descend-drains (suc fuel) w h = elim (List-cases w.queue) [
    | inl empty ↦ rw (empty, descend) empty
    | inr (u, rest, e) ↦
        rw (e, descend)
          (descend-drains fuel (scan (record w { queue = rest }) (neighbours reverse u)) (
            omega (
              arith,
              ap length e,
              scan-work (record w { queue = rest }) (neighbours reverse u)
                  (neighbours-mem reverse u),
            )))
  ]

  module _ (roots : List Str) where
    record Inv (w : Walk) : Type 0 where
      sound : (s : Str) → Memᴰ s w.seen → Descends reverse roots s
      queued : (s : Str) → Memᴰ s w.queue → Memᴰ s roots ⊎ Memᴰ s w.seen
      closed :
          (u s : Str)
          → Memᴰ u roots ⊎ Memᴰ u w.seen
          → Memᴰ s (neighbours reverse u)
          → Memᴰ u w.queue ⊎ Memᴰ s w.seen

    extend :
        (u s : Str)
        → Memᴰ u roots ⊎ Descends reverse roots u
        → Memᴰ s (neighbours reverse u)
        → Descends reverse roots s
    extend u s (inl r) m = child r m
    extend u s (inr d) m = next d m

    Inv-step :
        (w : Walk) (u : Str) (rest : List Str)
        → w.queue ≡ u ∷ rest
        → Inv w
        → Inv (scan (record w { queue = rest }) (neighbours reverse u))
    Inv-step w u rest e h =
        let w' = record w { queue = rest } in
        let children = neighbours reverse u in
        let after = λ (s : Str). scan-mem w' children s in
        let origin : Memᴰ u roots ⊎ Descends reverse roots u =
          ⊎_elim inl (λ m. inr (h.sound u m)) (h.queued u (rw e (Memᴰ.head refl))) in
        record {
          sound = λ s m. ⊎_elim (h.sound s) (extend u s origin) ((after s).0.0 m);
          queued = λ s m.
              ⊎_elim
                (λ old.
                  ⊎_elim inl (λ seen. inr ((after s).0.1 (inl seen)))
                    (h.queued s (rw e (Memᴰ.tail old))))
                (λ new. inr ((after s).0.1 (inr new))) ((after s).2 m);
          closed = λ x s from edge. ground (
            arith,
            after x,
            after s,
            h.closed x s,
            subst (λ q. Memᴰ x w.queue → Memᴰ x q) e (λ m. m),
            Memᴰ-cons x u rest,
          );
        }

    descend-Inv : (fuel : ℕ) (w : Walk) → Inv w → Inv (descend reverse fuel w)
    unfolding descend
    descend-Inv zero w h = h
    descend-Inv (suc fuel) w h = elim (List-cases w.queue) [
      | inl empty ↦ rw (empty, descend) h
      | inr (u, rest, e) ↦ rw (e, descend) (descend-Inv fuel _ (Inv-step w u rest e h))
    ]

    complete :
        (w : Walk) → Inv w → w.queue ≡ [] → {s : Str} → Descends reverse roots s → Memᴰ s w.seen
    complete w h e (child {r} {s} m edge) =
        ⊎_elim (λ q. absurd (Memᴰ.not-nil (subst (Memᴰ r) e q))) (λ seen. seen)
          (h.closed r s (inl m) edge)
    complete w h e (next {u} {s} d edge) =
        ⊎_elim (λ q. absurd (Memᴰ.not-nil (subst (Memᴰ u) e q))) (λ seen. seen)
          (h.closed u s (inr (complete w h e d)) edge)

-- The loop of `descendantNodes` ends by its own test: the fuel, one round for each root and each
-- entry of the reverse graph, is enough to empty the queue.
pub walk_from-drains :
    (reverse : Map (List Str)) (roots : List Str) → (walk_from reverse roots).queue ≡ []
unfolding walk_from
walk_from-drains reverse roots =
    descend-drains reverse (walk_fuel reverse roots) (record { seen = []; queue = roots })
      (omega (arith, unseen-nil (all_targets reverse)))

-- `descendantNodes` returns exactly the nodes to which a path of at least one edge leads from a
-- root.
pub descendant_nodes_iff :
    (reverse : Map (List Str)) (roots : List Str) (s : Str)
    → Memᴰ s (descendant_nodes reverse roots) ↔ Descends reverse roots s
unfolding descendant_nodes walk_from
descendant_nodes_iff reverse roots s =
    let start : Walk = record { seen = []; queue = roots } in
    let inv = descend-Inv reverse roots (walk_fuel reverse roots) start (record {
      sound = λ x m. absurd (Memᴰ.not-nil m);
      queued = λ x m. inl m;
      closed = λ u x from edge. ⊎_elim inl (λ m. absurd (Memᴰ.not-nil m)) from;
    }) in
    let same = sort_strings-mem s (walk_from reverse roots).seen in
    (
      λ m. inv.sound s (same.0 m),
      λ d. same.1 (complete reverse roots _ inv (walk_from-drains reverse roots) d),
    )
