-- ===== src/Indices/Graph/Expansion.antt =====
-- graph.py, `GraphIndex.expand`: what an expansion reports.
use vitruvio.Prelude.{
  ℕ, zero, suc, ◌*◌, ◌≤◌, leb, ◌<◌, List, [], ◌∷◌, some, Bool, true, not, map, length, filterb,
  ◌++◌, contains, contains_iff, sort, In-sort, In-map_of, In-map_inv, In-filterb, Text, nat_eq,
  lookup, In, In-lookup, keys, Distinct, Distinct-insert, insert, lookup-some-In, ◌≡◌, inl, inr,
  refl, sym, ap, subst, arith, Bool-cases, Option-cases,
}
use vitruvio.Indices.Queries.{TraversalQuery}
use vitruvio.Indices.Graph.{
  Floats, Graph, Entry, Best, hop, dominated, relax, explore, steps, seeds_of, seed_entries, reach,
  budget, fan, expand, name_of, le_reached,
}
use vitruvio.Indices.Graph.Walks.{IsScoring, Walk, Core, Rising}
use vitruvio.Indices.Graph.Found.{Found, explore-Found, Found-complete}
use vitruvio.Indices.Graph.Fuel.{reach-returns}

module _ {F : Type 0} (floats : Floats F) (g : Graph F) (query : TraversalQuery F) where
  -- A walk over the edges that the query follows.
  abbrev pub Hops : ℕ → F → ℕ → Type 0
  Hops v s d = Walk floats query.decay (steps g query) (seeds_of g query) v s d

  seeds-Rising : (ns : List ℕ) → Rising floats query.decay (steps g query) (seed_entries floats ns)
  seeds-Rising [] = tt
  seeds-Rising (n ∷ ns) = ((λ y m. omega arith), seeds-Rising ns)

  seed-entry :
      (x : Entry F)
      → In x (seed_entries floats (seeds_of g query))
      → In x.0 (seeds_of g query) × (x.1 ≡ floats.one) × (x.2 ≡ 0)
  seed-entry x m =
      let (n, i, e) = In-map_inv (λ (n : ℕ). (n, floats.one, 0)) x (seeds_of g query) m in
      (
        subst (λ (y : Entry F). In y.0 (seeds_of g query)) e i,
        ap (λ (y : Entry F). y.1) (sym e),
        ap (λ (y : Entry F). y.2) (sym e),
      )

  seeds-Core :
      Core floats query.decay
        (steps g query)
        (seeds_of g query)
        query.depth
        []
        (seed_entries floats (seeds_of g query))
        []
  unfolding lookup
  seeds-Core = record {
    real = λ v s d l. elim l [ inl m ↦ absurd m | inr m ↦ begins (v, s, d) m ];
    kept = λ v s d h. absurd (ground arith);
    tops = λ v s d l pos. elim l [
      | inl m ↦ absurd m
      | inr m ↦ absurd (ground (arith, (seed-entry (v, s, d) m).2))
    ];
    rising = seeds-Rising (seeds_of g query);
  }
    where
      begins :
          (x : Entry F)
          → In x (seed_entries floats (seeds_of g query))
          → Hops x.0 x.1 x.2 × (x.2 ≤ query.depth)
      begins x m =
          let (n, i, e) = In-map_inv (λ (n : ℕ). (n, floats.one, 0)) x (seeds_of g query) m in
          subst (λ (y : Entry F). Hops y.0 y.1 y.2 × (y.2 ≤ query.depth)) e
            (Walk.start n i, omega arith)

  reach-Found :
      (best : Best F)
      → IsScoring floats query.decay (steps g query)
      → reach floats g query ≡ some best
      → length best < query.max_nodes
      → Found floats query.decay (steps g query) (seeds_of g query) query.depth best
  unfolding reach
  reach-Found best scoring e short =
      explore-Found floats query.decay (steps g query) (seeds_of g query) query.depth scoring
        query.max_nodes _ [] (seed_entries floats (seeds_of g query)) [] best e short seeds-Core
        (λ v s d m. absurd m)
        (λ x l y m. elim l [ inl f ↦ absurd f | inr k ↦ ground (arith, (seed-entry x k).2) ])
        (λ n m. inr (In-map_of (λ (n : ℕ). (n, floats.one, 0)) n (seeds_of g query) m))

  relax-Distinct :
      (score : F) (d : ℕ) (taken : List (ℕ × F)) (best : Best F) (pending : List (Entry F))
      → Distinct (keys best)
      → Distinct (keys (relax floats query.decay score d taken best pending).0)
  unfolding relax
  relax-Distinct score d [] best pending h = h
  relax-Distinct score d ((u, w) ∷ rest) best pending h =
      elim (Bool-cases (dominated floats query.decay best u r)) [
        | inl e ↦ rw e (relax-Distinct score d rest best pending h)
        | inr e ↦ rw e (
            relax-Distinct score d rest (insert best u (r, suc d)) (pending ++ (u, r, suc d) ∷ [])
              (Distinct-insert best u (r, suc d) h))
      ]
    where
      r : F
      r = hop floats query.decay score w

  explore-Distinct :
      (fuel : ℕ) (pending : List (Entry F)) (best out : Best F)
      → Distinct (keys best)
      → explore floats query.decay (steps g query) query.depth query.max_nodes fuel pending best
        ≡ some out
      → Distinct (keys out)
  unfolding explore
  explore-Distinct fuel [] best out h e = subst (λ (b : Best F). Distinct (keys b)) (cc e) h
  explore-Distinct zero (x ∷ pending) best out h e = absurd (ground arith)
  explore-Distinct (suc fuel) ((n, s, d) ∷ pending) best out h e =
      elim (Bool-cases (leb query.max_nodes (length best))) [
        | inl c ↦ subst (λ (b : Best F). Distinct (keys b)) (ground arith) h
        | inr c ↦ elim (Bool-cases (leb query.depth d)) [
          | inl l ↦ explore-Distinct fuel pending best out h (ground arith)
          | inr l ↦
              explore-Distinct fuel (relax floats query.decay s d (steps g query n) best pending).1
                (relax floats query.decay s d (steps g query n) best pending).0 out
                (relax-Distinct s d (steps g query n) best pending h) (ground arith)
        ]
      ]

  reach-Distinct : (best : Best F) → reach floats g query ≡ some best → Distinct (keys best)
  unfolding reach
  reach-Distinct best e =
      explore-Distinct (length (seeds_of g query) * budget (fan g query) query.depth)
        (seed_entries floats (seeds_of g query)) [] best tt e

  -- An expansion always ends with a result: the fuel of the model is enough for every graph and
  -- every query, cyclic graphs included.
  pub expand-returns : (reached : List (Text × F × ℕ)) × (expand floats g query ≡ some reached)
  unfolding expand
  expand-returns = elim (Option-cases (reach floats g query)) [
    | inl h ↦ absurd (reach-returns floats g query h)
    | inr (best, h) ↦ (
      sort (le_reached floats) (
          map (λ (e : ℕ × (F × ℕ)). (name_of g e.0, e.1.0, e.1.1))
            (filterb (λ (e : ℕ × (F × ℕ)). not (contains (seeds_of g query) e.0)) best)),
      ground (arith, h),
    )
  ]

  -- An entry stands for a walk to a node that is no seed.
  abbrev pub Reported : Text × F × ℕ → Type 0
  Reported y =
      (n : ℕ) × (y.0 ≡ name_of g n)
      × (¬ In n (seeds_of g query))
      × Hops n y.1 y.2
      × (0 < y.2)
      × (y.2 ≤ query.depth)

  -- What `expand` reports when the node ceiling has not cut it.
  pub record Exact (reached : List (Text × F × ℕ)) : Type 0 where
    pub sound : (y : Text × F × ℕ) → In y reached → Reported y
    pub complete :
        (n : ℕ) (r : F) (d : ℕ)
        → Hops n r d
        → d ≤ query.depth
        → ¬ In n (seeds_of g query)
        → (s : F) × (e : ℕ) × In (name_of g n, s, e) reached × (floats.le r s ≡ true)

  -- If the scores are ordered, a hop along an edge keeps the order, and fewer nodes than the ceiling
  -- were reached, an expansion reports the best walks: each entry is the score and the length of a
  -- walk from a seed, within the depth, to a node that is no seed, and for each such walk an entry of
  -- the node has at least its score.
  pub expand-Exact :
      (best : Best F) (reached : List (Text × F × ℕ))
      → IsScoring floats query.decay (steps g query)
      → reach floats g query ≡ some best
      → length best < query.max_nodes
      → expand floats g query ≡ some reached
      → Exact reached
  unfolding expand
  expand-Exact best reached scoring e short h =
      let found = reach-Found best scoring e short in
      subst Exact (ground (arith, e, h)) (record {
        sound = λ z m.
            let (y, i, p) =
              In-map_inv shown z kept ((In-sort (le_reached floats) z (map shown kept)).0 m) in
            let j = (In-filterb unseeded y best).0 i in
            let (l, pos) =
              found.core.kept y.0 y.1.0 y.1.1
                (In-lookup best y.0 y.1 (reach-Distinct best e) j.0) in
            let seen = contains_iff (seeds_of g query) y.0 in
            let (walk, within) = found.core.real y.0 y.1.0 y.1.1 l in
            subst Reported p (y.0, refl, (λ k. ground (arith, seen.1 k, j.1)), walk, pos, within);
        complete = λ n r d w b f.
            elim (Found-complete floats query.decay (steps g query) (seeds_of g query) query.depth
              scoring best found n r d w b) [
                | inl m ↦ absurd (f m)
                | inr (s, k, held, le) ↦ (
                  s,
                  k,
                  (In-sort (le_reached floats) (shown (n, (s, k))) (map shown kept)).1 (
                      In-map_of shown (n, (s, k)) kept
                        ((In-filterb unseeded (n, (s, k)) best).1
                          (lookup-some-In best n (s, k) held, unseen n f))),
                  le,
                )
              ];
      })
    where
      shown : ℕ × (F × ℕ) → Text × F × ℕ
      shown y = (name_of g y.0, y.1.0, y.1.1)

      unseeded : ℕ × (F × ℕ) → Bool
      unseeded y = not (contains (seeds_of g query) y.0)

      kept : Best F
      kept = filterb unseeded best

      unseen : (n : ℕ) → ¬ In n (seeds_of g query) → not (contains (seeds_of g query) n) ≡ true
      unseen n f = ground (arith, (contains_iff (seeds_of g query) n).0)
