-- ===== src/Indices/Base/Hits.antt =====
-- base.py, `_results`: the best hits in order, and the flag that says whether any were cut.
use vitruvio.Prelude.{
  ℕ, ◌<◌, ◌≤◌, ltb, List, some, true, false, length, take, filter_some, sort, Text, text_total,
  text_trans, Ord, ◌≡◌, ◌⊎◌, inl, inr, refl, In, IsSorted-sort, In-sort, arith, if◌then◌else◌,
  Bool-cases, map, In-map_of, In-map_inv, length-map, length-take, take_of_length-le,
  In-filter_some_of, In-filter_some_inv, IsSorted-take, In-take, subst,
}
use vitruvio.Indices.Ordinals
use vitruvio.Indices.Ordinals.{OrdinalTable}
use vitruvio.Indices.Queries.{Hit}
use vitruvio.Indices.Base.{le_hit, named, results}

module _ {S : Type 0} (o : Ord S) where
  pub le_hit_total : (x y : Text × S) → le_hit o x y ≡ false → le_hit o y x ≡ true
  le_hit_total (a, s) (b, t) h = ground (arith, text_total a b, o.total s t)

  pub le_hit_trans :
      (x y z : Text × S) → le_hit o x y ≡ true → le_hit o y z ≡ true → le_hit o x z ≡ true
  le_hit_trans (a, s) (b, t) (c, u) h k = ground (
    arith,
    text_trans a b c,
    o.trans s t u,
    o.trans u t s,
    o.trans t u s,
    o.trans s u t,
    o.trans u s t,
    o.trans t s u,
  )

  module _ (table : OrdinalTable) (scored : List (ℕ × S)) (limit : ℕ) where
    resolved : List (Text × S)
    resolved = filter_some (named o table) scored

    abbrev to_hit : Text × S → Hit S
    to_hit h = record { block_id = h.0; score = h.1 }

    -- the hits, before they are wrapped
    chosen : List (Text × S)
    unfolding resolved
    chosen = if ltb 0 limit then take limit (sort (le_hit o) resolved) else sort (le_hit o) resolved

    hits-chosen : (results o table scored limit true).hits ≡ map to_hit chosen
    unfolding results chosen resolved
    hits-chosen = refl

    -- whether the limit cut nothing
    chosen_all :
        (results o table scored limit true).exhausted ≡ true → chosen ≡ sort (le_hit o) resolved
    unfolding results chosen resolved
    chosen_all h =
        ground
          (arith, take_of_length-le limit (sort (le_hit o) (filter_some (named o table) scored)))

    resolved-In :
        (i : ℕ) (score : S) (x : Text)
        → In (i, score) scored
        → Ordinals.identity table i ≡ some x
        → In (x, score) resolved
    unfolding resolved
    resolved-In i score x m e =
        In-filter_some_of (named o table) (x, score) (i, score) scored m (ground arith)

    chosen_cases :
        (h : Text × S)
        → In h resolved
        → In h chosen ⊎ ((g : Text × S) → In g chosen → le_hit o g h ≡ true)
    unfolding chosen
    chosen_cases h m =
        let n = (In-sort (le_hit o) h resolved).1 m in
        elim (Bool-cases (ltb 0 limit)) [
          | inl e ↦ rw e (
              IsSorted-take (le_hit o) limit (sort (le_hit o) resolved) h
                (IsSorted-sort (le_hit o) le_hit_total le_hit_trans resolved) n)
          | inr e ↦ rw e (inl n)
        ]

    In-chosen : (h : Text × S) → In h chosen → In h resolved
    unfolding chosen
    In-chosen h m = elim (Bool-cases (ltb 0 limit)) [
      | inl e ↦
          (In-sort (le_hit o) h resolved).0 (In-take limit (sort (le_hit o) resolved) h (rw e at m))
      | inr e ↦ (In-sort (le_hit o) h resolved).0 (rw e at m)
    ]

    named_inv :
        (i : ℕ) (s : S) (g : Text × S)
        → In (i, s) scored
        → named o table (i, s) ≡ some g
        → (j : ℕ) × In (j, g.1) scored × (Ordinals.identity table j ≡ some g.0)
    named_inv i s g k f =
        let same : s ≡ g.1 = ground arith in (i, subst (λ w. In (i, w) scored) same k, ground arith)

    length-chosen : 0 < limit → length chosen ≤ limit
    unfolding chosen
    length-chosen pos = ground (arith, length-take limit (sort (le_hit o) resolved))

    -- Every hit is a scored ordinal's identity with its score; no more come than a positive limit
    -- allows.
    pub results_sound :
        ((h : Hit S)
          → In h (results o table scored limit true).hits
          → (i : ℕ) × In (i, h.score) scored × (Ordinals.identity table i ≡ some h.block_id))
        × (0 < limit → length (results o table scored limit true).hits ≤ limit)
    unfolding resolved
    results_sound = (
      λ h m.
          let (g, n, e) = In-map_inv to_hit h chosen (rw hits-chosen at m) in
          let ((i, s), k, f) = In-filter_some_inv (named o table) g scored (In-chosen g n) in
          subst
            (λ (w : Hit S).
              (j : ℕ) × In (j, w.score) scored × (Ordinals.identity table j ≡ some w.block_id))
            e (named_inv i s g k f),
      λ pos. rw hits-chosen (omega (arith, length-map to_hit chosen, length-chosen pos)),
    )

    -- A scored ordinal with an identity is among the hits, or each hit comes no later in the
    -- order; if the results of an exhausted index are exhausted it is among the hits.
    pub results_best :
        (i : ℕ) (score : S) (x : Text)
        → In (i, score) scored
        → Ordinals.identity table i ≡ some x
        → (In (to_hit (x, score)) (results o table scored limit true).hits
            ⊎ ((h : Hit S)
                → In h (results o table scored limit true).hits
                → le_hit o (h.block_id, h.score) (x, score) ≡ true))
          × ((results o table scored limit true).exhausted ≡ true
              → In (to_hit (x, score)) (results o table scored limit true).hits)
    results_best i score x m e =
        let r = resolved-In i score x m e in
        (
          elim (chosen_cases (x, score) r) [
            | inl n ↦ inl (rw hits-chosen (In-map_of to_hit (x, score) chosen n))
            | inr f ↦ inr λ h n.
                let (g, k, q) = In-map_inv to_hit h chosen (rw hits-chosen at n) in
                subst (λ (w : Hit S). le_hit o (w.block_id, w.score) (x, score) ≡ true) q (f g k)
          ],
          λ h. rw hits-chosen (
              In-map_of to_hit (x, score) chosen
                (rw (chosen_all h) ((In-sort (le_hit o) (x, score) resolved).1 r))),
        )
