-- ===== src/Indices/Graph/Restored.antt =====
-- graph.py: an index that was written and read again answers as the one that was built.
use vitruvio.Prelude.{
  ℕ, ℤ, magnitude, ◌≤◌, In-append, if◌then◌else◌, List, [], ◌∷◌, map, foldl, sort, In-sort, set_of,
  union, enumerate, Dict, lookup, In-union, Distinct, Distinct-union, In-map_of, In-map_inv,
  sort_canonical, In, Text, text_eq, le_text, text_ord, ◌≡◌, ◌↔◌, ◌∙◌, inl, inr, refl, sym, ap,
  subst, arith, Option-cases,
}
use vitruvio.Indices.Projection.{Edge, Projection}
use vitruvio.Indices.Base.{rebuild}
use vitruvio.Indices.Queries.{TraversalQuery}
use vitruvio.Indices.Ordinals
use vitruvio.Indices.Ordinals.Laws.{In-identities}
use vitruvio.Indices.Graph.{
  Floats, Raw, Graph, reset, connect, number, finish, steps, mentioned, apply, graph, weight_scale,
}
use vitruvio.Indices.Graph.Edges.{Joins}
use vitruvio.Indices.Graph.Compiled.{IsFresh, numbering, steps-finish}
use vitruvio.Indices.Graph.Stored.{store, restore, le_stored, dump, load}

module _ {F : Type 0} (floats : Floats F) where
  -- A number of thousandths up to a limit is read back as it was written; of a double this holds up
  -- to 2 ^ 50.
  abbrev pub IsExact : ℕ → Type 0
  IsExact limit =
      (n : ℤ)
      → magnitude n ≤ limit
      → floats.round (
          floats.mul (floats.div (floats.of_int n) (floats.of_int weight_scale))
            (floats.of_int weight_scale))
        ≡ n

  -- The weights of the blocks have at most so many thousandths.
  abbrev pub IsWithin : ℕ → List (Projection F) → Type 0
  IsWithin limit blocks =
      (p : Projection F) (e : Edge F)
      → In p blocks
      → In e p.edges
      → magnitude (floats.round (floats.mul e.weight (floats.of_int weight_scale))) ≤ limit

  -- Every weight is a number of thousandths.
  abbrev IsQuantized : ℕ → List (Raw F) → Type 0
  IsQuantized limit raw =
      (e : Raw F)
      → In e raw
      → (n : ℤ) × (magnitude n ≤ limit)
        × (e.weight ≡ floats.div (floats.of_int n) (floats.of_int weight_scale))

  -- what the blocks' edges are collected to, before they are compiled
  abbrev collected : Graph F → List (Projection F) → Graph F
  collected = foldl (λ s p. apply floats p s)

  apply-IsQuantized :
      (limit : ℕ) (p : Projection F) (g : Graph F)
      → ((e : Edge F)
          → In e p.edges
          → magnitude (floats.round (floats.mul e.weight (floats.of_int weight_scale))) ≤ limit)
      → IsQuantized limit g.raw
      → IsQuantized limit (apply floats p g).raw
  unfolding apply
  apply-IsQuantized limit p g within held e m = elim ((In-append e g.raw _).0 m) [
    | inl k ↦ held e k
    | inr k ↦
        let (d, i, q) = In-map_inv _ e p.edges k in
        (_, within d i, sym (ap (λ (x : Raw F). x.weight) q))
  ]

  collected-IsQuantized :
      (limit : ℕ) (blocks : List (Projection F)) (g : Graph F)
      → IsWithin limit blocks
      → IsQuantized limit g.raw
      → IsQuantized limit (collected g blocks).raw
  collected-IsQuantized limit [] g within held = held
  collected-IsQuantized limit (p ∷ blocks) g within held =
      collected-IsQuantized limit blocks (apply floats p g) (λ q e i. within q e (inr i))
        (apply-IsQuantized limit p g (λ e. within p e (inl refl)) held)

  collected-IsFresh :
      (blocks : List (Projection F)) (g : Graph F) → IsFresh g → IsFresh (collected g blocks)
  unfolding apply
  collected-IsFresh [] g fresh = fresh
  collected-IsFresh (p ∷ blocks) g fresh =
      collected-IsFresh blocks (apply floats p g)
        (record { out = fresh.out; into = fresh.into; kinds = fresh.kinds })

  connect_raw : (e : Raw F) (g : Graph F) → (connect e g).raw ≡ g.raw
  unfolding connect
  connect_raw e g = elim (Option-cases (lookup g.position e.source)) [
    | inl p ↦ rw (p, connect) refl
    | inr (tail, p) ↦ elim (Option-cases (lookup g.position e.target)) [
      | inl q ↦ rw (p, q, connect) refl
      | inr (head, q) ↦ rw (p, q, connect) refl
    ]
  ]

  link_raw : (es : List (Raw F)) (g : Graph F) → (foldl (λ s e. connect e s) g es).raw ≡ g.raw
  link_raw [] g = refl
  link_raw (e ∷ es) g = link_raw es (connect e g) ∙ connect_raw e g

  finish_raw : (table : Ordinals.OrdinalTable) (g : Graph F) → (finish floats table g).raw ≡ g.raw
  unfolding finish
  finish_raw table g = link_raw g.raw (number floats table g)

  restore-store :
      (limit : ℕ)
      → IsExact limit
      → (raw : List (Raw F)) → IsQuantized limit raw
      → (e : Raw F) → In e raw
      → restore floats (store floats e) ≡ e
  restore-store limit exact raw quantized e m =
      let (k, within, q) = quantized e m in
      ap
        (λ (x : F). record {
          source = e.source;
          target = e.target;
          kind = e.kind;
          predicate = e.predicate;
          weight = x;
        })
        (ap
            (λ (x : F).
              floats.div (floats.of_int (floats.round (floats.mul x (floats.of_int weight_scale))))
                (floats.of_int weight_scale))
            q
          ∙ ap (λ (j : ℤ). floats.div (floats.of_int j) (floats.of_int weight_scale))
              (exact k within)
          ∙ sym q)

  -- What is read back are the edges that were written.
  In-restored :
      (limit : ℕ)
      → IsExact limit
      → (raw : List (Raw F)) → IsQuantized limit raw
      → (e : Raw F)
      → In e (map (restore floats) (sort le_stored (map (store floats) raw))) ↔ In e raw
  In-restored limit exact raw quantized e = (
    (λ m.
        let (s, i, p) = In-map_inv (restore floats) e (sort le_stored (map (store floats) raw)) m in
        let (d, j, q) =
          In-map_inv (store floats) s raw ((In-sort le_stored s (map (store floats) raw)).0 i) in
        subst (λ x. In x raw)
          (sym (restore-store limit exact raw quantized d j) ∙ ap (restore floats) q ∙ p) j),
    (λ m.
        subst (λ x. In x (map (restore floats) (sort le_stored (map (store floats) raw))))
          (restore-store limit exact raw quantized e m)
          (In-map_of (restore floats) (store floats e) _ (
            (In-sort le_stored (store floats e) (map (store floats) raw)).1
              (In-map_of (store floats) e raw m)))),
  )

same_mapped :
    {A B : Type 0} (f : A → B) (xs ys : List A)
    → ((a : A) → In a xs ↔ In a ys)
    → (b : B) → In b (map f xs) ↔ In b (map f ys)
same_mapped f xs ys same b = (
  (λ m.
      let (a, i, e) = In-map_inv f b xs m in
      subst (λ c. In c (map f ys)) e (In-map_of f a ys ((same a).0 i))),
  (λ m.
      let (a, i, e) = In-map_inv f b ys m in
      subst (λ c. In c (map f xs)) e (In-map_of f a xs ((same a).1 i))),
)

module _ {F : Type 0} where
  mentioned-Distinct : (members : List Text) (raw : List (Raw F)) → Distinct (mentioned members raw)
  mentioned-Distinct members raw =
      Distinct-union _ (map (λ (e : Raw F). e.target) raw)
        (Distinct-union _ (map (λ (e : Raw F). e.source) raw) (Distinct-union [] members tt))

  -- The numbering depends on the members and the edges alone, not on their order.
  same_nodes :
      (members members' : List Text) (raw raw' : List (Raw F))
      → ((x : Text) → In x members ↔ In x members')
      → ((e : Raw F) → In e raw ↔ In e raw')
      → sort le_text (mentioned members raw) ≡ sort le_text (mentioned members' raw')
  same_nodes members members' raw raw' same edges =
      sort_canonical text_ord _ _ (mentioned-Distinct members raw)
        (mentioned-Distinct members' raw')
        (λ x. ground (
          arith,
          same x,
          In-union [] members x,
          In-union [] members' x,
          In-union (set_of members) (map (λ (e : Raw F). e.source) raw) x,
          In-union (set_of members') (map (λ (e : Raw F). e.source) raw') x,
          In-union (union (set_of members) (map (λ (e : Raw F). e.source) raw))
              (map (λ (e : Raw F). e.target) raw) x,
          In-union (union (set_of members') (map (λ (e : Raw F). e.source) raw'))
              (map (λ (e : Raw F). e.target) raw') x,
          same_mapped (λ (e : Raw F). e.source) raw raw' edges x,
          same_mapped (λ (e : Raw F). e.target) raw raw' edges x,
        ))

  -- What was collected, compiled, written and read again offers the same steps as what was compiled.
  load-dump_collected :
      (floats : Floats F) (limit : ℕ) (ids : List Text) (g : Graph F) (query : TraversalQuery F)
      (n m : ℕ) (w : F)
      → IsExact floats limit
      → IsQuantized floats limit g.raw
      → IsFresh g
      → In
          (m, w)
          (steps
            (load floats
              (Ordinals.init ids).identities
              (dump floats (finish floats (Ordinals.init ids) g)))
            query
            n)
        ↔ In (m, w) (steps (finish floats (Ordinals.init ids) g) query n)
  unfolding load dump reset
  load-dump_collected floats limit ids g query n m w exact quantized fresh =
      let before = steps-finish floats (Ordinals.init ids) g query n m w fresh in
      let after =
        steps-finish floats (Ordinals.init (Ordinals.init ids).identities) read query n m w
          (record { out = refl; into = refl; kinds = refl }) in
      (
        (λ i.
            let (e, leads, f, q) = after.0 i in
            before.1 (e, ((edges e).0 leads.0, subst (joined e) numbers leads.1), f, q)),
        (λ i.
            let (e, leads, f, q) = before.0 i in
            after.1 (e, ((edges e).1 leads.0, subst (joined e) (sym numbers) leads.1), f, q)),
      )
    where
      read : Graph F
      read = record reset {
        raw = map (restore floats) (dump floats (finish floats (Ordinals.init ids) g));
      }

      edges : (e : Raw F) → In e read.raw ↔ In e g.raw
      edges e =
          subst
            (λ raw.
              In e (map (restore floats) (sort le_stored (map (store floats) raw))) ↔ In e g.raw)
            (sym (finish_raw floats (Ordinals.init ids) g))
            (In-restored floats limit exact g.raw quantized e)

      numbers :
          numbering floats (Ordinals.init (Ordinals.init ids).identities) read
          ≡ numbering floats (Ordinals.init ids) g
      numbers =
          ap (λ nodes. enumerate nodes)
            (same_nodes (Ordinals.init (Ordinals.init ids).identities).identities
              (Ordinals.init ids).identities read.raw g.raw
              (In-identities (Ordinals.init ids).identities) edges)

      joined : Raw F → Dict Text ℕ → Type 0
      joined e position =
          Joins position e (if query.inbound then m else n) (if query.inbound then n else m)

  -- An index that was built from blocks, written and read again offers the same steps as the one that
  -- was built, for every query and every two nodes, if numbers of thousandths up to a limit are read
  -- back as they were written and the blocks' weights have no more thousandths than that.
  pub load-dump :
      (floats : Floats F) (limit : ℕ) (ids : List Text) (blocks : List (Projection F))
      (query : TraversalQuery F) (n m : ℕ) (w : F)
      → IsExact floats limit
      → IsWithin floats limit blocks
      → let built = rebuild (graph floats) (Ordinals.init ids) blocks in
        In (m, w) (steps (load floats (Ordinals.init ids).identities (dump floats built)) query n)
        ↔ In (m, w) (steps built query n)
  unfolding rebuild reset
  load-dump floats limit ids blocks query n m w exact within =
      load-dump_collected floats limit ids (collected floats reset blocks) query n m w exact
        (collected-IsQuantized floats limit blocks reset within (λ e i. absurd i))
        (collected-IsFresh floats blocks reset (record { out = refl; into = refl; kinds = refl }))
