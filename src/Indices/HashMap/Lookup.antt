-- ===== src/Indices/HashMap/Lookup.antt =====
-- hash_map.py: a lookup answers with exactly the blocks that carry what was asked.
use vitruvio.Prelude.{
  ℕ, List, [], ◌∷◌, some, true, false, map, is_nil, filter_some, Text, text_eq, nat_eq, set_of,
  union, In-union, In, In-map_of, In-map_inv, In-filter_some_of, In-filter_some_inv, Ord, ◌≡◌, ◌↔◌,
  ◌⊎◌, inl, inr, refl, sym, ap, subst, arith, Dict,
}
use vitruvio.Indices.Projection.{IdentityKey, identity_key_eq, Projection}
use vitruvio.Indices.Ordinals
use vitruvio.Indices.Ordinals.{OrdinalTable}
use vitruvio.Indices.Queries.{IdQuery, Hit}
use vitruvio.Indices.Base.{rebuild, results}
use vitruvio.Indices.HashMap.{HashMap, postings, key_ordinals, found, hash_map, reset}
use vitruvio.Indices.HashMap.Postings.{
  Listed, Posted, Posted-from, Posted-of, In-applies, postings-reset,
}
use vitruvio.Indices.HashMap.{lookup_ids}
use vitruvio.Indices.Base.Hits.{results_sound, results_best}
use vitruvio.Indices.Ordinals.Laws.{ordinal-identity, ordinal-lt-size}

module _ (fold : Text → Text) where
  -- Some pair of the query asks for a value that the block lists, once it is folded.
  abbrev pub Asked : List (IdentityKey × Text) → Dict IdentityKey (List Text) → Type 0
  Asked [] items = ⊥
  Asked ((key, value) ∷ rest) items =
      ((is_nil (fold value) ≡ false) × Listed key (fold value) items) ⊎ Asked rest items

  -- Some pair of the query finds the ordinal.
  abbrev Finds : HashMap → ℕ → List (IdentityKey × Text) → Type 0
  Finds h o [] = ⊥
  Finds h o ((key, value) ∷ rest) = In o (postings h key (fold value)) ⊎ Finds h o rest

  In-key_ordinals :
      (h : HashMap) (o : ℕ) (keys : List (IdentityKey × Text)) (held : List ℕ)
      → In o (key_ordinals fold h keys held) ↔ (In o held ⊎ Finds h o keys)
  unfolding key_ordinals
  In-key_ordinals h o [] held = ground arith
  In-key_ordinals h o ((key, value) ∷ rest) held = ground (
    arith,
    In-key_ordinals h o rest (union held (postings h key (fold value))),
    In-union held (postings h key (fold value)) o,
  )

  module _ {W : Type 0} (ps : List (Projection W)) where
    abbrev pub table : OrdinalTable
    table = Ordinals.init (map (λ p. p.block_id) ps)

    abbrev pub built : HashMap
    built = rebuild hash_map table ps

    In-built :
        (o : ℕ) (key : IdentityKey) (v : Text)
        → In o (postings built key v) ↔ ((is_nil v ≡ false) × Posted table o key v ps)
    unfolding rebuild
    In-built o key v = ground (arith, In-applies table o key v ps reset, postings-reset key v)

    Finds-from :
        (o : ℕ) (keys : List (IdentityKey × Text))
        → Finds built o keys
        → (p : Projection W) × In p ps
          × (Ordinals.ordinal table p.block_id ≡ some o)
          × Asked keys p.identities
    Finds-from o [] m = absurd m
    Finds-from o ((key, value) ∷ rest) (inl c) =
        let (full, posted) = (In-built o key (fold value)).0 c in
        let (p, m, e, l) = Posted-from table o key (fold value) ps posted in
        (p, m, e, inl (full, l))
    Finds-from o ((key, value) ∷ rest) (inr c) =
        let (p, m, e, l) = Finds-from o rest c in (p, m, e, inr l)

    Finds-of :
        (o : ℕ) (keys : List (IdentityKey × Text)) (p : Projection W)
        → In p ps
        → Ordinals.ordinal table p.block_id ≡ some o
        → Asked keys p.identities
        → Finds built o keys
    Finds-of o [] p m e a = absurd a
    Finds-of o ((key, value) ∷ rest) p m e (inl a) =
        inl ((In-built o key (fold value)).1 (a.0, Posted-of table o key (fold value) p ps m e a.1))
    Finds-of o ((key, value) ∷ rest) p m e (inr a) = inr (Finds-of o rest p m e a)

    In-found :
        (o : ℕ) (query : IdQuery)
        → In o (found fold table built query) ↔ (
            In o (filter_some (Ordinals.ordinal table) query.identities) ⊎ Finds built o query.keys)
    unfolding found
    In-found o query = ground (
      arith,
      In-key_ordinals built o query.keys
          (set_of (filter_some (Ordinals.ordinal table) query.identities)),
      In-union [] (filter_some (Ordinals.ordinal table) query.identities) o,
    )

    module _ {S : Type 0} (o : Ord S) (exact_score : S) (query : IdQuery) (id : Text) where
      -- The block was named, or some key of the query finds it.
      abbrev pub Wanted : Type 0
      Wanted =
          (In id (map (λ p. p.block_id) ps) × In id query.identities)
          ⊎ ((p : Projection W) × In p ps × (p.block_id ≡ id) × Asked query.keys p.identities)

      at_ordinal :
          (i : ℕ) → Ordinals.identity table i ≡ some id → Ordinals.ordinal table id ≡ some i
      at_ordinal i e = (ordinal-identity (map (λ p. p.block_id) ps) id i).1 e

      same_id :
          (x : Text) (i : ℕ)
          → Ordinals.identity table i ≡ some id
          → Ordinals.ordinal table x ≡ some i
          → x ≡ id
      same_id x i e h = cc (e, (ordinal-identity (map (λ p. p.block_id) ps) x i).0 h)

      found-Wanted :
          (i : ℕ)
          → Ordinals.identity table i ≡ some id
          → In i (found fold table built query)
          → Wanted
      found-Wanted i e m = elim ((In-found i query).0 m) [
        | inl n ↦
            let (x, k, h) = In-filter_some_inv (Ordinals.ordinal table) i query.identities n in
            inl (
              (ordinal-lt-size (map (λ p. p.block_id) ps) id).1 i (at_ordinal i e),
              subst (λ y. In y query.identities) (same_id x i e h) k,
            )
        | inr n ↦
            let (p, k, h, a) = Finds-from i query.keys n in inr (p, k, same_id p.block_id i e h, a)
      ]

      Wanted-found :
          (i : ℕ)
          → Ordinals.identity table i ≡ some id
          → Wanted
          → In i (found fold table built query)
      Wanted-found i e (inl w) = (In-found i query).1 (
          inl
            (In-filter_some_of (Ordinals.ordinal table) i id query.identities w.1 (at_ordinal i e)))
      Wanted-found i e (inr (p, k, q, a)) = (In-found i query).1 (
          inr (
            Finds-of i query.keys p k
              (subst (λ x. Ordinals.ordinal table x ≡ some i) (sym q) (at_ordinal i e)) a))

      Wanted-held : Wanted → (i : ℕ) × (Ordinals.identity table i ≡ some id)
      Wanted-held w =
          let (i, h, _) = (ordinal-lt-size (map (λ p. p.block_id) ps) id).0 (among w) in
          (i, (ordinal-identity (map (λ p. p.block_id) ps) id i).0 h)
        where
          among : Wanted → In id (map (λ p. p.block_id) ps)
          among (inl v) = v.0
          among (inr (p, k, q, a)) =
              subst (λ x. In x (map (λ p. p.block_id) ps)) q (In-map_of (λ p. p.block_id) p ps k)

      hit : Hit S
      hit = record { block_id = id; score = exact_score }

      scored : List (ℕ × S)
      scored = map (λ ordinal. (ordinal, exact_score)) (found fold table built query)

      -- A lookup's hits are the held identities that the query names and the blocks that list a
      -- value asked for; none is cut.
      pub lookup_exact :
          (In
              (record { block_id = id; score = exact_score })
              (lookup_ids fold o exact_score table built query).hits
            ↔ Wanted)
          × ((lookup_ids fold o exact_score table built query).exhausted ≡ true)
      unfolding lookup_ids hit scored
      lookup_exact = ((back, forth), unfold results in refl)
        where
          back : In hit (results o table scored 0 true).hits → Wanted
          back m =
              let (i, n, e) = (results_sound o table scored 0).0 hit m in
              let (j, k, f) =
                In-map_inv (λ ordinal. (ordinal, exact_score)) (i, exact_score)
                  (found fold table built query) n in
              found-Wanted i e
                (subst (λ y. In y (found fold table built query)) (ap (λ (q : ℕ × S). q.0) f) k)

          forth : Wanted → In hit (results o table scored 0 true).hits
          forth w =
              let (i, e) = Wanted-held w in
              (results_best o table scored 0 i exact_score id
                  (In-map_of (λ ordinal. (ordinal, exact_score)) i (found fold table built query)
                    (Wanted-found i e w))
                  e).1
                (unfold results in refl)
