-- ===== src/Indices/Bitmap/Answers.antt =====
-- bitmap.py, `filter`: when a filter is answered at all.
use vitruvio.Prelude.{
  ℕ, if◌then◌else◌, List, [], ◌∷◌, none, some, false, ◌&&◌, not, foldl, is_nil, leb, length, map,
  Text, text_eq, lookup, insert, lookup-insert, get_or, contains, contains_iff, In, Dict, ◌≡◌, ◌⊎◌,
  inl, inr, diff, inter, range_from, set_of, sym, subst, refl, arith, Bool-cases, Option-cases,
  nat_eq,
}
use vitruvio.Indices.Projection.{Facet, facet_eq, Projection}
use vitruvio.Indices.Ordinals
use vitruvio.Indices.Ordinals.{OrdinalTable}
use vitruvio.Indices.Queries.{Combine, any, all, FacetClause, FacetQuery}
use vitruvio.Indices.Base.{rebuild}
use vitruvio.Indices.Bitmap.{
  Bitmap, surviving_of, smallest_first, reset, record_value, record_values, record_facet, apply,
  every_facet, combined, clause_set, clause_sets, filter, has_key, max_distinct,
}
use vitruvio.Indices.Bitmap.Filter.{built}

-- The facet has a table.
abbrev HasTable : Facet → Dict Facet (Dict Text (List ℕ)) → Type 0
HasTable g d = (table : Dict Text (List ℕ)) × (lookup d g ≡ some table)

module _ (fold : Text → Text) (g : Facet) where
  HasTable-insert :
      (f : Facet) (t : Dict Text (List ℕ)) (d : Dict Facet (Dict Text (List ℕ)))
      → HasTable g d ⊎ (f ≡ g)
      → HasTable g (insert d f t)
  HasTable-insert f t d h = elim (facet_eq.dec f g) [
    | yes p ↦ (t, ground (arith, lookup-insert d f g t))
    | no p ↦ elim h [
      | inl (u, k) ↦ (u, ground (arith, lookup-insert d f g t))
      | inr q ↦ absurd (p q)
    ]
  ]

  record_value-HasTable :
      (n : ℕ) (f : Facet) (v : Text) (b : Bitmap)
      → HasTable g b.facets
      → HasTable g (record_value fold n f v b).facets
  unfolding record_value
  record_value-HasTable n f v b h =
      elim (Bool-cases (
        not (has_key (get_or b.facets f []) (fold v))
        && leb max_distinct (length (get_or b.facets f [])))) [
          | inl e ↦ rw e h
          | inr e ↦ rw e (HasTable-insert f _ b.facets (inl h))
        ]

  record_all-HasTable :
      (n : ℕ) (f : Facet) (vs : List Text) (b : Bitmap)
      → HasTable g b.facets
      → HasTable g (foldl (λ s v. record_value fold n f v s) b vs).facets
  record_all-HasTable n f [] b h = h
  record_all-HasTable n f (v ∷ vs) b h =
      record_all-HasTable n f vs (record_value fold n f v b) (record_value-HasTable n f v b h)

  record_values-HasTable :
      (n : ℕ) (f : Facet) (vs : List Text) (b : Bitmap)
      → HasTable g b.facets ⊎ (f ≡ g)
      → HasTable g (record_values fold n f vs b).facets
  unfolding record_values
  record_values-HasTable n f [] b h = HasTable-insert f _ b.facets h
  record_values-HasTable n f (v ∷ vs) b h =
      record_all-HasTable n f (v ∷ vs) _ (HasTable-insert f _ b.facets h)

  record_facets-HasTable :
      (n : ℕ) (items : Dict Facet (List Text)) (fs : List Facet) (b : Bitmap)
      → HasTable g b.facets ⊎ In g fs
      → HasTable g (foldl (λ s f. record_facet fold n items f s) b fs).facets
  unfolding record_facet
  record_facets-HasTable n items [] b (inl h) = h
  record_facets-HasTable n items [] b (inr m) = absurd m
  record_facets-HasTable n items (f ∷ fs) b (inl h) =
      record_facets-HasTable n items fs _
        (inl (record_values-HasTable n f (get_or items f []) b (inl h)))
  record_facets-HasTable n items (f ∷ fs) b (inr (inl e)) =
      record_facets-HasTable n items fs _
        (inl (record_values-HasTable n f (get_or items f []) b (inr (sym e))))
  record_facets-HasTable n items (f ∷ fs) b (inr (inr m)) =
      record_facets-HasTable n items fs _ (inr m)

  module _ {W : Type 0} (t : OrdinalTable) where
    apply-HasTable :
        (p : Projection W) (b : Bitmap) → HasTable g b.facets → HasTable g (apply fold t p b).facets
    unfolding apply
    apply-HasTable p b h = elim (Option-cases (Ordinals.ordinal t p.block_id)) [
      | inl e ↦ rw (e, apply) h
      | inr (n, e) ↦ rw (e, apply) (record_facets-HasTable n p.facets every_facet b (inl h))
    ]

    applies-HasTable :
        (ps : List (Projection W)) (b : Bitmap)
        → HasTable g b.facets
        → HasTable g (foldl (λ s p. apply fold t p s) b ps).facets
    applies-HasTable [] b h = h
    applies-HasTable (p ∷ ps) b h = applies-HasTable ps (apply fold t p b) (apply-HasTable p b h)

    apply-held :
        (p : Projection W) (n : ℕ) (b : Bitmap)
        → Ordinals.ordinal t p.block_id ≡ some n
        → HasTable g (apply fold t p b).facets
    unfolding apply
    apply-held p n b e =
        rw (e, apply) (record_facets-HasTable n p.facets every_facet b (inr (ground arith)))

    builds-HasTable :
        (ps : List (Projection W)) (p : Projection W) (n : ℕ) (b : Bitmap)
        → In p ps
        → Ordinals.ordinal t p.block_id ≡ some n
        → HasTable g (foldl (λ s q. apply fold t q s) b ps).facets
    builds-HasTable [] p n b m e = absurd m
    builds-HasTable (q ∷ ps) p n b (inl f) e = applies-HasTable ps (apply fold t q b) (
        apply-held q n b (subst (λ (r : Projection W). Ordinals.ordinal t r.block_id ≡ some n) f e))
    builds-HasTable (q ∷ ps) p n b (inr m) e = builds-HasTable ps p n (apply fold t q b) m e

module _ (fold : Text → Text) where
  -- Each clause has values, and its facet is within the cap.
  abbrev pub Answerable : Bitmap → List FacetClause → Type 0
  Answerable b [] = Unit
  Answerable b (clause ∷ rest) =
      ((¬ In clause.facet b.unindexed) × (is_nil clause.values ≡ false)) × Answerable b rest

  combined-some :
      (how : Combine) (f : Text → List ℕ) (vs : List Text)
      → is_nil vs ≡ false
      → (m : List ℕ) × (combined how (map f vs) ≡ some m)
  unfolding combined
  combined-some how f [] h = absurd (ground arith)
  combined-some all f (v ∷ vs) h = (_, refl)
  combined-some any f (v ∷ vs) h = (_, refl)

  clause_set-some :
      (t : OrdinalTable) (b : Bitmap) (clause : FacetClause)
      → HasTable clause.facet b.facets
      → (¬ In clause.facet b.unindexed)
      → is_nil clause.values ≡ false
      → (m : List ℕ) × (clause_set fold t b clause ≡ some m)
  unfolding clause_set
  clause_set-some t b clause (table, e) u h =
      let (m, f) = combined-some clause.combine (λ v. get_or table (fold v) []) clause.values h in
      let marked : contains b.unindexed clause.facet ≡ false =
        ground (arith, contains_iff b.unindexed clause.facet) in
      (
        if clause.negate then diff (range_from 0 (Ordinals.size t)) m else m,
        rw (e, marked, f, clause_set) refl,
      )

  clause_sets-some :
      (t : OrdinalTable) (b : Bitmap) (clauses : List FacetClause)
      → ((g : Facet) → HasTable g b.facets)
      → Answerable b clauses
      → (ms : List (List ℕ)) × (clause_sets fold t b clauses ≡ some ms)
  unfolding clause_sets
  clause_sets-some t b [] h a = ([], refl)
  clause_sets-some t b (clause ∷ rest) h a =
      let (m, e) = clause_set-some t b clause (h clause.facet) a.0.0 a.0.1 in
      let (ms, f) = clause_sets-some t b rest h a.1 in (m ∷ ms, rw (e, f, clause_sets) refl)

  -- Over a build that holds some block, a filter is answered if it has clauses, each clause has
  -- values, and none of the facets has met the cap on distinct values.
  pub filter_answered :
      {W : Type 0} (t : OrdinalTable) (ps : List (Projection W)) (p : Projection W) (n : ℕ)
      (query : FacetQuery)
      → In p ps
      → Ordinals.ordinal t p.block_id ≡ some n
      → is_nil query.clauses ≡ false
      → Answerable (built fold t ps) query.clauses
      → (surviving : List ℕ) × (filter fold t (built fold t ps) query ≡ some surviving)
  unfolding filter rebuild
  filter_answered t ps p n query m e h a =
      let (ms, f) =
        clause_sets-some t (built fold t ps) query.clauses
          (λ g. builds-HasTable fold g t ps p n reset m e) a in
      (
        elim query.allow [
          | none ↦ surviving_of (smallest_first ms)
          | some allow ↦ inter (surviving_of (smallest_first ms)) (set_of allow)
        ],
        rw (h, f) refl,
      )
