-- ===== src/Indices/Bitmap/Filter.antt =====
-- bitmap.py, `filter`: which blocks survive the clauses.
use vitruvio.Prelude.{
  ℕ, ◌<◌, List, [], ◌∷◌, Option, none, some, Bool, true, false, map, foldl, is_nil, Text, text_eq,
  nat_eq, lookup, get_or, contains, contains_iff, union, inter, set_of, In-union, In-inter, In-diff,
  In-sort, In-range_from, range_from, leb, length, In, ◌≡◌, ◌∙◌, sym, subst, ◌↔◌, ◌⊎◌, inl, inr,
  refl, arith, Bool-cases, Option-cases, Dict,
}
use vitruvio.Indices.Projection.{Facet, facet_eq, Projection}
use vitruvio.Indices.Ordinals
use vitruvio.Indices.Ordinals.{OrdinalTable}
use vitruvio.Indices.Queries.{Combine, any, all, FacetClause, FacetQuery}
use vitruvio.Indices.Base.{rebuild}
use vitruvio.Indices.Bitmap.{
  Bitmap, reset, bitmap, combined, clause_set, clause_sets, intersect, smallest_first, surviving_of,
  filter,
}
use vitruvio.Indices.Bitmap.Held.{held, Carried, applies-Adds}

module _ (o : ℕ) where
  abbrev InEach : List (List ℕ) → Type 0
  InEach [] = Unit
  InEach (s ∷ sets) = In o s × InEach sets

  abbrev InSome : List (List ℕ) → Type 0
  InSome [] = ⊥
  InSome (s ∷ sets) = In o s ⊎ InSome sets

  In-inters :
      (s : List ℕ) (sets : List (List ℕ)) → In o (foldl inter s sets) ↔ (In o s × InEach sets)
  In-inters s [] = ground arith
  In-inters s (x ∷ sets) = ground (arith, In-inters (inter s x) sets, In-inter s x o)

  In-unions :
      (s : List ℕ) (sets : List (List ℕ)) → In o (foldl union s sets) ↔ (In o s ⊎ InSome sets)
  In-unions s [] = ground arith
  In-unions s (x ∷ sets) = ground (arith, In-unions (union s x) sets, In-union s x o)

  none_of_nil : (xs : List ℕ) → is_nil xs ≡ true → ¬ In o xs
  none_of_nil [] h m = m
  none_of_nil (x ∷ xs) h m = ground arith

  -- Leaving the loop early changes nothing.
  In-intersect :
      (s : List ℕ) (sets : List (List ℕ)) → In o (intersect s sets) ↔ (In o s × InEach sets)
  unfolding intersect
  In-intersect s [] = ground arith
  In-intersect s (x ∷ sets) =
      ground (arith, In-intersect (inter s x) sets, In-inter s x o, none_of_nil (inter s x))

  InEach-of : (sets : List (List ℕ)) → ((s : List ℕ) → In s sets → In o s) → InEach sets
  InEach-of [] h = tt
  InEach-of (s ∷ sets) h = (h s (inl refl), InEach-of sets λ x m. h x (inr m))

  InEach-In : (sets : List (List ℕ)) (s : List ℕ) → InEach sets → In s sets → In o s
  InEach-In [] s h m = absurd m
  InEach-In (x ∷ sets) s h (inl e) = subst (λ y. In o y) (sym e) h.0
  InEach-In (x ∷ sets) s h (inr m) = InEach-In sets s h.1 m

module _ (fold : Text → Text) {W : Type 0} (t : OrdinalTable) (ps : List (Projection W))
    (o : ℕ) where
  -- Some value, or each, is carried under the facet by a block under the ordinal.
  abbrev pub SomeCarried : Facet → List Text → Type 0
  SomeCarried g [] = ⊥
  SomeCarried g (v ∷ vs) = Carried fold g (fold v) o t ps ⊎ SomeCarried g vs

  abbrev pub EachCarried : Facet → List Text → Type 0
  EachCarried g [] = Unit
  EachCarried g (v ∷ vs) = Carried fold g (fold v) o t ps × EachCarried g vs

  abbrev pub Matches : Combine → Facet → List Text → Type 0
  Matches any g vs = SomeCarried g vs
  Matches all g vs = EachCarried g vs

  -- A negated clause asks for a block of the index that does not match.
  abbrev pub Satisfies : FacetClause → Type 0
  Satisfies clause = elim clause.negate [
    | false ↦ Matches clause.combine clause.facet clause.values
    | true ↦ (o < Ordinals.size t) × (¬ Matches clause.combine clause.facet clause.values)
  ]

  abbrev pub SatisfiesAll : List FacetClause → Type 0
  SatisfiesAll [] = Unit
  SatisfiesAll (clause ∷ rest) = Satisfies clause × SatisfiesAll rest

  Complete : Bitmap → Type 0
  Complete b =
      (g : Facet) (k : Text) → (¬ In g b.unindexed) → In o (held b g k) ↔ Carried fold g k o t ps

  module _ (g : Facet) (table : Dict Text (List ℕ))
      (exact : (k : Text) → In o (get_or table k []) ↔ Carried fold g k o t ps) where
    sets_of : List Text → List (List ℕ)
    sets_of vs = map (λ v. get_or table (fold v) []) vs

    InEach-sets : (vs : List Text) → InEach o (sets_of vs) ↔ EachCarried g vs
    unfolding sets_of
    InEach-sets [] = ground arith
    InEach-sets (v ∷ vs) = ground (arith, exact (fold v), InEach-sets vs)

    InSome-sets : (vs : List Text) → InSome o (sets_of vs) ↔ SomeCarried g vs
    unfolding sets_of
    InSome-sets [] = ground arith
    InSome-sets (v ∷ vs) = ground (arith, exact (fold v), InSome-sets vs)

    In-combined :
        (how : Combine) (vs : List Text) (m : List ℕ)
        → combined how (map (λ v. get_or table (fold v) []) vs) ≡ some m
        → In o m ↔ Matches how g vs
    unfolding combined sets_of
    In-combined all [] m e = cc
    In-combined any [] m e = cc
    In-combined all (v ∷ vs) m e =
        ground (
          arith,
          In-inters o (get_or table (fold v) []) (sets_of vs),
          InEach-sets vs,
          exact (fold v),
        )
    In-combined any (v ∷ vs) m e =
        ground (arith, In-unions o [] (sets_of (v ∷ vs)), InSome-sets vs, exact (fold v))

  In-clause_set :
      (b : Bitmap) (clause : FacetClause) (m : List ℕ)
      → Complete b
      → clause_set fold t b clause ≡ some m
      → In o m ↔ Satisfies clause
  unfolding clause_set Complete held
  In-clause_set b clause m c e = elim (Option-cases (lookup b.facets clause.facet)) [
    | inl f ↦ absurd (ground arith)
    | inr (table, f) ↦ elim (Bool-cases (contains b.unindexed clause.facet)) [
      | inl u ↦ absurd (ground arith)
      | inr u ↦
          elim (Option-cases
            (combined clause.combine (map (λ v. get_or table (fold v) []) clause.values))) [
              | inl n ↦ absurd (ground arith)
              | inr (matched, n) ↦
                  let unmarked : ¬ In clause.facet b.unindexed =
                    λ x. ground (arith, (contains_iff b.unindexed clause.facet).1 x) in
                  let exact : (k : Text)
                      → In o (get_or table k []) ↔ Carried fold clause.facet k o t ps =
                    λ k. ground (arith, c clause.facet k unmarked) in
                  let core =
                    In-combined clause.facet table exact clause.combine clause.values matched n in
                  ground (
                    arith,
                    core,
                    In-diff (range_from 0 (Ordinals.size t)) matched o,
                    In-range_from o 0 (Ordinals.size t),
                  )
            ]
    ]
  ]

  InEach-clause_sets :
      (b : Bitmap) (clauses : List FacetClause) (sets : List (List ℕ))
      → Complete b
      → clause_sets fold t b clauses ≡ some sets
      → (InEach o sets ↔ SatisfiesAll clauses) × (is_nil sets ≡ is_nil clauses)
  unfolding clause_sets
  InEach-clause_sets b [] sets c e = ground arith
  InEach-clause_sets b (clause ∷ rest) sets c e = elim (Option-cases (clause_set fold t b clause)) [
    | inl f ↦ absurd (ground arith)
    | inr (m, f) ↦ elim (Option-cases (clause_sets fold t b rest)) [
      | inl g ↦ absurd (ground arith)
      | inr (ms, g) ↦ ground (arith, In-clause_set b clause m c f, InEach-clause_sets b rest ms c g)
    ]
  ]

In-surviving_of :
    (o : ℕ) (sets : List (List ℕ))
    → is_nil sets ≡ false
    → In o (surviving_of (smallest_first sets)) ↔ InEach o sets
In-surviving_of o sets h = ground (arith, first (smallest_first sets) full, same)
  where
    le : List ℕ → List ℕ → Bool
    le x y = leb (length x) (length y)

    member : (xs : List (List ℕ)) → is_nil xs ≡ false → (x : List ℕ) × In x xs
    member [] e = cc
    member (x ∷ xs) e = (x, inl refl)

    full : is_nil (smallest_first sets) ≡ false
    full = let (x, m) = member sets h in there x (smallest_first sets) ((In-sort le x sets).1 m)
      where
        there : (x : List ℕ) (xs : List (List ℕ)) → In x xs → is_nil xs ≡ false
        there x [] m = absurd m
        there x (y ∷ xs) m = refl

    first : (xs : List (List ℕ)) → is_nil xs ≡ false → In o (surviving_of xs) ↔ InEach o xs
    first [] e = cc
    first (x ∷ xs) e = In-intersect o x xs

    same : InEach o (smallest_first sets) ↔ InEach o sets
    same = (
      λ h. InEach-of o sets λ x m. InEach-In o (smallest_first sets) x h ((In-sort le x sets).1 m),
      λ h. InEach-of o (smallest_first sets) λ x m. InEach-In o sets x h ((In-sort le x sets).0 m),
    )

-- The ordinal passes an earlier filter, if there is one.
abbrev pub Passes : Option (List ℕ) → ℕ → Type 0
Passes none o = Unit
Passes (some allow) o = In o allow

module _ (fold : Text → Text) {W : Type 0} (t : OrdinalTable) (ps : List (Projection W)) where
  abbrev pub built : Bitmap
  built = rebuild (bitmap fold) t ps

  Complete-built : (o : ℕ) → Complete fold t ps o built
  unfolding Complete rebuild held reset lookup
  Complete-built o g k u = ground (arith, (applies-Adds fold g k o t ps reset).0 u)

  -- If a filter with clauses is answered after a build, it holds an ordinal exactly if what the
  -- blocks under it carry satisfies every clause, a negated clause asking that the ordinal is in
  -- the index and does not match, and an earlier filter, if there is one, holds it.
  pub filter_exact :
      (query : FacetQuery) (surviving : List ℕ) (o : ℕ)
      → is_nil query.clauses ≡ false
      → filter fold t built query ≡ some surviving
      → In o surviving ↔ (SatisfiesAll fold t ps o query.clauses × Passes query.allow o)
  unfolding filter
  filter_exact query surviving o h e =
      elim (Option-cases (clause_sets fold t built query.clauses)) [
        | inl f ↦ absurd (ground arith)
        | inr (sets, f) ↦
            let (each, nils) =
              InEach-clause_sets fold t ps o built query.clauses sets (Complete-built o) f in
            let survives = In-surviving_of o sets (nils ∙ h) in
            elim (Option-cases query.allow) [
              | inl a ↦ ground (arith, each, survives)
              | inr (allow, a) ↦ ground (
                arith,
                each,
                survives,
                In-inter (surviving_of (smallest_first sets)) (set_of allow) o,
                In-union [] allow o,
              )
            ]
      ]
