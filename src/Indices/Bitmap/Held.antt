-- ===== src/Indices/Bitmap/Held.antt =====
-- bitmap.py, `_apply`: which ordinals stand under a value after a pass over the blocks.
use vitruvio.Prelude.{
  ℕ, ◌+◌, List, [], ◌∷◌, some, Bool, ◌&&◌, not, foldl, leb, length, Text, text_eq, nat_eq, get_or,
  get_or-insert, update, add, In-add, In, Dict, ◌≡◌, ◌↔◌, ◌⊎◌, inl, inr, refl, arith, Bool-cases,
  Option-cases,
}
use vitruvio.Indices.Projection.{Facet, facet_eq, Projection}
use vitruvio.Indices.Ordinals
use vitruvio.Indices.Ordinals.{OrdinalTable}
use vitruvio.Indices.Bitmap.{
  Bitmap, record_value, record_values, record_facet, apply, every_facet, has_key, max_distinct,
}

unfoldable pub held : Bitmap → Facet → Text → List ℕ
held b facet key = get_or (get_or b.facets facet []) key []

module _ (fold : Text → Text) (g : Facet) (k : Text) (o : ℕ) where
  -- A step that adds exactly what is new, unless it leaves the facet marked; a mark stays.
  abbrev pub Adds : Bitmap → Bitmap → Type 0 → Type 0
  Adds b b' New =
      ((¬ In g b'.unindexed) → In o (held b' g k) ↔ (In o (held b g k) ⊎ New))
      × (In g b.unindexed → In g b'.unindexed)

  record_value-Adds :
      (n : ℕ) (f : Facet) (v : Text) (b : Bitmap)
      → Adds b (record_value fold n f v b) ((o ≡ n) × (f ≡ g) × (fold v ≡ k))
  unfolding held record_value
  record_value-Adds n f v b = elim (Bool-cases past) [
    | inl e ↦ rw e (ground (arith, In-add b.unindexed f g))
    | inr e ↦ rw e (
        ground (
          arith,
          get_or-insert b.facets f g (update table (fold v) [] (λ h. add h n)) [],
          get_or-insert table (fold v) k (add (get_or table (fold v) []) n) [],
          In-add (get_or table (fold v) []) n o,
        ))
  ]
    where
      table : Dict Text (List ℕ)
      table = get_or b.facets f []

      past : Bool
      past = not (has_key table (fold v)) && leb max_distinct (length table)

  -- Some value of the list is the key, once it is folded.
  abbrev pub Folds : List Text → Type 0
  Folds [] = ⊥
  Folds (v ∷ vs) = (fold v ≡ k) ⊎ Folds vs

  folded-Adds :
      (n : ℕ) (f : Facet) (vs : List Text) (b : Bitmap)
      → Adds b (foldl (λ s v. record_value fold n f v s) b vs) ((o ≡ n) × (f ≡ g) × Folds vs)
  folded-Adds n f [] b = ground arith
  folded-Adds n f (v ∷ vs) b =
      ground (arith, record_value-Adds n f v b, folded-Adds n f vs (record_value fold n f v b))

  held-ready :
      (f : Facet) (b c : Bitmap)
      → c.facets ≡ update b.facets f [] (λ table. table)
      → held c g k ≡ held b g k
  unfolding held
  held-ready f b c e = ground (arith, get_or-insert b.facets f g (get_or b.facets f []) [])

  record_values-Adds :
      (n : ℕ) (f : Facet) (vs : List Text) (b : Bitmap)
      → Adds b (record_values fold n f vs b) ((o ≡ n) × (f ≡ g) × Folds vs)
  unfolding record_values
  record_values-Adds n f [] b = ground (arith, held-ready f b ready refl)
    where
      ready : Bitmap
      ready = record b {
        facets = update b.facets f [] (λ table. table);
        null_counts = update b.null_counts f 0 (λ m. m + 1);
      }
  record_values-Adds n f (v ∷ vs) b =
      ground (arith, held-ready f b ready refl, folded-Adds n f (v ∷ vs) ready)
    where
      ready : Bitmap
      ready = record b {
        facets = update b.facets f [] (λ table. table);
        populated_counts = update b.populated_counts f 0 (λ m. m + 1);
        total_values = update b.total_values f 0 (λ m. m + length (v ∷ vs));
      }

  record_facet-Adds :
      (n : ℕ) (items : Dict Facet (List Text)) (f : Facet) (b : Bitmap)
      → Adds b (record_facet fold n items f b) ((o ≡ n) × (f ≡ g) × Folds (get_or items g []))
  unfolding record_facet
  record_facet-Adds n items f b = ground (arith, record_values-Adds n f (get_or items f []) b)

  record_facets-Adds :
      (n : ℕ) (items : Dict Facet (List Text)) (fs : List Facet) (b : Bitmap)
      → Adds b
          (foldl (λ s f. record_facet fold n items f s) b fs)
          ((o ≡ n) × In g fs × Folds (get_or items g []))
  record_facets-Adds n items [] b = ground arith
  record_facets-Adds n items (f ∷ fs) b = ground (
    arith,
    record_facet-Adds n items f b,
    record_facets-Adds n items fs (record_facet fold n items f b),
  )

  In-every_facet : In g every_facet
  In-every_facet = ground arith

  module _ {W : Type 0} (t : OrdinalTable) where
    -- Some block of the list stands under the ordinal and lists the value.
    abbrev pub Carried : List (Projection W) → Type 0
    Carried [] = ⊥
    Carried (p ∷ ps) =
        ((Ordinals.ordinal t p.block_id ≡ some o) × Folds (get_or p.facets g [])) ⊎ Carried ps

    apply-Adds :
        (p : Projection W) (b : Bitmap)
        → Adds b
            (apply fold t p b)
            ((Ordinals.ordinal t p.block_id ≡ some o) × Folds (get_or p.facets g []))
    unfolding apply
    apply-Adds p b = elim (Option-cases (Ordinals.ordinal t p.block_id)) [
      | inl e ↦ rw (e, apply) (ground arith)
      | inr (n, e) ↦
          rw (e, apply)
            (ground (arith, record_facets-Adds n p.facets every_facet b, In-every_facet))
    ]

    pub applies-Adds :
        (ps : List (Projection W)) (b : Bitmap)
        → Adds b (foldl (λ s p. apply fold t p s) b ps) (Carried ps)
    applies-Adds [] b = ground arith
    applies-Adds (p ∷ ps) b = ground (arith, apply-Adds p b, applies-Adds ps (apply fold t p b))
