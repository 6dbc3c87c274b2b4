-- ===== src/Indices/BTree/Scan.antt =====
-- btree.py, `scan`: on arrays in order the two bisects select exactly the entries within the bounds.
use vitruvio.Prelude.{
  ℕ, zero, suc, ◌+◌, ◌-◌, ◌≤◌, ◌<◌, ltb, List, [], ◌++◌, true, Option, none, some, map, length,
  length-map, get_elem?, get_elem?-map, get_elem?-lt, slice, In, In-position, In-get_elem?,
  In-slice_of, In-slice_inv, In-append, Text, le_text, text_ord, le_refl, IsSorted, ◌≡◌, ◌↔◌, ◌⊎◌,
  sym, subst, arith, Bool-cases, Option-cases, inl, inr, dec_le, dec_lt,
}
use vitruvio.Indices.Queries.{Order, ascending, descending}
use vitruvio.Indices.BTree.{at, bisect_left, start_of, end_of, descend, select}
use vitruvio.Indices.BTree.Bisect.{bisect_left-Splits, bisect_right-Splits}

-- A bound that is there holds.
abbrev pub Above : Option Text → Text → Type 0
Above none v = Unit
Above (some low) v = le_text low v ≡ true

abbrev pub Below : Option Text → Text → Type 0
Below none v = Unit
Below (some high) v = le_text v high ≡ true

module _ (values : List Text) (sorted : IsSorted le_text values) where
  start_of_lem :
      (low : Option Text) (i : ℕ)
      → i < length values
      → (start_of values low ≤ i) ↔ Above low (at values i)
  unfolding start_of
  start_of_lem none i h = (λ p. tt, λ a. omega arith)
  start_of_lem (some low) i h =
      let s = bisect_left-Splits values sorted low 0 (length values) (omega arith) (omega arith) in
      (
        λ p. ground (arith, s.fails i p h),
        λ a. elim (dec_le (start_of values (some low)) i) [
          | yes p ↦ p
          | no p ↦ cc (a, s.holds i (omega arith) (omega arith))
        ],
      )

  end_of_lem :
      (high : Option Text) (i : ℕ)
      → i < length values
      → (i < end_of values high) ↔ Below high (at values i)
  unfolding end_of
  end_of_lem none i h = (λ p. tt, λ b. h)
  end_of_lem (some high) i h =
      let s =
        bisect_right-Splits values sorted high 0 (length values) (omega arith) (omega arith) in
      (
        λ p. s.holds i (omega arith) p,
        λ b. elim (dec_lt i (end_of values (some high))) [
          | yes p ↦ p
          | no p ↦ cc (b, s.fails i (omega arith) h)
        ],
      )

  pub end_of-le : (high : Option Text) → end_of values high ≤ length values
  unfolding end_of
  end_of-le none = omega arith
  end_of-le (some high) =
      (bisect_right-Splits values sorted high 0 (length values) (omega arith)
        (omega arith)).below_hi

  -- the group of the last value before the cursor is not empty
  first_lt :
      (start cursor : ℕ)
      → start < cursor
      → cursor ≤ length values
      → (start ≤ bisect_left values (at values (cursor - 1)) start cursor)
        × (bisect_left values (at values (cursor - 1)) start cursor < cursor)
  first_lt start cursor h k =
      let s =
        bisect_left-Splits values sorted (at values (cursor - 1)) start cursor (omega arith) k in
      (
        s.above_lo,
        elim (dec_lt (bisect_left values (at values (cursor - 1)) start cursor) cursor) [
          | yes p ↦ p
          | no p ↦ ground (
            arith,
            s.holds (cursor - 1) (omega arith) (omega arith),
            le_refl text_ord (at values (cursor - 1)),
          )
        ],
      )

  module _ (owners : List ℕ) (o : ℕ) where
    slice_split :
        (a b c : ℕ)
        → a ≤ b
        → b ≤ c
        → In o (slice a c owners) ↔ (In o (slice b c owners) ⊎ In o (slice a b owners))
    slice_split a b c h k = (
      λ m.
          let (i, p, q, g) = In-slice_inv a c owners o m in
          elim (dec_lt i b) [
            | yes r ↦ inr (In-slice_of a b i owners o p r g)
            | no r ↦ inl (In-slice_of b c i owners o (omega arith) q g)
          ],
      λ m. elim m [
        | inl n ↦
            let (i, p, q, g) = In-slice_inv b c owners o n in
            In-slice_of a c i owners o (omega arith) q g
        | inr n ↦
            let (i, p, q, g) = In-slice_inv a b owners o n in
            In-slice_of a c i owners o p (omega arith) g
      ],
    )

    In-descend :
        (fuel start cursor : ℕ) (selected : List ℕ)
        → cursor ≤ length values
        → cursor ≤ start + fuel
        → In o (descend fuel values owners start cursor selected)
          ↔ (In o selected ⊎ In o (slice start cursor owners))
    unfolding descend
    In-descend zero start cursor selected h f =
        let e : cursor - start ≡ 0 = omega arith in rw e (ground arith)
    In-descend (suc fuel) start cursor selected h f = elim (Bool-cases (ltb start cursor)) [
      | inr e ↦ let z : cursor - start ≡ 0 = ground arith in rw (e, z) (ground arith)
      | inl e ↦
          let first = bisect_left values (at values (cursor - 1)) start cursor in
          let (p, q) = first_lt start cursor (ground arith) h in
          rw e (
            ground (
              arith,
              In-descend fuel start first (selected ++ slice first cursor owners) (omega arith)
                  (omega arith),
              In-append o selected (slice first cursor owners),
              slice_split start first cursor p (omega arith),
            ))
    ]

    -- Both directions select the same entries.
    pub In-select :
        (order : Order) (start end : ℕ)
        → end ≤ length values
        → In o (select order values owners start end) ↔ In o (slice start end owners)
    In-select ascending start end h = (λ m. m, λ m. m)
    In-select descending start end h =
        ground (arith, In-descend (end - start) start end [] h (omega arith))

-- The arrays of a list of entries.
module _ (entries : List (Text × ℕ))
    (sorted : IsSorted le_text (map (λ (e : Text × ℕ). e.0) entries)) where
  abbrev entry_values : List Text
  entry_values = map (λ (e : Text × ℕ). e.0) entries

  abbrev entry_owners : List ℕ
  entry_owners = map (λ (e : Text × ℕ). e.1) entries

  entry_at :
      (i : ℕ) (v : Text) (o : ℕ)
      → get_elem? entries i ≡ some (v, o)
      → (at entry_values i ≡ v) × (get_elem? entry_owners i ≡ some o)
  entry_at i v o g = ground (
    arith,
    get_elem?-map (λ (e : Text × ℕ). e.0) entries i,
    get_elem?-map (λ (e : Text × ℕ). e.1) entries i,
  )

  owner_entry :
      (i o : ℕ)
      → get_elem? entry_owners i ≡ some o
      → (v : Text) × (get_elem? entries i ≡ some (v, o))
  owner_entry i o g = elim (Option-cases (get_elem? entries i)) [
    | inl e ↦ absurd (ground (arith, get_elem?-map (λ (e : Text × ℕ). e.1) entries i))
    | inr ((v, p), e) ↦
        let same : p ≡ o = ground (arith, get_elem?-map (λ (x : Text × ℕ). x.1) entries i) in
        (v, subst (λ q. get_elem? entries i ≡ some (v, q)) same e)
  ]

  -- The selected owners are those of the entries within the bounds.
  pub In-range :
      (low high : Option Text) (o : ℕ)
      → In o (slice (start_of entry_values low) (end_of entry_values high) entry_owners)
        ↔ ((v : Text) × In (v, o) entries × Above low v × Below high v)
  In-range low high o = (
    λ m.
        let (i, p, q, g) =
          In-slice_inv (start_of entry_values low) (end_of entry_values high) entry_owners o m in
        let (v, e) = owner_entry i o g in
        let (value, _) = entry_at i v o e in
        let short : i < length entry_values =
          omega
            (arith, get_elem?-lt entries i (v, o) e, length-map (λ (x : Text × ℕ). x.0) entries) in
        (
          v,
          In-get_elem? entries i (v, o) e,
          subst (Above low) value ((start_of_lem entry_values sorted low i short).0 p),
          subst (Below high) value ((end_of_lem entry_values sorted high i short).0 q),
        ),
    λ (v, m, a, b).
        let (i, e) = In-position entries (v, o) m in
        let (value, owner) = entry_at i v o e in
        let short : i < length entry_values =
          omega
            (arith, get_elem?-lt entries i (v, o) e, length-map (λ (x : Text × ℕ). x.0) entries) in
        In-slice_of (start_of entry_values low) (end_of entry_values high) i entry_owners o
          ((start_of_lem entry_values sorted low i short).1 (subst (Above low) (sym value) a))
          ((end_of_lem entry_values sorted high i short).1 (subst (Below high) (sym value) b))
          owner,
  )
