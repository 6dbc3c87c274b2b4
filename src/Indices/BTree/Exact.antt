-- ===== src/Indices/BTree/Exact.antt =====
-- btree.py, `scan` over a build: which blocks a scan answers with.
use vitruvio.Prelude.{
  ℕ, ◌≤◌, leb, if◌then◌else◌, List, [], ◌∷◌, Option, none, some, ◌||◌, map, is_nil, In-filterb,
  slice, contains, contains_iff, set_of, In-union, In, In-slice_inv, Text, le_text, text_eq, nat_eq,
  IsSorted, ◌↔◌, inl, inr, arith, Bool-cases,
}
use vitruvio.Indices.Projection.{ordered_key_eq, Projection}
use vitruvio.Indices.Ordinals.{OrdinalTable}
use vitruvio.Indices.Queries.{Order, RangeQuery}
use vitruvio.Indices.Base.{rebuild}
use vitruvio.Indices.BTree.{btree, bounds, encoded, start_of, end_of, select, allowed, scan}
use vitruvio.Indices.BTree.Pairs.{Entry}
use vitruvio.Indices.BTree.Built.{HasEntry, built_arrays}
use vitruvio.Indices.BTree.Scan.{Above, Below, In-select, In-range, end_of-le}

-- An earlier filter, if there is one, left the ordinal.
abbrev pub Allowed : Option (List ℕ) → ℕ → Type 0
Allowed none o = Unit
Allowed (some allow) o = In o allow

In-allowed :
    (allow : Option (List ℕ)) (selected : List ℕ) (o : ℕ)
    → In o (allowed allow selected) ↔ (In o selected × Allowed allow o)
In-allowed none selected o = ground arith
In-allowed (some allow) selected o = ground (
  arith,
  In-filterb (contains (set_of allow)) o selected,
  contains_iff (set_of allow) o,
  In-union [] allow o,
)

empty_slice : (start end o : ℕ) (os : List ℕ) → end ≤ start → In o (slice start end os) ↔ ⊥
empty_slice start end o os h =
    (λ m. let (i, p, q, g) = In-slice_inv start end os o m in omega (arith, p, q), λ m. absurd m)

abbrev vs : List Entry → List Text
vs entries = map (λ (e : Entry). e.0) entries

abbrev os : List Entry → List ℕ
os entries = map (λ (e : Entry). e.1) entries

-- Some entry of the ordinal is within the bounds.
abbrev pub Within : List Entry → Option Text → Option Text → ℕ → Type 0
Within entries low high o = (v : Text) × In (v, o) entries × Above low v × Below high v

-- What `scan` does with the arrays of a list of entries in order.
guarded :
    (entries : List Entry) (order : Order) (allow : Option (List ℕ)) (low high : Option Text)
    (o : ℕ)
    → IsSorted le_text (vs entries)
    → In o (
        if is_nil (vs entries) || is_nil (os entries)
        then []
        else if leb (end_of (vs entries) high) (start_of (vs entries) low)
        then []
        else allowed allow (
            select order
              (vs entries)
              (os entries)
              (start_of (vs entries) low)
              (end_of (vs entries) high)))
      ↔ (Within entries low high o × Allowed allow o)
guarded [] order allow low high o sorted = (λ m. absurd m, λ m. absurd m.0.1)
guarded (x ∷ rest) order allow low high o sorted = elim (Bool-cases (leb end start)) [
  | inl e ↦ rw e (
    λ m. absurd m,
    λ m. absurd ((empty_slice start end o (os (x ∷ rest)) (ground arith)).0 (range.1 m.0)),
  )
  | inr e ↦ rw e (
    λ m. let (n, a) = (In-allowed allow _ o).0 m in (range.0 (chosen.0 n), a),
    λ m. (In-allowed allow _ o).1 (chosen.1 (range.1 m.0), m.1),
  )
]
  where
    start : ℕ
    start = start_of (vs (x ∷ rest)) low

    end : ℕ
    end = end_of (vs (x ∷ rest)) high

    range : In o (slice start end (os (x ∷ rest))) ↔ Within (x ∷ rest) low high o
    range = In-range (x ∷ rest) sorted low high o

    chosen :
        In o (select order (vs (x ∷ rest)) (os (x ∷ rest)) start end)
        ↔ In o (slice start end (os (x ∷ rest)))
    chosen =
        In-select (vs (x ∷ rest)) sorted (os (x ∷ rest)) o order start end
          (end_of-le (vs (x ∷ rest)) sorted high)

module _ {W : Type 0} (t : OrdinalTable) (ps : List (Projection W)) (q : RangeQuery) (o : ℕ) where
  abbrev pub low : Option Text
  low = (bounds (encoded q.low) (encoded q.high) q.prefix).0

  abbrev pub high : Option Text
  high = (bounds (encoded q.low) (encoded q.high) q.prefix).1

  -- After a build a scan, in either direction, answers with an ordinal exactly if a block under
  -- it has, under the query's key, a value within the bounds, and the filter of the query, if
  -- there is one, holds the ordinal.
  pub scan_exact :
      In o (scan (rebuild btree t ps) q)
      ↔ (((v : Text) × HasEntry t ps q.key v o × Above low v × Below high v) × Allowed q.allow o)
  unfolding scan
  scan_exact =
      let (entries, values, owners, sorted, held) = built_arrays t ps q.key in
      rw (values, owners)
        (
          λ m.
              let ((v, n, a, b), c) = (guarded entries q.order q.allow low high o sorted).0 m in
              ((v, (held v o).0 n, a, b), c),
          λ ((v, n, a, b), c).
              (guarded entries q.order q.allow low high o sorted).1 ((v, (held v o).1 n, a, b), c),
        )
