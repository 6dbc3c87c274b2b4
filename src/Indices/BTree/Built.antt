-- ===== src/Indices/BTree/Built.antt =====
-- btree.py: what the sorted arrays hold after a build.
use vitruvio.Prelude.{
  ℕ, List, [], ◌∷◌, none, some, true, false, map, foldl, Text, le_text, text_total, text_trans,
  lookup, insert, get_or, keys, get_or-insert, lookup-none_of, In, Distinct, In-sort, sort,
  IsSorted, IsSorted-sort, All-of, All-In, In-map_inv, ◌≡◌, ◌↔◌, inl, inr, refl, sym, ap, subst,
  arith, Option-cases, Dict,
}
use vitruvio.Indices.Projection.{OrderedKey, ordered_key_eq, KeyValue, Projection}
use vitruvio.Indices.Ordinals
use vitruvio.Indices.Ordinals.{OrdinalTable}
use vitruvio.Indices.Base.{rebuild}
use vitruvio.Indices.BTree.{BTree, reset, encode, apply, le_pair, arrange, finish, btree}
use vitruvio.Indices.BTree.Pairs.{
  Entry, pending_at, Ranked, Gathered, In-applies, applies-Distinct, applies-arrays,
}

-- `arrange` writes both arrays of each pending key from the sorted entries.
arrange_lem :
    (key : OrderedKey) (items : Dict OrderedKey (List Entry)) (b : BTree)
    → Distinct (keys items)
    → (get_or (arrange items b).values key [] ≡ elim (lookup items key) [
      | none ↦ get_or b.values key []
      | some pairs ↦ map (λ (e : Entry). e.0) (sort le_pair pairs)
    ])
      × (get_or (arrange items b).owners key [] ≡ elim (lookup items key) [
        | none ↦ get_or b.owners key []
        | some pairs ↦ map (λ (e : Entry). e.1) (sort le_pair pairs)
      ])
unfolding arrange lookup
arrange_lem key [] b d = (refl, refl)
arrange_lem key ((k, pairs) ∷ items) b d = ground (
  arith,
  arrange_lem key items next d.1,
  get_or-insert b.values k key (map (λ (e : Entry). e.0) (sort le_pair pairs)) [],
  get_or-insert b.owners k key (map (λ (e : Entry). e.1) (sort le_pair pairs)) [],
  absent,
)
  where
    next : BTree
    next = record b {
      values = insert b.values k (map (λ (e : Entry). e.0) (sort le_pair pairs));
      owners = insert b.owners k (map (λ (e : Entry). e.1) (sort le_pair pairs));
    }

    absent : k ≡ key → lookup items key ≡ none
    absent e = lookup-none_of items key (subst (λ j. ¬ In j (keys items)) e d.0)

gathered_arrays :
    (g : BTree) (key : OrderedKey)
    → Distinct (keys g.pending)
    → g.values ≡ []
    → g.owners ≡ []
    → (get_or (arrange g.pending g).values key []
        ≡ map (λ (e : Entry). e.0) (sort le_pair (pending_at g key)))
      × (get_or (arrange g.pending g).owners key []
          ≡ map (λ (e : Entry). e.1) (sort le_pair (pending_at g key)))
unfolding pending_at lookup sort
gathered_arrays g key d e f = elim (Option-cases (lookup g.pending key)) [
  | inl n ↦
      let (v, w) = arrange_lem key g.pending g d in
      let none_pending : pending_at g key ≡ [] = ground arith in
      (rw (v, n, e, none_pending) refl, rw (w, n, f, none_pending) refl)
  | inr (pairs, n) ↦
      let (v, w) = arrange_lem key g.pending g d in
      let all_pending : pending_at g key ≡ pairs = ground arith in
      (rw (v, n, all_pending) refl, rw (w, n, all_pending) refl)
]

le_pair_total : (x y : Entry) → le_pair x y ≡ false → le_pair y x ≡ true
le_pair_total (a, i) (b, j) h = ground (arith, text_total a b)

le_pair_trans : (x y z : Entry) → le_pair x y ≡ true → le_pair y z ≡ true → le_pair x z ≡ true
le_pair_trans (a, i) (b, j) (c, k) h g =
    ground (arith, text_trans a b c, text_trans c a b, text_trans b c a)

values-IsSorted :
    (es : List Entry) → IsSorted le_pair es → IsSorted le_text (map (λ (e : Entry). e.0) es)
values-IsSorted [] s = tt
values-IsSorted (e ∷ es) s = (
  All-of (λ v. le_text e.0 v ≡ true) (map (λ (x : Entry). x.0) es)
      λ v m.
        let (x, n, q) = In-map_inv (λ (x : Entry). x.0) v es m in
        subst (λ w. le_text e.0 w ≡ true) q
          (first e x (All-In (λ y. le_pair e y ≡ true) x es s.0 n)),
  values-IsSorted es s.1,
)
  where
    first : (x y : Entry) → le_pair x y ≡ true → le_text x.0 y.0 ≡ true
    first x y h = ground arith

module _ {W : Type 0} (t : OrdinalTable) (ps : List (Projection W)) where
  -- A block of the list has the value under the key, and stands under the ordinal.
  abbrev pub HasEntry : OrderedKey → Text → ℕ → Type 0
  HasEntry key v o =
      (p : Projection W) × In p ps
      × (Ordinals.ordinal t p.block_id ≡ some o)
      × ((value : KeyValue) × In (key, value) p.keys × (encode value ≡ v))

  Ranked-of :
      (key : OrderedKey) (x : Entry) (value : KeyValue) (items : Dict OrderedKey KeyValue)
      → In (key, value) items
      → encode value ≡ x.0
      → Ranked key x x.1 items
  Ranked-of key x value [] m e = absurd m
  Ranked-of key x value ((k, w) ∷ items) (inl f) e = inl (
    ap (λ (y : OrderedKey × KeyValue). y.0) (sym f),
    ground (arith, ap (λ (y : OrderedKey × KeyValue). y.1) f),
  )
  Ranked-of key x value ((k, w) ∷ items) (inr m) e = inr (Ranked-of key x value items m e)

  Ranked-from :
      (key : OrderedKey) (x : Entry) (n : ℕ) (items : Dict OrderedKey KeyValue)
      → Ranked key x n items
      → (value : KeyValue) × In (key, value) items × (encode value ≡ x.0)
  Ranked-from key x n [] r = absurd r
  Ranked-from key x n ((k, w) ∷ items) (inl r) =
      (w, inl (ap (λ (j : OrderedKey). (j, w)) (sym r.0)), ap (λ (y : Entry). y.0) (sym r.1))
  Ranked-from key x n ((k, w) ∷ items) (inr r) =
      let (value, m, e) = Ranked-from key x n items r in (value, inr m, e)

  Gathered-of :
      (key : OrderedKey) (x : Entry) (p : Projection W) (qs : List (Projection W))
      → In p qs
      → Ordinals.ordinal t p.block_id ≡ some x.1
      → Ranked key x x.1 p.keys
      → Gathered t key x qs
  Gathered-of key x p [] m e r = absurd m
  Gathered-of key x p (q ∷ qs) (inl f) e r =
      inl
        (subst (λ s. (Ordinals.ordinal t s.block_id ≡ some x.1) × Ranked key x x.1 s.keys) f (e, r))
  Gathered-of key x p (q ∷ qs) (inr m) e r = inr (Gathered-of key x p qs m e r)

  Gathered-from :
      (key : OrderedKey) (x : Entry) (qs : List (Projection W))
      → Gathered t key x qs
      → (p : Projection W) × In p qs
        × (Ordinals.ordinal t p.block_id ≡ some x.1)
        × ((value : KeyValue) × In (key, value) p.keys × (encode value ≡ x.0))
  Gathered-from key x [] g = absurd g
  Gathered-from key x (q ∷ qs) (inl g) = (q, inl refl, g.0, Ranked-from key x x.1 q.keys g.1)
  Gathered-from key x (q ∷ qs) (inr g) =
      let (p, m, e, h) = Gathered-from key x qs g in (p, inr m, e, h)

  -- After a build the two arrays of a key come from one list of entries, in order, which holds
  -- exactly the values of the blocks.
  pub built_arrays :
      (key : OrderedKey)
      → (es : List Entry) × (get_or (rebuild btree t ps).values key []
          ≡ map (λ (e : Entry). e.0) es)
        × (get_or (rebuild btree t ps).owners key [] ≡ map (λ (e : Entry). e.1) es)
        × IsSorted le_text (map (λ (e : Entry). e.0) es)
        × ((v : Text) (o : ℕ) → In (v, o) es ↔ HasEntry key v o)
  unfolding rebuild finish pending_at reset lookup
  built_arrays key = (
    sort le_pair (pending_at gathered key),
    arrays.0,
    arrays.1,
    values-IsSorted (sort le_pair (pending_at gathered key))
        (IsSorted-sort le_pair le_pair_total le_pair_trans (pending_at gathered key)),
    λ v o. (
      λ m.
          Gathered-from key (v, o) ps
            (gathered_in (v, o) ((In-sort le_pair (v, o) (pending_at gathered key)).0 m)),
      λ (p, m, e, (value, n, f)). (In-sort le_pair (v, o) (pending_at gathered key)).1 (
          (In-applies t key (v, o) ps reset).1
            (inr (Gathered-of key (v, o) p ps m e (Ranked-of key (v, o) value p.keys n f)))),
    ),
  )
    where
      gathered : BTree
      gathered = foldl (λ s p. apply t p s) reset ps

      gathered_in : (x : Entry) → In x (pending_at gathered key) → Gathered t key x ps
      gathered_in x m = elim ((In-applies t key x ps reset).0 m) [
        | inl n ↦ absurd (unfold pending_at reset lookup in n)
        | inr g ↦ g
      ]

      distinct : Distinct (keys gathered.pending)
      distinct = applies-Distinct t ps reset tt

      arrays :
          (get_or (arrange gathered.pending gathered).values key []
            ≡ map (λ (e : Entry). e.0) (sort le_pair (pending_at gathered key)))
          × (get_or (arrange gathered.pending gathered).owners key []
              ≡ map (λ (e : Entry). e.1) (sort le_pair (pending_at gathered key)))
      arrays =
          gathered_arrays gathered key distinct (applies-arrays t ps reset).0
            (applies-arrays t ps reset).1
