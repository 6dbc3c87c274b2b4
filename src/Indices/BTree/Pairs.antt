-- ===== src/Indices/BTree/Pairs.antt =====
-- btree.py, `_apply`: the entries that wait to be sorted after a pass over the blocks.
use vitruvio.Prelude.{
  ℕ, List, [], ◌∷◌, ◌++◌, some, foldl, Text, get_or, update, keys, get_or-insert, Distinct-insert,
  In, In-append, Distinct, ◌≡◌, ◌↔◌, ◌⊎◌, inl, inr, refl, sym, ap, subst, arith, Option-cases, Dict,
  ◌∙◌,
}
use vitruvio.Indices.Projection.{OrderedKey, ordered_key_eq, KeyValue, Projection}
use vitruvio.Indices.Ordinals
use vitruvio.Indices.Ordinals.{OrdinalTable}
use vitruvio.Indices.BTree.{BTree, encode, collect, apply}

abbrev pub Entry : Type 0
Entry = Text × ℕ

unfoldable pub pending_at : BTree → OrderedKey → List Entry
pending_at b key = get_or b.pending key []

-- Some item of the key has the value of the entry, and the entry is of this block.
abbrev pub Ranked : OrderedKey → Entry → ℕ → Dict OrderedKey KeyValue → Type 0
Ranked key x n [] = ⊥
Ranked key x n ((k, value) ∷ items) = ((k ≡ key) × (x ≡ (encode value, n))) ⊎ Ranked key x n items

In-collect :
    (key : OrderedKey) (x : Entry) (n : ℕ) (items : Dict OrderedKey KeyValue) (b : BTree)
    → In x (pending_at (collect n items b) key) ↔ (In x (pending_at b key) ⊎ Ranked key x n items)
unfolding collect pending_at
In-collect key x n [] b = ground arith
In-collect key x n ((k, value) ∷ items) b =
    let next = record b {
      pending = update b.pending k [] (λ held. held ++ (encode value, n) ∷ []);
    } in
    ground (
      arith,
      In-collect key x n items next,
      get_or-insert b.pending k key (get_or b.pending k [] ++ (encode value, n) ∷ []) [],
      In-append x (get_or b.pending k []) ((encode value, n) ∷ []),
    )

collect-Distinct :
    (n : ℕ) (items : Dict OrderedKey KeyValue) (b : BTree)
    → Distinct (keys b.pending)
    → Distinct (keys (collect n items b).pending)
unfolding collect
collect-Distinct n [] b d = d
collect-Distinct n ((k, value) ∷ items) b d =
    collect-Distinct n items _ (Distinct-insert b.pending k _ d)

collect-arrays :
    (n : ℕ) (items : Dict OrderedKey KeyValue) (b : BTree)
    → ((collect n items b).values ≡ b.values) × ((collect n items b).owners ≡ b.owners)
unfolding collect
collect-arrays n [] b = (refl, refl)
collect-arrays n ((k, value) ∷ items) b = collect-arrays n items _

Ranked-ordinal :
    (key : OrderedKey) (x : Entry) (n : ℕ) (items : Dict OrderedKey KeyValue)
    → Ranked key x n items
    → x.1 ≡ n
Ranked-ordinal key x n [] r = absurd r
Ranked-ordinal key x n ((k, value) ∷ items) (inl r) = ap (λ (y : Entry). y.1) r.1
Ranked-ordinal key x n ((k, value) ∷ items) (inr r) = Ranked-ordinal key x n items r

module _ {W : Type 0} (t : OrdinalTable) where
  abbrev pub Gathered : OrderedKey → Entry → List (Projection W) → Type 0
  Gathered key x [] = ⊥
  Gathered key x (p ∷ ps) =
      ((Ordinals.ordinal t p.block_id ≡ some x.1) × Ranked key x x.1 p.keys) ⊎ Gathered key x ps

  In-apply :
      (key : OrderedKey) (x : Entry) (p : Projection W) (b : BTree)
      → In x (pending_at (apply t p b) key) ↔ (
          In x (pending_at b key)
          ⊎ ((Ordinals.ordinal t p.block_id ≡ some x.1) × Ranked key x x.1 p.keys))
  unfolding apply
  In-apply key x p b = elim (Option-cases (Ordinals.ordinal t p.block_id)) [
    | inl e ↦ rw (e, apply) (ground arith)
    | inr (n, e) ↦
        rw (e, apply)
          (
            λ m. elim ((In-collect key x n p.keys b).0 m) [
              | inl h ↦ inl h
              | inr r ↦
                  let q = Ranked-ordinal key x n p.keys r in
                  inr (ap some (sym q), subst (λ j. Ranked key x j p.keys) (sym q) r)
            ],
            λ m. elim m [
              | inl h ↦ (In-collect key x n p.keys b).1 (inl h)
              | inr (q, r) ↦
                  let f : x.1 ≡ n = ground arith in
                  (In-collect key x n p.keys b).1 (inr (subst (λ j. Ranked key x j p.keys) f r))
            ],
          )
  ]

  pub In-applies :
      (key : OrderedKey) (x : Entry) (ps : List (Projection W)) (b : BTree)
      → In x (pending_at (foldl (λ s p. apply t p s) b ps) key)
        ↔ (In x (pending_at b key) ⊎ Gathered key x ps)
  In-applies key x [] b = ground arith
  In-applies key x (p ∷ ps) b =
      ground (arith, In-applies key x ps (apply t p b), In-apply key x p b)

  pub applies-Distinct :
      (ps : List (Projection W)) (b : BTree)
      → Distinct (keys b.pending)
      → Distinct (keys (foldl (λ s p. apply t p s) b ps).pending)
  unfolding apply
  applies-Distinct [] b d = d
  applies-Distinct (p ∷ ps) b d = applies-Distinct ps (apply t p b) step
    where
      step : Distinct (keys (apply t p b).pending)
      step = elim (Option-cases (Ordinals.ordinal t p.block_id)) [
        | inl e ↦ rw (e, apply) d
        | inr (n, e) ↦ rw (e, apply) (collect-Distinct n p.keys b d)
      ]

  pub applies-arrays :
      (ps : List (Projection W)) (b : BTree)
      → ((foldl (λ s p. apply t p s) b ps).values ≡ b.values)
        × ((foldl (λ s p. apply t p s) b ps).owners ≡ b.owners)
  unfolding apply
  applies-arrays [] b = (refl, refl)
  applies-arrays (p ∷ ps) b =
      let rest = applies-arrays ps (apply t p b) in (rest.0 ∙ step.0, rest.1 ∙ step.1)
    where
      step : ((apply t p b).values ≡ b.values) × ((apply t p b).owners ≡ b.owners)
      step = elim (Option-cases (Ordinals.ordinal t p.block_id)) [
        | inl e ↦ rw (e, apply) (refl, refl)
        | inr (n, e) ↦ rw (e, apply) (collect-arrays n p.keys b)
      ]
