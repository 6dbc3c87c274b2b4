-- ===== src/Indices/HashMap/Coverage.antt =====
-- hash_map.py: the counts that the index keeps and reports.
use vitruvio.Prelude.{
  ℕ, ◌+◌, if◌then◌else◌, List, [], ◌∷◌, some, map, foldl, Text, text_eq, lookup, get_or, keys,
  get_or-insert, lookup-none_of, In, Distinct, All, ◌≡◌, ◌∙◌, refl, subst, arith, ite, Dict, nat_eq,
  All-of, In-map_of,
}
use vitruvio.Indices.Projection.{IdentityKey, identity_key_eq, Projection}
use vitruvio.Indices.Ordinals
use vitruvio.Indices.Ordinals.{OrdinalTable}
use vitruvio.Indices.Ordinals.Laws.{ordinal-lt-size}
use vitruvio.Indices.Base.{rebuild}
use vitruvio.Indices.HashMap.{
  HashMap, record_key, record_size, has_value, apply, coverage, hash_map, reset, every_key,
}

-- 1 for a block that has a value under the key, 0 for one that has none
abbrev carries : IdentityKey → Dict IdentityKey (List Text) → ℕ
carries key items = if has_value (get_or items key []) then 1 else 0

coverage-record_key :
    (n : ℕ) (key k : IdentityKey) (vs : List Text) (h : HashMap)
    → coverage (record_key n (k, vs) h) key
      ≡ coverage h key + (ite (identity_key_eq.dec k key) (if has_value vs then 1 else 0) 0)
unfolding coverage record_key
coverage-record_key n key k vs h =
    ground (arith, get_or-insert h.keyed k key (get_or h.keyed k 0 + 1) 0)

absent-carries :
    (key : IdentityKey) (items : Dict IdentityKey (List Text))
    → ¬ In key (keys items)
    → carries key items ≡ 0
absent-carries key items h = ground (arith, lookup-none_of items key h)

coverage-record_keys :
    (n : ℕ) (key : IdentityKey) (items : Dict IdentityKey (List Text)) (h : HashMap)
    → Distinct (keys items)
    → coverage (foldl (λ s item. record_key n item s) h items) key
      ≡ coverage h key + carries key items
unfolding lookup
coverage-record_keys n key [] h d = omega arith
coverage-record_keys n key ((k, vs) ∷ items) h d = ground (
  arith,
  coverage-record_keys n key items (record_key n (k, vs) h) d.1,
  coverage-record_key n key k vs h,
  absent,
)
  where
    absent : k ≡ key → carries key items ≡ 0
    absent e = absent-carries key items (subst (λ j. ¬ In j (keys items)) e d.0)

coverage-record_size :
    (size : ℕ) (h : HashMap) (key : IdentityKey)
    → coverage (record_size size h) key ≡ coverage h key
unfolding coverage record_size
coverage-record_size size h key = ground arith

module _ {W : Type 0} where
  -- How many blocks have a value that is not empty under the key.
  abbrev pub carrying : IdentityKey → List (Projection W) → ℕ
  carrying key [] = 0
  carrying key (p ∷ ps) = carries key p.identities + carrying key ps

  module _ (t : OrdinalTable) where
    coverage-applies :
        (key : IdentityKey) (ps : List (Projection W)) (h : HashMap)
        → All (λ p. Distinct (keys p.identities)) ps
        → All (λ p. (i : ℕ) × (Ordinals.ordinal t p.block_id ≡ some i)) ps
        → coverage (foldl (λ s p. apply t p s) h ps) key ≡ coverage h key + carrying key ps
    unfolding apply
    coverage-applies key [] h d held = omega arith
    coverage-applies key (p ∷ ps) h d held =
        let (i, e) = held.0 in
        omega (arith, coverage-applies key ps (apply t p h) d.1 held.1, step i e)
      where
        step :
            (i : ℕ)
            → Ordinals.ordinal t p.block_id ≡ some i
            → coverage (apply t p h) key ≡ coverage h key + carries key p.identities
        step i e =
            rw (e, apply)
              (coverage-record_size p.size (foldl (λ s item. record_key i item s) h p.identities)
                  key
                ∙ coverage-record_keys i key p.identities h d.0)

zero_counts :
    (ks : List IdentityKey) (key : IdentityKey) → get_or {V = ℕ} (map (λ k. (k, 0)) ks) key 0 ≡ 0
unfolding lookup
zero_counts [] key = refl
zero_counts (k ∷ ks) key = ground (arith, zero_counts ks key)

coverage-reset : (key : IdentityKey) → coverage reset key ≡ 0
unfolding coverage reset
coverage-reset key = zero_counts every_key key

module _ {W : Type 0} (ps : List (Projection W)) where
  abbrev pub block_ids : List Text
  block_ids = map (λ p. p.block_id) ps

  pub every_held :
      All (λ p. (i : ℕ) × (Ordinals.ordinal (Ordinals.init block_ids) p.block_id ≡ some i)) ps
  every_held =
      All-of (λ p. (i : ℕ) × (Ordinals.ordinal (Ordinals.init block_ids) p.block_id ≡ some i)) ps
        λ p m.
          let (i, e, _) =
            (ordinal-lt-size block_ids p.block_id).0 (In-map_of (λ q. q.block_id) p ps m) in
          (i, e)

  -- If no block has a key twice among its identities, `coverage` is the number of blocks that have
  -- some value, not an empty one, under the key.
  pub coverage_exact :
      (key : IdentityKey)
      → All (λ p. Distinct (keys p.identities)) ps
      → coverage (rebuild hash_map (Ordinals.init (map (λ p. p.block_id) ps)) ps) key
        ≡ carrying key ps
  unfolding rebuild
  coverage_exact key d = omega (
    arith,
    coverage-applies (Ordinals.init block_ids) key ps reset d every_held,
    coverage-reset key,
  )
