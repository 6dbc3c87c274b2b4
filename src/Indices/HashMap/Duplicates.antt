-- ===== src/Indices/HashMap/Duplicates.antt =====
-- hash_map.py, `duplicates`: it counts postings, so a block that lists a value twice counts twice.
use vitruvio.Prelude.{
  ℕ, ◌+◌, ◌<◌, ltb, if◌then◌else◌, List, [], ◌∷◌, ◌++◌, Option, none, some, map, foldl, is_nil,
  filter_some, length, length-append, Text, text_eq, text_discrete, lookup, get_or, update, keys,
  get_or-insert, Distinct-insert, lookup-some-In, In-lookup, In, Distinct, All, ◌≡◌, ◌↔◌, ◌∙◌, inl,
  inr, refl, sym, ap, subst, arith, Option-cases, Bool-cases, ite, if_pos, if_neg, Dict,
  In-filter_some_of, In-filter_some_inv, nat_eq,
}
use vitruvio.Indices.Projection.{IdentityKey, identity_key_eq, Projection}
use vitruvio.Indices.Ordinals
use vitruvio.Indices.Ordinals.{OrdinalTable}
use vitruvio.Indices.Base.{rebuild}
use vitruvio.Indices.HashMap.{
  Table, HashMap, record_values, record_key, record_size, apply, postings, duplicates, hash_map,
  reset, every_key,
}
use vitruvio.Indices.HashMap.Postings.{postings-record_size, postings-reset}
use vitruvio.Indices.HashMap.Coverage.{every_held, block_ids}

-- How often a value stands in a list; the empty value is never recorded.
abbrev pub count : Text → List Text → ℕ
count v [] = 0
count v (w ∷ vs) = (if is_nil w then 0 else ite (text_discrete w v) 1 0) + count v vs

-- How often a block's items list the value under the key.
abbrev pub listed : IdentityKey → Text → Dict IdentityKey (List Text) → ℕ
listed key v [] = 0
listed key v ((k, vs) ∷ items) = ite (identity_key_eq.dec k key) (count v vs) 0 + listed key v items

abbrev pub occurrences : {W : Type 0} → IdentityKey → Text → List (Projection W) → ℕ
occurrences key v [] = 0
occurrences key v (p ∷ ps) = listed key v p.identities + occurrences key v ps

length-record_values :
    (n : ℕ) (v : Text) (vs : List Text) (t : Table)
    → length (get_or (record_values n vs t) v []) ≡ length (get_or t v []) + count v vs
unfolding record_values
length-record_values n v [] t = omega arith
length-record_values n v (w ∷ vs) t = elim (Bool-cases (is_nil w)) [
  | inl e ↦ rw e (ground (arith, length-record_values n v vs t))
  | inr e ↦ rw e (
      ground (
        arith,
        length-record_values n v vs (update t w [] (λ held. held ++ n ∷ [])),
        get_or-insert t w v (get_or t w [] ++ n ∷ []) [],
        length-append (get_or t w []) (n ∷ []),
      ))
]

length-record_key :
    (n : ℕ) (key k : IdentityKey) (v : Text) (vs : List Text) (h : HashMap)
    → length (postings (record_key n (k, vs) h) key v)
      ≡ length (postings h key v) + ite (identity_key_eq.dec k key) (count v vs) 0
unfolding postings record_key
length-record_key n key k v vs h = ground (
  arith,
  get_or-insert h.tables k key (record_values n vs (get_or h.tables k [])) [],
  length-record_values n v vs (get_or h.tables k []),
)

length-record_keys :
    (n : ℕ) (key : IdentityKey) (v : Text) (items : Dict IdentityKey (List Text)) (h : HashMap)
    → length (postings (foldl (λ s item. record_key n item s) h items) key v)
      ≡ length (postings h key v) + listed key v items
length-record_keys n key v [] h = omega arith
length-record_keys n key v ((k, vs) ∷ items) h = omega (
  arith,
  length-record_keys n key v items (record_key n (k, vs) h),
  length-record_key n key k v vs h,
)

-- The values of one table are each there once.
abbrev HasDistinct : IdentityKey → HashMap → Type 0
HasDistinct key h = Distinct (keys (get_or h.tables key []))

record_values-Distinct :
    (n : ℕ) (vs : List Text) (t : Table)
    → Distinct (keys t)
    → Distinct (keys (record_values n vs t))
unfolding record_values
record_values-Distinct n [] t d = d
record_values-Distinct n (w ∷ vs) t d = elim (Bool-cases (is_nil w)) [
  | inl e ↦ rw e (record_values-Distinct n vs t d)
  | inr e ↦ rw e (record_values-Distinct n vs _ (Distinct-insert t w _ d))
]

record_key-Distinct :
    (n : ℕ) (key k : IdentityKey) (vs : List Text) (h : HashMap)
    → HasDistinct key h
    → HasDistinct key (record_key n (k, vs) h)
unfolding record_key
record_key-Distinct n key k vs h d =
    rw (get_or-insert h.tables k key (record_values n vs (get_or h.tables k [])) [])
      (elim (identity_key_eq.dec k key) [
        | yes p ↦ rw (if_pos _ p) (
            record_values-Distinct n vs (get_or h.tables k [])
              (subst (λ j. Distinct (keys (get_or h.tables j []))) (sym p) d))
        | no p ↦ rw (if_neg _ p) d
      ])

record_keys-Distinct :
    (n : ℕ) (key : IdentityKey) (items : Dict IdentityKey (List Text)) (h : HashMap)
    → HasDistinct key h
    → HasDistinct key (foldl (λ s item. record_key n item s) h items)
record_keys-Distinct n key [] h d = d
record_keys-Distinct n key ((k, vs) ∷ items) h d =
    record_keys-Distinct n key items (record_key n (k, vs) h) (record_key-Distinct n key k vs h d)

record_size-Distinct :
    (size : ℕ) (key : IdentityKey) (h : HashMap)
    → HasDistinct key h
    → HasDistinct key (record_size size h)
unfolding record_size
record_size-Distinct size key h d = ground arith

module _ {W : Type 0} (t : OrdinalTable) where
  applies-Distinct :
      (key : IdentityKey) (ps : List (Projection W)) (h : HashMap)
      → HasDistinct key h
      → HasDistinct key (foldl (λ s p. apply t p s) h ps)
  unfolding apply
  applies-Distinct key [] h d = d
  applies-Distinct key (p ∷ ps) h d = applies-Distinct key ps (apply t p h) step
    where
      step : HasDistinct key (apply t p h)
      step = elim (Option-cases (Ordinals.ordinal t p.block_id)) [
        | inl e ↦ rw (e, apply) d
        | inr (n, e) ↦
            rw (e, apply)
              (record_size-Distinct p.size key _ (record_keys-Distinct n key p.identities h d))
      ]

  length-applies :
      (key : IdentityKey) (v : Text) (ps : List (Projection W)) (h : HashMap)
      → All (λ p. (i : ℕ) × (Ordinals.ordinal t p.block_id ≡ some i)) ps
      → length (postings (foldl (λ s p. apply t p s) h ps) key v)
        ≡ length (postings h key v) + occurrences key v ps
  unfolding apply postings
  length-applies key v [] h held = omega arith
  length-applies key v (p ∷ ps) h held =
      let (i, e) = held.0 in omega (arith, length-applies key v ps (apply t p h) held.1, step i e)
    where
      step :
          (i : ℕ)
          → Ordinals.ordinal t p.block_id ≡ some i
          → length (postings (apply t p h) key v)
            ≡ length (postings h key v) + listed key v p.identities
      step i e =
          rw (e, apply)
            (ap length (
                postings-record_size p.size (foldl (λ s item. record_key i item s) h p.identities)
                  key v)
              ∙ length-record_keys i key v p.identities h)

empty_tables :
    (ks : List IdentityKey) (key : IdentityKey)
    → get_or {V = Table} (map (λ k. (k, [])) ks) key [] ≡ []
unfolding lookup
empty_tables [] key = refl
empty_tables (k ∷ ks) key = ground (arith, empty_tables ks key)

reset-Distinct : (key : IdentityKey) → HasDistinct key reset
unfolding reset
reset-Distinct key = subst (λ (t : Table). Distinct (keys t)) (sym (empty_tables every_key key)) tt

repeated : Text × List ℕ → Option (Text × ℕ)
repeated e = if ltb 1 (length e.1) then some (e.0, length e.1) else none

repeated_inv :
    (w v : Text) (os : List ℕ) (n : ℕ)
    → repeated (w, os) ≡ some (v, n)
    → (w ≡ v) × (n ≡ length os) × (1 < n)
unfolding repeated
repeated_inv w v os n h = ground arith

In-repeated :
    (t : Table) (v : Text) (n : ℕ)
    → Distinct (keys t)
    → In (v, n) (filter_some repeated t) ↔ ((n ≡ length (get_or t v [])) × (1 < n))
In-repeated t v n d = (back, forth)
  where
    back : In (v, n) (filter_some repeated t) → (n ≡ length (get_or t v [])) × (1 < n)
    back m =
        let (e, k, h) = In-filter_some_inv repeated (v, n) t m in
        let (same, count, more) = repeated_inv e.0 v e.1 n h in
        (ground (arith, In-lookup t e.0 e.1 d k), more)

    forth : (n ≡ length (get_or t v [])) × (1 < n) → In (v, n) (filter_some repeated t)
    forth h = elim (Option-cases (lookup t v)) [
      | inl e ↦ absurd (ground arith)
      | inr (os, e) ↦
          In-filter_some_of repeated (v, n) (v, os) t (lookup-some-In t v os e)
            (unfold repeated in ground arith)
    ]

module _ {W : Type 0} (ps : List (Projection W)) where
  abbrev built : HashMap
  built = rebuild hash_map (Ordinals.init (block_ids ps)) ps

  length-postings :
      (key : IdentityKey) (v : Text) → length (postings built key v) ≡ occurrences key v ps
  unfolding rebuild
  length-postings key v = omega (
    arith,
    length-applies (Ordinals.init (block_ids ps)) key v ps reset (every_held ps),
    ap length (postings-reset key v),
  )

  built-Distinct : (key : IdentityKey) → HasDistinct key built
  unfolding rebuild
  built-Distinct key =
      applies-Distinct (Ordinals.init (block_ids ps)) key ps reset (reset-Distinct key)

  -- `duplicates` reports a value with a number exactly if the blocks list the value that often
  -- under the key, more than once: it counts each time a block lists it.
  pub duplicates_exact :
      (key : IdentityKey) (v : Text) (n : ℕ)
      → In (v, n) (duplicates (rebuild hash_map (Ordinals.init (map (λ p. p.block_id) ps)) ps) key)
        ↔ ((n ≡ occurrences key v ps) × (1 < n))
  unfolding duplicates repeated postings
  duplicates_exact key v n = ground (
    arith,
    In-repeated (get_or built.tables key []) v n (built-Distinct key),
    length-postings key v,
  )
