-- ===== src/Indices/HashMap/Postings.antt =====
-- hash_map.py: what stands in the tables after a build.
use vitruvio.Prelude.{
  ℕ, List, [], ◌∷◌, ◌++◌, some, false, map, foldl, is_nil, Text, text_eq, nat_eq, lookup, get_or,
  update, get_or-insert, In-append, In, ◌≡◌, ◌↔◌, ◌⊎◌, inl, inr, refl, subst, arith, Option-cases,
  Bool-cases, Dict,
}
use vitruvio.Indices.Projection.{IdentityKey, identity_key_eq, Projection}
use vitruvio.Indices.Ordinals
use vitruvio.Indices.Ordinals.{OrdinalTable}
use vitruvio.Indices.HashMap.{
  Table, every_key, HashMap, record_values, record_key, record_size, apply, postings, reset,
}

In-record_values :
    (o n : ℕ) (v : Text) (vs : List Text) (t : Table)
    → In o (get_or (record_values n vs t) v [])
      ↔ (In o (get_or t v []) ⊎ ((o ≡ n) × (is_nil v ≡ false) × In v vs))
unfolding record_values
In-record_values o n v [] t = ground arith
In-record_values o n v (w ∷ vs) t = elim (Bool-cases (is_nil w)) [
  | inl e ↦ rw e (ground (arith, In-record_values o n v vs t))
  | inr e ↦ rw e (
      ground (
        arith,
        In-record_values o n v vs (update t w [] (λ held. held ++ n ∷ [])),
        get_or-insert t w v (get_or t w [] ++ n ∷ []) [],
        In-append o (get_or t w []) (n ∷ []),
      ))
]

-- Some item of the key lists the value.
abbrev pub Listed : IdentityKey → Text → Dict IdentityKey (List Text) → Type 0
Listed key v [] = ⊥
Listed key v ((k, vs) ∷ items) = ((k ≡ key) × In v vs) ⊎ Listed key v items

In-record_key :
    (o n : ℕ) (key k : IdentityKey) (v : Text) (vs : List Text) (h : HashMap)
    → In o (postings (record_key n (k, vs) h) key v)
      ↔ (In o (postings h key v) ⊎ ((o ≡ n) × (is_nil v ≡ false) × (k ≡ key) × In v vs))
unfolding postings record_key
In-record_key o n key k v vs h = ground (
  arith,
  get_or-insert h.tables k key (record_values n vs (get_or h.tables k [])) [],
  In-record_values o n v vs (get_or h.tables k []),
)

In-record_keys :
    (o n : ℕ) (key : IdentityKey) (v : Text) (items : Dict IdentityKey (List Text)) (h : HashMap)
    → In o (postings (foldl (λ s item. record_key n item s) h items) key v)
      ↔ (In o (postings h key v) ⊎ ((o ≡ n) × (is_nil v ≡ false) × Listed key v items))
In-record_keys o n key v [] h = ground arith
In-record_keys o n key v ((k, vs) ∷ items) h =
    ground (
      arith,
      In-record_keys o n key v items (record_key n (k, vs) h),
      In-record_key o n key k v vs h,
    )

pub postings-record_size :
    (size : ℕ) (h : HashMap) (key : IdentityKey) (v : Text)
    → postings (record_size size h) key v ≡ postings h key v
unfolding postings record_size
postings-record_size size h key v = ground arith

module _ {W : Type 0} (t : OrdinalTable) where
  In-apply :
      (o : ℕ) (key : IdentityKey) (v : Text) (p : Projection W) (h : HashMap)
      → In o (postings (apply t p h) key v) ↔ (
          In o (postings h key v)
          ⊎ ((Ordinals.ordinal t p.block_id ≡ some o)
              × (is_nil v ≡ false)
              × Listed key v p.identities))
  unfolding apply
  In-apply o key v p h = elim (Option-cases (Ordinals.ordinal t p.block_id)) [
    | inl e ↦ rw (e, apply) (ground arith)
    | inr (n, e) ↦
        rw (e, apply)
          (ground (
            arith,
            postings-record_size p.size (foldl (λ s item. record_key n item s) h p.identities) key
                v,
            In-record_keys o n key v p.identities h,
          ))
  ]

  -- Some block of the list stands under the ordinal and lists the value.
  abbrev pub Posted : ℕ → IdentityKey → Text → List (Projection W) → Type 0
  Posted o key v [] = ⊥
  Posted o key v (p ∷ ps) =
      ((Ordinals.ordinal t p.block_id ≡ some o) × Listed key v p.identities) ⊎ Posted o key v ps

  pub In-applies :
      (o : ℕ) (key : IdentityKey) (v : Text) (ps : List (Projection W)) (h : HashMap)
      → In o (postings (foldl (λ s p. apply t p s) h ps) key v)
        ↔ (In o (postings h key v) ⊎ ((is_nil v ≡ false) × Posted o key v ps))
  In-applies o key v [] h = ground arith
  In-applies o key v (p ∷ ps) h =
      ground (arith, In-applies o key v ps (apply t p h), In-apply o key v p h)

  pub Posted-from :
      (o : ℕ) (key : IdentityKey) (v : Text) (ps : List (Projection W))
      → Posted o key v ps
      → (p : Projection W) × In p ps
        × (Ordinals.ordinal t p.block_id ≡ some o)
        × Listed key v p.identities
  Posted-from o key v [] m = absurd m
  Posted-from o key v (p ∷ ps) (inl c) = (p, inl refl, c.0, c.1)
  Posted-from o key v (p ∷ ps) (inr c) =
      let (q, m, e, l) = Posted-from o key v ps c in (q, inr m, e, l)

  pub Posted-of :
      (o : ℕ) (key : IdentityKey) (v : Text) (p : Projection W) (ps : List (Projection W))
      → In p ps
      → Ordinals.ordinal t p.block_id ≡ some o
      → Listed key v p.identities
      → Posted o key v ps
  Posted-of o key v p [] m e l = absurd m
  Posted-of o key v p (q ∷ ps) (inl f) e l =
      inl
        (subst (λ r. (Ordinals.ordinal t r.block_id ≡ some o) × Listed key v r.identities) f (e, l))
  Posted-of o key v p (q ∷ ps) (inr m) e l = inr (Posted-of o key v p ps m e l)

blank :
    (keys : List IdentityKey) (key : IdentityKey)
    → get_or {V = Table} (map (λ k. (k, [])) keys) key [] ≡ []
unfolding lookup
blank [] key = refl
blank (k ∷ keys) key = ground (arith, blank keys key)

pub postings-reset : (key : IdentityKey) (v : Text) → postings reset key v ≡ []
unfolding postings reset lookup
postings-reset key v = rw (blank every_key key)
