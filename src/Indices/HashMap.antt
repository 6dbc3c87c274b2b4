-- ===== src/Indices/HashMap.antt =====
-- hash_map.py, `HashMapIndex`: exact lookup by identity-shaped keys.
mod Postings
pub mod Lookup
pub mod Coverage
pub mod Duplicates
use vitruvio.Prelude.{
  ℕ, zero, suc, ◌+◌, ltb, ◌==◌, if◌then◌else◌, List, [], ◌∷◌, ◌++◌, Option, none, some, Bool, true,
  false, ◌||◌, not, map, foldl, length, is_nil, filterb, filter_some, sort, leb, Text, text_eq,
  nat_eq, Dict, lookup, insert, get_or, update, set_of, union, Ord, String, text, take,
}
use vitruvio.Indices.Projection.{
  IdentityKey, blob, normalized_view, label, alias, record_subject, origin, identity_key_eq,
  Projection,
}
use vitruvio.Indices.Ordinals
use vitruvio.Indices.Ordinals.{OrdinalTable}
use vitruvio.Indices.Queries.{IdQuery, Results, Hit}
use vitruvio.Indices.Base.{Kind, results}

abbrev pub Table : Type 0
Table = Dict Text (List ℕ)

pub record HashMap : Type 0 where
  pub tables : Dict IdentityKey Table
  pub keyed : Dict IdentityKey ℕ
  pub total_bytes : ℕ
  pub sized : ℕ

-- the members of IdentityKey, in their order
abbrev pub every_key : List IdentityKey
every_key = blob ∷ normalized_view ∷ label ∷ alias ∷ record_subject ∷ origin ∷ []

-- `_reset`
unfoldable pub reset : HashMap
reset = record {
  tables = map (λ key. (key, [])) every_key;
  keyed = map (λ key. (key, 0)) every_key;
  total_bytes = 0;
  sized = 0;
}

-- the loop over one key's values: an empty value is passed over
unfoldable pub record_values : ℕ → List Text → Table → Table
record_values ordinal [] table = table
record_values ordinal (value ∷ rest) table =
    record_values ordinal rest
      (if is_nil value then table else update table value [] (λ held. held ++ ordinal ∷ []))

-- `keyed` after that loop: some value was not empty
abbrev pub has_value : List Text → Bool
has_value [] = false
has_value (value ∷ rest) = not (is_nil value) || has_value rest

-- one item of `projection.identities`
unfoldable pub record_key : ℕ → IdentityKey × List Text → HashMap → HashMap
unfolding record_values
record_key ordinal (key, values) h = record h {
  tables = insert h.tables key (record_values ordinal values (get_or h.tables key []));
  keyed = if has_value values then insert h.keyed key (get_or h.keyed key 0 + 1) else h.keyed;
}

unfoldable pub record_size : ℕ → HashMap → HashMap
record_size size h =
    if size == 0 then h else record h { total_bytes = h.total_bytes + size; sized = h.sized + 1 }

module _ {W : Type 0} where
  -- `_apply`
  unfoldable pub apply : OrdinalTable → Projection W → HashMap → HashMap
  unfolding record_key record_size
  apply table projection h = elim (Ordinals.ordinal table projection.block_id) [
    | none ↦ h
    | some ordinal ↦
        record_size projection.size
          (foldl (λ s item. record_key ordinal item s) h projection.identities)
  ]

  abbrev pub hash_map : Kind (Projection W) HashMap
  hash_map = record { block_id = λ p. p.block_id; reset = reset; apply = apply; finish = λ _ h. h }

-- the ordinals under a key and a value
unfoldable pub postings : HashMap → IdentityKey → Text → List ℕ
postings h key value = get_or (get_or h.tables key []) value []

unfoldable pub coverage : HashMap → IdentityKey → ℕ
coverage h key = get_or h.keyed key 0

-- `duplicates`
unfoldable pub duplicates : HashMap → IdentityKey → Dict Text ℕ
duplicates h key =
    filter_some (λ (e : Text × List ℕ). if ltb 1 (length e.1) then some (e.0, length e.1) else none)
      (get_or h.tables key [])

-- `fold` of projection.py rests on Unicode's tables.
module _ (fold : Text → Text) where
  -- the loop over the query's keys
  unfoldable pub key_ordinals : HashMap → List (IdentityKey × Text) → List ℕ → List ℕ
  unfolding postings
  key_ordinals h [] found = found
  key_ordinals h ((key, value) ∷ rest) found =
      key_ordinals h rest (union found (postings h key (fold value)))

  -- `lookup`: the ordinals found
  unfoldable pub found : OrdinalTable → HashMap → IdQuery → List ℕ
  unfolding key_ordinals
  found table h query =
      key_ordinals h query.keys (set_of (filter_some (Ordinals.ordinal table) query.identities))

  module _ {S : Type 0} (o : Ord S) (exact_score : S) where
    unfoldable pub lookup_ids : OrdinalTable → HashMap → IdQuery → Results S
    unfolding found
    lookup_ids table h query =
        results o table (map (λ ordinal. (ordinal, exact_score)) (found table h query)) 0 true

    -- `search` with a query object
    unfoldable pub search : OrdinalTable → HashMap → IdQuery → ℕ → List (Hit S)
    unfolding lookup_ids
    search table h query limit =
        let hits = (lookup_ids table h query).hits in if ltb 0 limit then take limit hits else hits
