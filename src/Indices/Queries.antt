-- ===== src/Indices/Queries.antt =====
-- queries.py: what an index is asked, what it answers, and the difference between two block sets.
pub mod Delta
use vitruvio.Prelude.{
  ℕ, ◌+◌, ◌*◌, ltb, ◌==◌, List, [], Option, Bool, true, false, ◌&&◌, not, length, is_nil, Text,
  le_text, sort, set_of, inter, diff, text_eq, dec_lt,
}
use vitruvio.Indices.Projection.{IdentityKey, Facet, OrderedKey, EdgeKind, KeyValue}

pub data Order : Type 0 where
  ascending descending : Order

pub data Combine : Type 0 where
  any all : Combine

pub record IdQuery : Type 0 where
  pub identities : List Text
  pub keys : List (IdentityKey × Text)

pub record RangeQuery : Type 0 where
  pub key : OrderedKey
  pub low : Option KeyValue
  pub high : Option KeyValue
  pub prefix : Option Text
  pub order : Order
  pub allow : Option (List ℕ)

pub record FacetClause : Type 0 where
  pub facet : Facet
  pub values : List Text
  pub combine : Combine
  pub negate : Bool

pub record FacetQuery : Type 0 where
  pub clauses : List FacetClause
  pub allow : Option (List ℕ)

pub record TraversalQuery (S : Type 0) : Type 0 where
  pub seeds : List Text
  pub depth : ℕ
  pub kinds : List EdgeKind
  pub predicates : List Text
  pub inbound : Bool
  pub decay : S
  pub max_nodes : ℕ

pub record Hit (S : Type 0) : Type 0 where
  pub block_id : Text
  pub score : S

pub record Results (S : Type 0) : Type 0 where
  pub hits : List (Hit S)
  pub exhausted : Bool

pub record BuildDelta : Type 0 where
  pub added : List Text
  pub removed : List Text
  pub unchanged : ℕ

unfoldable pub is_noop : BuildDelta → Bool
is_noop d = is_nil d.added && is_nil d.removed

-- `len(removed) > held / 2`, without the division
unfoldable pub rebuilds_everything : BuildDelta → Bool
rebuilds_everything d =
    not (is_nil d.removed) && ltb (d.unchanged + length d.removed) (2 * length d.removed)

-- BuildDelta.between
unfoldable pub between : List Text → List Text → BuildDelta
between held incoming =
    let held_set = set_of held in
    let incoming_set = set_of incoming in
    record {
      added = sort le_text (diff incoming_set held_set);
      removed = sort le_text (diff held_set incoming_set);
      unchanged = length (inter held_set incoming_set);
    }

pub data State : Type 0 where
  ready empty stale model_mismatch absent : State

pub record Capability : Type 0 where
  pub state : State
  pub population : ℕ

unfoldable pub usable : Capability → Bool
usable c = elim c.state [ State.ready ↦ ltb 0 c.population | _ ↦ false ]
