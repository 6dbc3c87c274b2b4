-- ===== src/Indices/Projection.antt =====
-- projection.py: what the indices take from one block, and the keys under which they take it.
use vitruvio.Prelude.{ℕ, List, Option, Eq, Dict, Text}

pub data IdentityKey : Type 0 where
  blob normalized_view label alias record_subject origin : IdentityKey

unfoldable pub IdentityKey-discrete : Discrete IdentityKey
IdentityKey-discrete = hlevel

instance abbrev pub identity_key_eq : Eq IdentityKey
identity_key_eq = record { dec = IdentityKey-discrete }

pub data Facet : Type 0 where
  memory_type subject tag semantic_kind media_type record_type has_normalized_view : Facet
  has_evidence participant predicate : Facet

unfoldable pub Facet-discrete : Discrete Facet
Facet-discrete = hlevel

instance abbrev pub facet_eq : Eq Facet
facet_eq = record { dec = Facet-discrete }

pub data OrderedKey : Type 0 where
  occurred_at ended_at subject label media_type size recorded_at : OrderedKey

unfoldable pub OrderedKey-discrete : Discrete OrderedKey
OrderedKey-discrete = hlevel

instance abbrev pub ordered_key_eq : Eq OrderedKey
ordered_key_eq = record { dec = OrderedKey-discrete }

pub data EdgeKind : Type 0 where
  relation evidence uses derived_from supersedes : EdgeKind

unfoldable pub EdgeKind-discrete : Discrete EdgeKind
EdgeKind-discrete = hlevel

instance abbrev pub edge_kind_eq : Eq EdgeKind
edge_kind_eq = record { dec = EdgeKind-discrete }

-- An ordered key's value: `str | int`.
pub data KeyValue : Type 0 where
  string : Text → KeyValue
  int : ℕ → KeyValue

-- A weight is any number type; the graph says which.
pub record Edge (W : Type 0) : Type 0 where
  pub kind : EdgeKind
  pub target : Text
  pub predicate : Option Text
  pub weight : W

-- The fields that the modelled indices read.
pub record Projection (W : Type 0) : Type 0 where
  pub block_id : Text
  pub facets : Dict Facet (List Text)
  pub keys : Dict OrderedKey KeyValue
  pub identities : Dict IdentityKey (List Text)
  pub edges : List (Edge W)
  pub size : ℕ
