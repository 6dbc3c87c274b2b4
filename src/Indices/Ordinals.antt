-- ===== src/Indices/Ordinals.antt =====
-- base.py, `OrdinalTable`: block identities and the dense integers that stand for them.
pub mod Laws
use vitruvio.Prelude.{
  ℕ, zero, suc, ltb, leb, if◌then◌else◌, List, [], ◌∷◌, Option, none, some, length, get_elem?, Eq,
  Dict, lookup, enumerate, set_of, sort, Text, le_text, text_eq, nat_eq, filter_some, Bool, true,
  false,
}

pub record OrdinalTable : Type 0 where
  pub identities : List Text
  pub ordinals : Dict Text ℕ

-- OrdinalTable(identities)
unfoldable pub init : List Text → OrdinalTable
init identities =
    let held = sort le_text (set_of identities) in
    record { identities = held; ordinals = enumerate held }

abbrev pub size : OrdinalTable → ℕ
size t = length t.identities

unfoldable pub ordinal : OrdinalTable → Text → Option ℕ
ordinal t identity = lookup t.ordinals identity

-- identity in table
unfoldable pub holds : OrdinalTable → Text → Bool
unfolding ordinal
holds t identity = elim (ordinal t identity) [ none ↦ false | some _ ↦ true ]

unfoldable pub identity : OrdinalTable → ℕ → Option Text
identity t ordinal =
    if ltb ordinal (length t.identities) then get_elem? t.identities ordinal else none

-- frozenset of the ordinals of a set of identities
unfoldable pub ordinals : OrdinalTable → List Text → List ℕ
unfolding ordinal
ordinals t identities = set_of (filter_some (ordinal t) identities)

unfoldable pub resolve : OrdinalTable → List ℕ → List Text
unfolding identity
resolve t ordinals = filter_some (identity t) (sort leb ordinals)
