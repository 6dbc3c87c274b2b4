-- ===== src/Planner/Intent.antt =====
-- intent.py: what a query asks for, and which generators its mode permits and requires. A generator's name is its
-- operator's. Of the SDK's modes those stand here that the code tells apart.
use vitruvio.Prelude.{
  ℕ, leb, ◌==◌, if◌then◌else◌, List, [], ◌∷◌, Option, none, some, Bool, true, false, ◌&&◌, ◌||◌,
  not, is_nil, length, contains, Text, text, text_eq,
}
use vitruvio.Planner.Ir.{
  Op, exact_lookup, term_scan, seq_scan, graph_expand, vector_search, brute_vector,
}

pub data RetrievalMode : Type 0 where
  auto exact lexical semantic associative : RetrievalMode

pub data IntentKind : Type 0 where
  exact navigational lexical semantic associative hybrid : IntentKind

unfoldable pub admissible_generators : RetrievalMode → Option (List Op)
admissible_generators RetrievalMode.exact = some (exact_lookup ∷ [])
admissible_generators RetrievalMode.lexical = some (term_scan ∷ seq_scan ∷ graph_expand ∷ [])
admissible_generators _ = none

unfoldable pub requires : RetrievalMode → List Op
requires RetrievalMode.semantic = vector_search ∷ brute_vector ∷ []
requires RetrievalMode.associative = graph_expand ∷ []
requires _ = []

-- `_kind_for_mode`
unfoldable pub kind_for_mode : RetrievalMode → Option IntentKind
kind_for_mode RetrievalMode.auto = none
kind_for_mode RetrievalMode.exact = some IntentKind.exact
kind_for_mode RetrievalMode.lexical = some IntentKind.lexical
kind_for_mode RetrievalMode.semantic = some IntentKind.semantic
kind_for_mode RetrievalMode.associative = some IntentKind.associative

abbrev pub is_hex : ℕ → Bool
is_hex c = (leb 48 c && leb c 57) || (leb 97 c && leb c 102)

abbrev pub all_hex : Text → Bool
all_hex [] = true
all_hex (c ∷ rest) = is_hex c && all_hex rest

abbrev pub after_prefix : Text → Text → Option Text
after_prefix [] held = some held
after_prefix (c ∷ prefix) [] = none
after_prefix (c ∷ prefix) (d ∷ held) =
    let rest = after_prefix prefix held in if c == d then rest else none

-- DIGEST.match, of a stripped text
unfoldable pub is_digest : Text → Bool
is_digest held = elim (after_prefix (text "sha256:") held) [
  | none ↦ false
  | some digits ↦ (length digits == 64) && all_hex digits
]

abbrev pub interrogatives : List Text
interrogatives =
    text "what"
    ∷ text "which"
    ∷ text "who"
    ∷ text "when"
    ∷ text "where"
    ∷ text "why"
    ∷ text "how"
    ∷ text "que"
    ∷ text "cual"
    ∷ text "quien"
    ∷ text "cuando"
    ∷ text "donde"
    ∷ text "como"
    ∷ text "por"
    ∷ []

abbrev pub natural_language_tokens : ℕ
natural_language_tokens = 4

abbrev pub any_in : List Text → List Text → Bool
any_in names [] = false
any_in names (token ∷ tokens) = contains names token || any_in names tokens

-- What `classify` is given: the stripped text, its tokens in lower case, and whether the ratio of
-- unseen terms is above the threshold.
pub record Asking : Type 0 where
  pub stripped : Text
  pub tokens : List Text
  pub mode : RetrievalMode
  pub has_filters : Bool
  pub expand_depth : ℕ
  pub unseen : Bool
  pub known_predicates : List Text

-- the kind that the text, the filters and the statistics give
unfoldable pub kind_of_text : Asking → IntentKind
unfolding is_digest contains
kind_of_text a =
    if is_digest a.stripped
    then IntentKind.exact
    else if is_nil a.stripped && a.has_filters
    then navigational
    else if not (a.expand_depth == 0)
    then IntentKind.associative
    else if any_in a.known_predicates a.tokens
    then IntentKind.associative
    else if a.unseen
    then IntentKind.semantic
    else if leb natural_language_tokens (length a.tokens) || any_in interrogatives a.tokens
    then IntentKind.semantic
    else if not (is_nil a.tokens)
    then IntentKind.lexical
    else hybrid

-- `classify`: the kind
unfoldable pub classify : Asking → IntentKind
unfolding kind_for_mode kind_of_text
classify a = elim (kind_for_mode a.mode) [ none ↦ kind_of_text a | some kind ↦ kind ]
