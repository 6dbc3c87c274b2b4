-- ===== src/Planner/Execute.antt =====
-- execute.py, `Executor`: the query with its filters, what is given of modules and blocks, and the
-- predicates on a payload. Modules, blocks, their proofs and the catalogue are the SDK's
-- and stand as parameters. An identity stands for its text, and the `dict` of a payload for the keys
-- that the code reads.
pub mod Tail
pub mod Filtering
pub mod Verification
pub mod Records
pub mod Bundles
pub mod Refinement
pub mod Run
pub mod Gathered
pub mod Progress
pub mod Completeness
use vitruvio.Prelude.{
  ℕ, suc, ◌*◌, max, ltb, leb, if◌then◌else◌, List, [], ◌∷◌, ◌++◌, Option, none, some, Bool, true,
  false, ◌||◌, ◌&&◌, not, map, foldl, filterb, filter_some, is_nil, length, take, Text, text,
  le_text, text_eq, text_discrete, nat_eq, Dict, lookup, contains, inter, keys, ite,
}
use vitruvio.Planner.Ir.{Op, Op-discrete, Node, date_scan}
use vitruvio.Planner.Fusion.{Candidate, Floats, fuse, normalize}

-- What a call of the SDK gives: a value, or an exception with its message.
pub data Attempt (A : Type 0) : Type 0 where
  returned : A → Attempt A
  raised : Text → Attempt A

pub record Filters : Type 0 where
  pub subject : Option Text
  pub tags : List Text
  pub since : Option Text
  pub until : Option Text
  pub classes : List Text
  pub evidence : List Text
  pub include_superseded : Bool

pub record Query : Type 0 where
  pub query_text : Text
  pub filters : Filters
  pub limit : ℕ

-- a block's payload
pub record Content : Type 0 where
  pub subject : Option Text
  pub tags : List Text
  pub occurred_at : Option Text
  pub evidence : List Text

-- the payload {}
abbrev pub no_content : Content
no_content = record { subject = none; tags = []; occurred_at = none; evidence = [] }

pub record Sdk (M B : Type 0) : Type 0 where
  pub members : M → List Text
  pub root : M → Text
  -- module.inclusion_proof(identity) with the proof's verify(module.root)
  pub proves : M → Text → Attempt Bool
  pub is_resolvable : M → Text → Bool
  pub get : M → Text → Attempt B
  pub payload : B → Content
  pub evidence_sources : Text → B → List Text
  -- Catalog(modules).sources_for
  pub sources_for : Text → List Text

pub record Ledger : Type 0 where
  pub is_accessible : Text → Bool
  pub superseded_by : Dict Text Text
  pub locators : Dict Text Text

pub record Degradation : Type 0 where
  pub kind : Text
  pub detail : Text

-- The score is the one that `render` writes as a decimal.
pub record Match (F : Type 0) : Type 0 where
  pub block_id : Text
  pub memory_type : Text
  pub content : Content
  pub score : F
  pub sources : List (Text × Option Text)
  pub verified : Bool
  pub resolvable : Bool
  pub superseded_by : Option Text

pub record EvidenceBundle (F : Type 0) : Type 0 where
  pub matches : List (Match F)
  pub verified_against : List (Text × Text)
  pub truncated : Bool

pub record Executor (F M : Type 0) : Type 0 where
  pub modules : Dict Text M
  pub query : Query
  pub weights : Dict Text F
  pub rrf_k : ℕ
  pub decay : F
  pub ledger : Ledger

-- the truth of a text that may be absent
abbrev pub has_text : Option Text → Bool
has_text none = false
has_text (some value) = not (is_nil value)

-- has_content_filters, intent.py
abbrev pub has_content_filters : Filters → Bool
has_content_filters f =
    has_text f.subject
    || (not (is_nil f.tags) || (not (is_nil f.classes) || not (is_nil f.evidence)))

-- `_has_block_filters`
abbrev pub has_block_filters : Filters → Bool
has_block_filters f = has_text f.since || (has_text f.until || has_content_filters f)

-- Whether `str.strip` takes a character away.
unfoldable pub is_space : ℕ → Bool
is_space c =
    (leb 9 c && leb c 13)
    || ((leb 28 c && leb c 32)
        || contains (133 ∷ 160 ∷ 5760 ∷ 8232 ∷ 8233 ∷ 8239 ∷ 8287 ∷ 12288 ∷ []) c
        || (leb 8192 c && leb c 8202))

-- not text.strip()
unfoldable pub is_blank : Text → Bool
unfolding is_space
is_blank [] = true
is_blank (c ∷ rest) = is_space c && is_blank rest

-- is_date_query, intent.py
abbrev pub is_date_query : Query → Bool
is_date_query q = is_blank q.query_text && (has_text q.filters.since || has_text q.filters.until)

-- `_date_only_filters`
abbrev pub date_only_filters : Query → Bool
date_only_filters q = is_date_query q && not (has_content_filters q.filters)

-- any(node.op is op for node in nodes)
unfoldable pub runs : {V : Type 0} → Op → List (Node V) → Bool
runs op [] = false
runs op (node ∷ rest) = ite (Op-discrete node.op op) true (runs op rest)

-- set(asked) <= set(held)
unfoldable pub issubset : List Text → List Text → Bool
issubset [] held = true
issubset (x ∷ asked) held = contains held x && issubset asked held

-- filters.subject and content.get("subject") != filters.subject
abbrev pub differs : Option Text → Option Text → Bool
differs none held = false
differs (some subject) none = not (is_nil subject)
differs (some subject) (some held) =
    not (is_nil subject) && ite (text_discrete held subject) false true

-- filters.since and (not occurred_at or str(occurred_at) < filters.since)
abbrev pub is_early : Option Text → Option Text → Bool
is_early none at = false
is_early (some since) none = not (is_nil since)
is_early (some since) (some at) = not (is_nil since) && (is_nil at || not (le_text since at))

-- filters.until and (not occurred_at or str(occurred_at) > filters.until)
abbrev pub is_late : Option Text → Option Text → Bool
is_late none at = false
is_late (some until) none = not (is_nil until)
is_late (some until) (some at) = not (is_nil until) && (is_nil at || not (le_text at until))

unfoldable pub matches_filters : Filters → Content → Bool
unfolding issubset
matches_filters f content =
    if differs f.subject content.subject
    then false
    else if not (is_nil f.tags) && not (issubset f.tags content.tags)
    then false
    else if is_early f.since content.occurred_at
    then false
    else if is_late f.until content.occurred_at
    then false
    else if not (is_nil f.evidence) && not (issubset f.evidence content.evidence)
    then false
    else true

-- set.intersection(*sets)
unfoldable pub intersection : List (List Text) → List Text
intersection [] = []
intersection (first ∷ rest) = foldl inter first rest

-- `_admissible_unresolvable`: the values of EXACT_LOOKUP and GRAPH_EXPAND
unfoldable pub admissible_unresolvable : {F : Type 0} → Candidate F → Bool
admissible_unresolvable c =
    contains c.origins (text "ExactLookup") || contains c.origins (text "GraphExpand")
