-- ===== src/Indices/Tests.antt =====
-- packages/indices: three small blocks, and the theorems at them.
use vitruvio.Prelude.{
  ◌++◌, ℕ, ◌<◌, List, [], ◌∷◌, none, some, true, Text, le_text, text_eq, In, nat_ord, ◌≡◌, ◌↔◌, ◌⊎◌,
  refl, inl, inr, text_discrete, lookup, enumerate, sort, union, ℕ_discrete, insert, inter, diff,
  contains,
}
use vitruvio.Indices.Projection.{
  Projection, Facet-discrete, tag, label, alias, occurred_at, size, string, int,
}
use vitruvio.Indices.Ordinals
use vitruvio.Indices.Ordinals.{OrdinalTable}
use vitruvio.Indices.Queries.{any, FacetQuery, IdQuery, Hit, RangeQuery, descending}
use vitruvio.Indices.Base.{Index, build, rebuild, results, le_hit}
use vitruvio.Indices.Base.Build.{build_outcome}
use vitruvio.Indices.Base.Hits.{results_best}
use vitruvio.Indices.HashMap.{HashMap, reset, hash_map, lookup_ids, duplicates}
use vitruvio.Indices.HashMap.Lookup.{lookup_exact, Wanted}
use vitruvio.Indices.HashMap.Duplicates.{duplicates_exact, occurrences}
use vitruvio.Indices.BTree.{btree, bounds, encode, scan}
use vitruvio.Indices.BTree.Built.{HasEntry}
use vitruvio.Indices.BTree.Scan.{Above, Below}
use vitruvio.Indices.BTree.Prefix.{UnderCeiling, prefix_exact}
use vitruvio.Indices.BTree.Exact.{Allowed, scan_exact}
use vitruvio.Indices.Bitmap
use vitruvio.Indices.Bitmap.Answers.{filter_answered}
use vitruvio.Indices.Bitmap.Filter.{built, SatisfiesAll, Passes, filter_exact}
use vitruvio.Stats.{TimeStats}
use vitruvio.Indices.BTree.Histogram.{histogram, Depicts, histogram_exact}

abbrev a : Text
a = 97 ∷ []

abbrev b : Text
b = 98 ∷ []

abbrev c : Text
c = 99 ∷ []

-- listed twice under an alias, once empty
abbrev first : Projection ℕ
first = record {
  block_id = b;
  facets = [];
  keys = (occurred_at, string c) ∷ (size, int 7) ∷ [];
  identities = (label, a ∷ []) ∷ (alias, c ∷ [] ∷ c ∷ []) ∷ [];
  edges = [];
  size = 7;
}

abbrev second : Projection ℕ
second = record {
  block_id = a;
  facets = [];
  keys = (occurred_at, string b) ∷ [];
  identities = (label, a ∷ []) ∷ [];
  edges = [];
  size = 0;
}

abbrev blocks : List (Projection ℕ)
blocks = first ∷ second ∷ []

abbrev held : OrdinalTable
held = Ordinals.init (b ∷ a ∷ [])

abbrev same_text : Text → Text
same_text x = x

abbrev by_label : IdQuery
by_label = record { identities = c ∷ b ∷ []; keys = (label, a) ∷ [] }

abbrev by_time : RangeQuery
by_time = record {
  key = occurred_at;
  low = some (string b);
  high = none;
  prefix = none;
  order = descending;
  allow = some (0 ∷ []);
}

abbrev empty_index : Index HashMap
empty_index = record {
  table = Ordinals.init [];
  bound_root = some a;
  refused_tag = none;
  model_tag = none;
  state = reset;
}

abbrev scored : List (ℕ × ℕ)
scored = (0, 3) ∷ (1, 5) ∷ (9, 8) ∷ []

lookup_exact_example :
    (In
        (record { block_id = b; score = 9 })
        (lookup_ids same_text nat_ord 9 held (rebuild hash_map held blocks) by_label).hits
      ↔ Wanted same_text blocks nat_ord 9 by_label b)
    × ((lookup_ids same_text nat_ord 9 held (rebuild hash_map held blocks) by_label).exhausted
        ≡ true)
lookup_exact_example = lookup_exact same_text blocks nat_ord 9 by_label b

duplicates_exact_example :
    In (c, 2) (duplicates (rebuild hash_map held blocks) alias)
    ↔ ((2 ≡ occurrences alias c blocks) × (1 < 2))
duplicates_exact_example = duplicates_exact blocks alias c 2

scan_exact_example : In 0 (scan (rebuild btree held blocks) by_time) ↔ (
    ((v : Text) × HasEntry held blocks occurred_at v 0 × Above (some b) v × Below none v)
    × Allowed (some (0 ∷ [])) 0)
unfolding bounds encode
scan_exact_example = scan_exact held blocks by_time 0

build_outcome_example :
    ((build hash_map empty_index blocks).table ≡ held)
    × ((((build hash_map empty_index blocks).state ≡ rebuild hash_map held blocks)
          × ((build hash_map empty_index blocks).bound_root ≡ none)
          × ((build hash_map empty_index blocks).refused_tag ≡ none))
        ⊎ ((build hash_map empty_index blocks ≡ empty_index)
            × ((x : Text) → In x [] ↔ In x (b ∷ a ∷ []))))
build_outcome_example = build_outcome hash_map empty_index [] blocks refl

histogram_exact_example :
    (stats : TimeStats) × (histogram (a ∷ b ∷ c ∷ []) ≡ some stats) × Depicts (a ∷ b ∷ c ∷ []) stats
histogram_exact_example = histogram_exact a (b ∷ c ∷ [])

results_best_example :
    (In (record { block_id = b; score = 5 }) (results nat_ord held scored 1 true).hits
      ⊎ ((h : Hit ℕ)
          → In h (results nat_ord held scored 1 true).hits
          → le_hit nat_ord (h.block_id, h.score) (b, 5) ≡ true))
    × ((results nat_ord held scored 1 true).exhausted ≡ true
        → In (record { block_id = b; score = 5 }) (results nat_ord held scored 1 true).hits)
unfolding Ordinals.init sort union text_discrete ℕ_discrete le_text Ordinals.identity
results_best_example = results_best nat_ord held scored 1 1 5 b (inr (inl refl)) refl

abbrev tagged : FacetQuery
tagged = record {
  clauses = record { facet = tag; values = c ∷ []; combine = any; negate = true } ∷ [];
  allow = some (1 ∷ []);
}

abbrev with_tag : Projection ℕ
with_tag = record {
  block_id = a;
  facets = (tag, c ∷ []) ∷ [];
  keys = [];
  identities = [];
  edges = [];
  size = 0;
}

abbrev without_tag : Projection ℕ
without_tag = record { block_id = b; facets = []; keys = []; identities = []; edges = []; size = 0 }

abbrev survivors : List ℕ
survivors = 1 ∷ []

filter_exact_example : In 1 survivors ↔ (
    SatisfiesAll same_text held (with_tag ∷ without_tag ∷ []) 1 tagged.clauses
    × Passes (some survivors) 1)
unfolding Bitmap.filter lookup rebuild Bitmap.apply Ordinals.ordinal Ordinals.init enumerate sort
    union text_discrete ℕ_discrete le_text insert Facet-discrete Bitmap.reset inter diff contains
filter_exact_example =
    filter_exact same_text held (with_tag ∷ without_tag ∷ []) tagged survivors 1 refl refl

-- "b" and then U+1F600, a character past the ceiling
abbrev astral : Text
astral = 98 ∷ 0x1F600 ∷ []

prefix_exact_example :
    (Above (bounds none none (some b)).0 astral × Below (bounds none none (some b)).1 astral) ↔ (
      Above none astral
      × Below none astral
      × ((rest : Text) × (astral ≡ b ++ rest) × UnderCeiling rest))
prefix_exact_example = prefix_exact none none 98 [] astral

filter_answered_example :
    (found : List ℕ) × (Bitmap.filter same_text held
        (built same_text held (with_tag ∷ without_tag ∷ []))
        tagged
      ≡ some found)
unfolding rebuild Bitmap.apply Ordinals.ordinal Ordinals.init enumerate sort union text_discrete
    ℕ_discrete le_text insert lookup Facet-discrete Bitmap.reset
filter_answered_example =
    filter_answered same_text held (with_tag ∷ without_tag ∷ []) with_tag 0 tagged (inl refl) refl
      refl ((no_mark, refl), tt)
  where
    no_mark : ¬ In tag (built same_text held (with_tag ∷ without_tag ∷ [])).unindexed
    no_mark m = m
