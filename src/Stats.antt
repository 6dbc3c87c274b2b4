-- ===== src/Stats.antt =====
-- packages/stats: what the indices measure, and the estimates that the planner makes from it.
-- Messages for people are left out, and a confidence is the number of hundredths.
pub mod Selectivity
pub mod Window
pub mod Versions
pub mod Growth
pub mod Merge
mod Tests
mod MergeTests
use vitruvio.Prelude.{
  ℕ, zero, suc, ◌+◌, ◌-◌, ◌*◌, ◌/◌, ltb, leb, ◌==◌, if◌then◌else◌, List, [], ◌∷◌, Option, none,
  some, Bool, true, false, ◌&&◌, ◌||◌, not, map, foldl, length, get_elem?, is_nil, min, max, Text,
  le_text, text_eq, text_discrete, ite, Dict, lookup, filterb, values,
}

-- CATALOG_SCHEMA
abbrev pub catalog_schema : ℕ
catalog_schema = 2

-- A stale fragment says which check failed.
pub data Reason : Type 0 where
  schema composition resolvable : Reason

pub data Freshness : Type 0 where
  fresh absent : Freshness
  stale : Reason → Freshness

unfoldable pub is_fresh : Freshness → Bool
is_fresh fresh = true
is_fresh _ = false

-- The fields that are compared.
pub record StatsVersion : Type 0 where
  pub root : Option Text
  pub leaf_fingerprint : Text
  pub schema : ℕ

-- a is not None and a != b
abbrev pub other_root : Option Text → Text → Bool
other_root none root = false
other_root (some held) root = ite (text_discrete held root) false true

unfoldable pub freshness_against : StatsVersion → Text → Text → Freshness
freshness_against v root fingerprint =
    if not (v.schema == catalog_schema)
    then stale schema
    else if is_nil v.leaf_fingerprint
    then absent
    else if other_root v.root root
    then stale composition
    else ite (text_discrete v.leaf_fingerprint fingerprint) fresh (stale resolvable)

pub record Estimate : Type 0 where
  pub rows : ℕ
  pub exact : Bool
  pub confidence : ℕ

abbrev pub measured : ℕ → Estimate
measured rows = record { rows = rows; exact = true; confidence = 100 }

pub record ColumnStats : Type 0 where
  pub distinct : ℕ
  pub null_count : ℕ
  pub populated_count : ℕ
  pub total_values : ℕ
  pub top : List (Text × ℕ)
  pub truncated : Bool

-- sum(count for _, count in top)
abbrev pub covered : List (Text × ℕ) → ℕ
covered [] = 0
covered ((_, count) ∷ top) = count + covered top

-- the loop over `top`
unfoldable pub counted : List (Text × ℕ) → Text → Option ℕ
counted [] value = none
counted ((candidate, count) ∷ top) value =
    let rest = counted top value in ite (text_discrete candidate value) (some count) rest

unfoldable pub selectivity : ColumnStats → Text → ℕ → Estimate
unfolding counted
selectivity c value cardinality = elim (counted c.top value) [
  | some count ↦ measured count
  | none ↦
      let remaining = c.total_values - covered c.top in
      let unseen = max 1 (c.distinct - length c.top) in
      if not c.truncated && leb c.distinct (length c.top) then measured 0 else record {
        rows = min cardinality (max 1 (remaining / unseen));
        exact = false;
        confidence = 40;
      }
]

pub record TimeStats : Type 0 where
  pub minimum : Text
  pub maximum : Text
  pub boundaries : List Text
  pub counts : List ℕ
  pub timed_count : ℕ

abbrev pub lt_text : Text → Text → Bool
lt_text a b = not (le_text b a)

-- A bound that is there and not empty, compared with a value.
abbrev pub bound_lt : Option Text → Text → Bool
bound_lt none v = false
bound_lt (some b) v = not (is_nil b) && lt_text b v

abbrev pub lt_bound : Text → Option Text → Bool
lt_bound v none = false
lt_bound v (some b) = not (is_nil b) && lt_text v b

-- low and self.maximum and low > self.maximum, and the converse for high
abbrev pub starts_after : Option Text → Text → Bool
starts_after low maximum = not (is_nil maximum) && lt_bound maximum low

abbrev pub ends_before : Option Text → Text → Bool
ends_before high minimum = not (is_nil minimum) && bound_lt high minimum

-- boundaries[i], or a default past the end
abbrev pub boundary : List Text → ℕ → Text → Text
boundary boundaries i default = elim (get_elem? boundaries i) [ none ↦ default | some b ↦ b ]

-- what one bucket adds: all, half or none of its count
unfoldable pub bucket : Option Text → Option Text → Text → Text → ℕ → ℕ
bucket low high start end count =
    if bound_lt high start || lt_bound end low
    then 0
    else if not (lt_bound start low) && not (bound_lt high end)
    then count
    else count / 2

-- the loop over the counts
unfoldable pub matched : TimeStats → Option Text → Option Text → ℕ → List ℕ → ℕ
unfolding bucket
matched t low high i [] = 0
matched t low high i (count ∷ counts) =
    bucket low high (boundary t.boundaries i t.minimum) (boundary t.boundaries (i + 1) t.maximum)
      count
    + matched t low high (suc i) counts

unfoldable pub range_selectivity : TimeStats → Option Text → Option Text → ℕ → Estimate
unfolding matched
range_selectivity t low high cardinality =
    if t.timed_count == 0 || is_nil t.counts
    then measured 0
    else if starts_after low t.maximum || ends_before high t.minimum
    then measured 0
    else record {
      rows = min cardinality (matched t low high 0 t.counts);
      exact = false;
      confidence = 80;
    }

pub record TermStats : Type 0 where
  pub vocabulary : ℕ
  pub document_frequency : Dict Text ℕ
  pub tail_max_frequency : ℕ

unfoldable pub frequency : TermStats → Text → ℕ
frequency t term = elim (lookup t.document_frequency term) [
  | some df ↦ df
  | none ↦ if ltb (length t.document_frequency) t.vocabulary then t.tail_max_frequency else 0
]

-- the terms that `out_of_vocabulary_ratio` counts
unfoldable pub unseen_terms : TermStats → List Text → ℕ
unfolding frequency
unseen_terms t terms = length (filterb (λ term. frequency t term == 0) terms)
