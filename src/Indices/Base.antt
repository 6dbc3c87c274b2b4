-- ===== src/Indices/Base.antt =====
-- base.py, `VitruvioIndex`: what every index kind shares. An index kind is a record of hooks;
-- the files, the clock and the messages for people are left out.
pub mod Hits
pub mod Build
use vitruvio.Prelude.{
  ℕ, ltb, ◌==◌, if◌then◌else◌, List, [], ◌∷◌, Option, none, some, Bool, true, false, ◌&&◌, ◌||◌,
  not, map, foldl, length, ite, take, filter_some, sort, Text, le_text, text_discrete, Ord,
}
use vitruvio.Indices.Ordinals
use vitruvio.Indices.Ordinals.{OrdinalTable}
use vitruvio.Indices.Queries.{Hit, Results, BuildDelta, between, is_noop, Capability, State}

-- `_reset`, `_apply` and `_on_build_end` of a subclass with the state S, over projections P.
pub record Kind (P S : Type 0) : Type 0 where
  pub block_id : P → Text
  pub reset : S
  pub apply : OrdinalTable → P → S → S
  pub finish : OrdinalTable → S → S

pub record Index (S : Type 0) : Type 0 where
  pub table : OrdinalTable
  pub bound_root : Option Text
  pub refused_tag : Option Text
  pub model_tag : Option Text
  pub state : S

-- a is not None and b is not None and a != b
abbrev pub differ : Option Text → Option Text → Bool
differ (some a) (some b) = ite (text_discrete a b) false true
differ (some a) none = false
differ none b = false

module _ {S : Type 0} where
  abbrev pub population : Index S → ℕ
  population ix = Ordinals.size ix.table

  -- `capability`, its state and its population
  unfoldable pub capability : Index S → Option Text → Option Text → Capability
  capability ix root model_tag = record {
    state =
        if population ix == 0
        then elim ix.refused_tag [ none ↦ State.empty | some _ ↦ State.model_mismatch ]
        else if differ root ix.bound_root
        then State.stale
        else if differ model_tag ix.model_tag
        then State.model_mismatch
        else State.ready;
    population = population ix;
  }

  unfoldable pub bind : Index S → Option Text → Index S
  bind ix root = record ix { bound_root = root }

module _ {P S : Type 0} (kind : Kind P S) where
  -- the loop over the blocks, between `_reset` and `_on_build_end`
  unfoldable pub rebuild : OrdinalTable → List P → S
  rebuild table blocks = kind.finish table (foldl (λ s p. kind.apply table p s) kind.reset blocks)

  -- `build`: a block set with the held membership leaves the index as it is.
  unfoldable pub build : Index S → List P → Index S
  unfolding rebuild
  build ix blocks =
      let incoming = map kind.block_id blocks in
      let table = Ordinals.init incoming in
      if is_noop (between ix.table.identities incoming) && (population ix == length incoming)
      then ix
      else record ix {
        table = table;
        bound_root = none;
        refused_tag = none;
        state = rebuild table blocks;
      }

-- The order of `_results`: best score first, then the identity.
module _ {S : Type 0} (o : Ord S) where
  abbrev pub le_hit : Text × S → Text × S → Bool
  le_hit (a, s) (b, t) = if o.le t s then (if o.le s t then le_text a b else true) else false

  abbrev named : OrdinalTable → ℕ × S → Option (Text × S)
  named table (ordinal, score) = elim (Ordinals.identity table ordinal) [
    | none ↦ none
    | some identity ↦ some (identity, score)
  ]

  -- `_results`
  unfoldable pub results : OrdinalTable → List (ℕ × S) → ℕ → Bool → Results S
  results table scored limit exhausted =
      let resolved = sort le_hit (filter_some (named table) scored) in
      let truncated = ltb 0 limit && ltb limit (length resolved) in
      let chosen = if ltb 0 limit then take limit resolved else resolved in
      record {
        hits = map (λ (h : Text × S). record { block_id = h.0; score = h.1 }) chosen;
        exhausted = exhausted && not truncated;
      }
