-- ===== src/Stats/Merge.antt =====
-- packages/stats/src/vitruvio/stats/fragment.py, `merge`: the fragments of a module's indices as one
-- view. The views of the graph and of the vectors, and the mean size, pass through unread.
pub mod Latest
pub mod Gathering
pub mod Order
use vitruvio.Prelude.{
  ℕ, zero, suc, if◌then◌else◌, List, [], ◌∷◌, Option, none, some, Bool, true, false, not, map,
  foldl, is_nil, Text, le_text, text_eq, text_ord, Dict, insert, sort, set_of, union,
}
use vitruvio.Stats.{
  ColumnStats, TimeStats, TermStats, StatsVersion, Freshness, fresh, absent, freshness_against,
  catalog_schema,
}

-- StatsFragment
pub record Fragment (G V F : Type 0) : Type 0 where
  pub kind : Text
  pub fingerprint : Text
  pub module_level : Bool
  pub cardinality : ℕ
  pub resolvable_count : ℕ
  pub average_block_bytes : F
  pub columns : Dict Text ColumnStats
  pub time : Dict Text TimeStats
  pub terms : Option TermStats
  pub graph : Option G
  pub vectors : Dict Text V
  pub model_tag : Option Text
  pub built_at : Text

-- ModuleStats, with the fields of its version that `merge` fills
pub record ModuleStats (G V F : Type 0) : Type 0 where
  pub version : StatsVersion
  pub built_at : Text
  pub index_kinds : List Text
  pub model_tag : Option Text
  pub freshness : Freshness
  pub cardinality : ℕ
  pub resolvable_count : ℕ
  pub average_block_bytes : F
  pub columns : Dict Text ColumnStats
  pub time : Dict Text TimeStats
  pub terms : TermStats
  pub graph : G
  pub vectors : Dict Text V

-- held.update(given)
unfoldable pub updated : {W : Type 0} → Dict Text W → Dict Text W → Dict Text W
updated held [] = held
updated held ((key, value) ∷ given) = updated (insert held key value) given

-- given or held, for objects, which are true
abbrev pub or_held : {A : Type 0} → Option A → Option A → Option A
or_held none held = held
or_held (some given) held = some given

-- a text that is there and not empty
abbrev pub filled : Option Text → Option Text
filled none = none
filled (some t) = if is_nil t then none else some t

-- max(held, given): the first of two equals
abbrev pub later : Text → Text → Text
later held given = if le_text given held then held else given

-- TermStats()
abbrev pub no_terms : TermStats
no_terms = record { vocabulary = 0; document_frequency = []; tail_max_frequency = 0 }

-- version.freshness_against(root, observed) if root is not None else Freshness.fresh()
abbrev pub freshness_at : StatsVersion → Option Text → Text → Freshness
freshness_at version none observed = fresh
freshness_at version (some root) observed = freshness_against version root observed

-- the names that the loop fills
pub record Fields (G V F : Type 0) : Type 0 where
  pub columns : Dict Text ColumnStats
  pub time : Dict Text TimeStats
  pub vectors : Dict Text V
  pub terms : Option TermStats
  pub graph : Option G
  pub module_level : Option (Fragment G V F)
  pub model_tag : Option Text
  pub built_at : Text

module _ {G V F : Type 0} where
  abbrev pub nothing : Fields G V F
  nothing = record {
    columns = [];
    time = [];
    vectors = [];
    terms = none;
    graph = none;
    module_level = none;
    model_tag = none;
    built_at = [];
  }

  -- the body of the loop
  unfoldable pub gather_one : Fragment G V F → Fields G V F → Fields G V F
  unfolding updated
  gather_one f held = record {
    columns = updated held.columns f.columns;
    time = updated held.time f.time;
    vectors = updated held.vectors f.vectors;
    terms = or_held f.terms held.terms;
    graph = or_held f.graph held.graph;
    module_level = if f.module_level then some f else held.module_level;
    model_tag = or_held (filled f.model_tag) held.model_tag;
    built_at = later held.built_at f.built_at;
  }

  -- the loop over the fragments
  unfoldable pub gather : List (Fragment G V F) → Fields G V F → Fields G V F
  unfolding gather_one
  gather [] held = held
  gather (f ∷ fragments) held = gather fragments (gather_one f held)

  -- module_level.fingerprint if module_level else fragments[0].fingerprint
  abbrev pub leaf : Fragment G V F → Option (Fragment G V F) → Text
  leaf first none = first.fingerprint
  leaf first (some f) = f.fingerprint

  abbrev pub or_zero : {A : Type 0} → (Fragment G V F → A) → A → Option (Fragment G V F) → A
  or_zero field default none = default
  or_zero field default (some f) = field f

  module _ (no_graph : G) (zero_bytes : F) where
    abbrev pub empty : ModuleStats G V F
    empty = record {
      version = record { root = none; leaf_fingerprint = []; schema = catalog_schema };
      built_at = [];
      index_kinds = [];
      model_tag = none;
      freshness = absent;
      cardinality = 0;
      resolvable_count = 0;
      average_block_bytes = zero_bytes;
      columns = [];
      time = [];
      terms = no_terms;
      graph = no_graph;
      vectors = [];
    }

    -- `merge`
    unfoldable pub merge : List (Fragment G V F) → Option Text → Option Text → ModuleStats G V F
    unfolding gather
    merge [] root fingerprint = empty
    merge (first ∷ rest) root fingerprint =
        let fragments = first ∷ rest in
        let found = gather fragments nothing in
        let held = leaf first found.module_level in
        let version : StatsVersion = record {
          root = root;
          leaf_fingerprint = held;
          schema = catalog_schema;
        } in
        let observed : Text = elim (filled fingerprint) [ none ↦ held | some given ↦ given ] in
        record {
          version = version;
          built_at = found.built_at;
          index_kinds = sort le_text (set_of (map (λ (f : Fragment G V F). f.kind) fragments));
          model_tag = found.model_tag;
          freshness = freshness_at version root observed;
          cardinality = or_zero (λ f. f.cardinality) 0 found.module_level;
          resolvable_count = or_zero (λ f. f.resolvable_count) 0 found.module_level;
          average_block_bytes = or_zero (λ f. f.average_block_bytes) zero_bytes found.module_level;
          columns = found.columns;
          time = found.time;
          terms = elim found.terms [ none ↦ no_terms | some t ↦ t ];
          graph = elim found.graph [ none ↦ no_graph | some g ↦ g ];
          vectors = found.vectors;
        }
