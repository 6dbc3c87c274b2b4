-- ===== src/Planner/Templates.antt =====
-- templates.py: what a plan is made from, and the building of its arena. What the statistics of a
-- scope hold is read off a record, and the real numbers among the parameters are hundredths of a parameter type.
pub mod Nodes
pub mod Assembly
pub mod Enumeration
pub mod Placement
pub mod Scopes
pub mod Tails
pub mod Plans
pub mod Subsets
pub mod Navigational
use vitruvio.Prelude.{
  ℕ, zero, suc, ◌+◌, ◌-◌, ◌*◌, ◌/◌, ◌%◌, ◌^◌, min, max, ltb, leb, ◌==◌, if◌then◌else◌, List, [],
  ◌∷◌, ◌++◌, Option, none, some, Bool, true, false, ◌||◌, ◌&&◌, not, map, filterb, is_nil, length,
  get_elem?, range_from, Text, text, le_text, text_eq, Eq, contains, inter, lookup, insert, Dict,
  values,
}
use vitruvio.Stats.{ColumnStats, TimeStats, selectivity, range_selectivity}
use vitruvio.Stats.Growth.{GraphStats}
use vitruvio.Planner.Ir.{
  Op, Op-discrete, op_eq, Node, Plan, PlanBuilder, init, add_node, finish, is_generator, seq_scan,
  exact_lookup, date_scan, term_scan, vector_search, brute_vector, bitmap_filter, mask_apply,
  residual, graph_expand, fuse, top_k, merge_modules, accessibility, resolve, verify, empty,
}
use vitruvio.Planner.Execute.{Query, has_text, is_blank, is_space, is_date_query}
use vitruvio.Planner.Intent.{
  RetrievalMode, IntentKind, navigational, admissible_generators, requires,
}

-- a parameter of a node
pub data Value (F : Type 0) : Type 0 where
  count : ℕ → Value F
  real : F → Value F
  flag : Bool → Value F
  word : Option Text → Value F
  words : List Text → Value F

pub data IndexKind : Type 0 where
  hash_map btree bitmap inverted vector graph : IndexKind

pub record VectorView (F : Type 0) : Type 0 where
  pub vectors : ℕ
  pub dimensions : ℕ
  -- recall_at(64)
  pub recall : F

-- What is read of a scope's `ModuleStats`.
pub record ScopeStats (F : Type 0) : Type 0 where
  pub cardinality : ℕ
  pub subject : ColumnStats
  pub occurred_at : Option TimeStats
  pub postings : ℕ
  pub view : Option (VectorView F)
  pub graph : GraphStats F

pub record PlannerConfig : Type 0 where
  pub overfetch : ℕ
  pub brute_threshold : ℕ
  pub rrf_k : ℕ
  pub graph_expand_max : ℕ

-- A query with its hints, what is installed for it, and the statistics.
pub record Request (F : Type 0) : Type 0 where
  pub query : Query
  pub mode : RetrievalMode
  pub expand_depth : ℕ
  pub kind : IntentKind
  pub scopes : List Text
  pub has : Text → IndexKind → Bool
  pub statistics : Text → Option (ScopeStats F)
  pub config : PlannerConfig
  -- IndexKind.value
  pub value : IndexKind → Text
  pub hundredths : ℕ → F

abbrev pub k_grid : List ℕ
k_grid = 1 ∷ 4 ∷ []

-- len(text.split())
abbrev pub word_count : Bool → Text → ℕ
word_count inside [] = 0
word_count inside (c ∷ rest) =
    let space = word_count false rest in
    let letter = word_count true rest in
    if is_space c then space else if inside then letter else suc letter

abbrev pub number_of_words : Text → ℕ
number_of_words = word_count false

-- Building a plan: the arena is passed on, and none is where the code raises.
abbrev pub Build : Type 0 → Type 0 → Type 0
Build F A = PlanBuilder (Value F) → Option (PlanBuilder (Value F) × A)

abbrev pub return_built : {F A : Type 0} → A → Build F A
return_built a b = some (b, a)

abbrev pub raise_built : {F A : Type 0} → Build F A
raise_built b = none

abbrev pub continue :
    {F A C : Type 0}
    → Option (PlanBuilder (Value F) × A)
    → (A → Build F C)
    → Option (PlanBuilder (Value F) × C)
continue none f = none
continue (some (b, a)) f = f a b

infixl 5 ◌>>=◌
abbrev pub ◌>>=◌ : {F A C : Type 0} → Build F A → (A → Build F C) → Build F C
◌>>=◌ m f b = continue (m b) f

abbrev pub when : {F : Type 0} → Bool → Build F ℕ → Build F (Option ℕ)
when false m = return_built none
when true m = m >>= λ id. return_built (some id)

-- [mask] if mask is not None else []
abbrev pub fed_by : Option ℕ → List ℕ
fed_by none = []
fed_by (some mask) = mask ∷ []

module _ {F : Type 0} ⦃e : Eq (Node (Value F))⦄ where
  -- `PlanBuilder.add`: the names of the parameters are distinct, so that their order decides
  abbrev pub placed :
      Op
      → Option Text
      → List ℕ
      → Option Text
      → List (Text × Value F)
      → PlanBuilder (Value F)
      → PlanBuilder (Value F) × ℕ
  placed op scope inputs index params b =
      add_node (λ (p : Text × Value F) q. le_text p.0 q.0) b op scope inputs index params

  abbrev pub add : Op → Option Text → List ℕ → Option Text → List (Text × Value F) → Build F ℕ
  add op scope inputs index params b = some (placed op scope inputs index params b)

-- a value before those of a list, and two lists in turn, unless one of them raised
abbrev pub with_first : {A : Type 0} → Option A → Option (List A) → Option (List A)
with_first none rest = none
with_first (some a) none = none
with_first (some a) (some rest) = some (a ∷ rest)

abbrev pub with_all : {A : Type 0} → Option (List A) → Option (List A) → Option (List A)
with_all none later = none
with_all (some held) none = none
with_all (some held) (some later) = some (held ++ later)
