-- ===== src/Stats/Merge/Order.antt =====
-- fragment.py, `merge`: what it makes does not depend on the order of the fragments.
use vitruvio.Prelude.{
  List, [], ◌∷◌, Option, none, some, true, map, sort, set_of, Distinct-union, In-union, In-map_of,
  In-map_inv, sort_canonical, In, Text, le_text, text_eq, text_ord, Dict, lookup, ◌≡◌, ◌↔◌, ◌⊎◌,
  ◌∙◌, inl, inr, refl, sym, ap, subst, arith,
}
use vitruvio.Stats.{StatsVersion, TermStats, catalog_schema}
use vitruvio.Stats.Merge.{
  Fragment, ModuleStats, nothing, gather, merge, filled, leaf, freshness_at, or_zero, no_terms,
}
use vitruvio.Stats.Merge.Latest.{latest_cases, latest_same, latest_time-same}
use vitruvio.Stats.Merge.Gathering.{module_of, HasKeys, IsConsistent, IsLatest, gather-IsLatest}

-- Two dictionaries with the same items, in whatever order.
abbrev pub SameItems : {W : Type 0} → Dict Text W → Dict Text W → Type 0
SameItems d e = (key : Text) → lookup d key ≡ lookup e key

module _ {G V F : Type 0} where
  -- Two merged views that differ at most in the order of their dictionaries.
  pub record IsSame (m n : ModuleStats G V F) : Type 0 where
    pub version : m.version ≡ n.version
    pub built_at : m.built_at ≡ n.built_at
    pub index_kinds : m.index_kinds ≡ n.index_kinds
    pub model_tag : m.model_tag ≡ n.model_tag
    pub freshness : m.freshness ≡ n.freshness
    pub cardinality : m.cardinality ≡ n.cardinality
    pub resolvable_count : m.resolvable_count ≡ n.resolvable_count
    pub average_block_bytes : m.average_block_bytes ≡ n.average_block_bytes
    pub columns : SameItems m.columns n.columns
    pub time : SameItems m.time n.time
    pub terms : m.terms ≡ n.terms
    pub graph : m.graph ≡ n.graph
    pub vectors : SameItems m.vectors n.vectors

  -- Some fragment carries the module's numbers, or all saw the same blocks.
  abbrev pub HasLeaf : List (Fragment G V F) → Type 0
  HasLeaf fs =
      ((f : Fragment G V F) × In f fs × (f.module_level ≡ true))
      ⊎ ((f g : Fragment G V F) → In f fs → In g fs → f.fingerprint ≡ g.fingerprint)

  module _ (fs gs : List (Fragment G V F)) (same : (f : Fragment G V F) → In f fs ↔ In f gs) where
    same_mapped :
        {A : Type 0} (field : Fragment G V F → A) (a : A)
        → In a (map field fs) ↔ In a (map field gs)
    same_mapped field a = (
      (λ m.
          let (f, i, e) = In-map_inv field a fs m in
          subst (λ b. In b (map field gs)) e (In-map_of field f gs ((same f).0 i))),
      (λ m.
          let (f, i, e) = In-map_inv field a gs m in
          subst (λ b. In b (map field fs)) e (In-map_of field f fs ((same f).1 i))),
    )

    same_kinds :
        sort le_text (set_of (map (λ (f : Fragment G V F). f.kind) fs))
        ≡ sort le_text (set_of (map (λ (f : Fragment G V F). f.kind) gs))
    same_kinds =
        sort_canonical text_ord _ _ (Distinct-union [] (map (λ (f : Fragment G V F). f.kind) fs) tt)
          (Distinct-union [] (map (λ (f : Fragment G V F). f.kind) gs) tt)
          (λ a. ground (
            arith,
            In-union [] (map (λ (f : Fragment G V F). f.kind) fs) a,
            In-union [] (map (λ (f : Fragment G V F). f.kind) gs) a,
            same_mapped (λ (f : Fragment G V F). f.kind) a,
          ))

    -- The loop gathers the same from both.
    module _ (once : HasKeys fs) (consistent : IsConsistent fs) where
      here : IsLatest fs nothing (gather fs nothing)
      here = gather-IsLatest fs nothing once

      there : IsLatest gs nothing (gather gs nothing)
      there = gather-IsLatest gs nothing (λ f m. once f ((same f).1 m))

      same_columns : SameItems (gather fs nothing).columns (gather gs nothing).columns
      unfolding lookup
      same_columns key =
          here.columns key
          ∙ latest_same (λ f. lookup f.columns key) fs gs same (consistent.columns key)
          ∙ sym (there.columns key)

      same_time : SameItems (gather fs nothing).time (gather gs nothing).time
      unfolding lookup
      same_time key =
          here.time key
          ∙ latest_same (λ f. lookup f.time key) fs gs same (consistent.time key)
          ∙ sym (there.time key)

      same_vectors : SameItems (gather fs nothing).vectors (gather gs nothing).vectors
      unfolding lookup
      same_vectors key =
          here.vectors key
          ∙ latest_same (λ f. lookup f.vectors key) fs gs same (consistent.vectors key)
          ∙ sym (there.vectors key)

      same_terms : (gather fs nothing).terms ≡ (gather gs nothing).terms
      same_terms =
          here.terms ∙ latest_same (λ f. f.terms) fs gs same consistent.terms ∙ sym there.terms

      same_graph : (gather fs nothing).graph ≡ (gather gs nothing).graph
      same_graph =
          here.graph ∙ latest_same (λ f. f.graph) fs gs same consistent.graph ∙ sym there.graph

      same_model_tag : (gather fs nothing).model_tag ≡ (gather gs nothing).model_tag
      same_model_tag =
          here.model_tag
          ∙ latest_same (λ f. filled f.model_tag) fs gs same consistent.model_tag
          ∙ sym there.model_tag

      same_module : (gather fs nothing).module_level ≡ (gather gs nothing).module_level
      same_module =
          here.module_level
          ∙ latest_same module_of fs gs same consistent.module_level
          ∙ sym there.module_level

      same_built_at : (gather fs nothing).built_at ≡ (gather gs nothing).built_at
      same_built_at =
          here.built_at
          ∙ latest_time-same (map (λ (f : Fragment G V F). f.built_at) fs)
              (map (λ (f : Fragment G V F). f.built_at) gs)
              (same_mapped (λ (f : Fragment G V F). f.built_at))
          ∙ sym there.built_at

      same_leaf :
          (f g : Fragment G V F)
          → In f fs
          → In g gs
          → HasLeaf fs
          → leaf f (gather fs nothing).module_level ≡ leaf g (gather gs nothing).module_level
      same_leaf f g i j has = elim (latest_cases module_of fs none) [
        | inr (x, a, m, h, e) ↦
            let held = here.module_level ∙ e in
            ap (leaf f) held ∙ ap (leaf g) (sym (sym same_module ∙ held))
        | inl (e, n) ↦ elim has [
          | inl (x, m, l) ↦ absurd (ground (arith, n x m))
          | inr all ↦
              let held = here.module_level ∙ e in
              ap (leaf f) held
              ∙ all f g i ((same g).1 j)
              ∙ ap (leaf g) (sym (sym same_module ∙ held))
        ]
      ]

  -- The merged view does not depend on the order of the fragments: two lists with the same fragments
  -- give the same view, up to the order of its dictionaries, if no field is contributed by two
  -- fragments that differ in it and either some fragment carries the module's numbers or all have
  -- the same fingerprint.
  pub merge_order :
      (no_graph : G) (zero_bytes : F) (fs gs : List (Fragment G V F))
      (root fingerprint : Option Text)
      → ((f : Fragment G V F) → In f fs ↔ In f gs)
      → HasKeys fs
      → IsConsistent fs
      → HasLeaf fs
      → IsSame
          (merge no_graph zero_bytes fs root fingerprint)
          (merge no_graph zero_bytes gs root fingerprint)
  unfolding merge
  merge_order no_graph zero_bytes [] [] root fingerprint same once consistent has = record {
    version = refl;
    built_at = refl;
    index_kinds = refl;
    model_tag = refl;
    freshness = refl;
    cardinality = refl;
    resolvable_count = refl;
    average_block_bytes = refl;
    columns = λ key. refl;
    time = λ key. refl;
    terms = refl;
    graph = refl;
    vectors = λ key. refl;
  }
  merge_order no_graph zero_bytes [] (g ∷ gs) root fingerprint same once consistent has =
      absurd ((same g).1 (inl refl))
  merge_order no_graph zero_bytes (f ∷ fs) [] root fingerprint same once consistent has =
      absurd ((same f).0 (inl refl))
  merge_order no_graph zero_bytes (f ∷ fs) (g ∷ gs) root fingerprint same once consistent has =
      record {
        version = ap versioned held;
        built_at = same_built_at (f ∷ fs) (g ∷ gs) same once consistent;
        index_kinds = same_kinds (f ∷ fs) (g ∷ gs) same;
        model_tag = same_model_tag (f ∷ fs) (g ∷ gs) same once consistent;
        freshness =
            ap
              (λ (x : Text).
                freshness_at (versioned x) root
                  (elim (filled fingerprint) [ none ↦ x | some given ↦ given ]))
              held;
        cardinality = ap (or_zero (λ x. x.cardinality) 0) level;
        resolvable_count = ap (or_zero (λ x. x.resolvable_count) 0) level;
        average_block_bytes = ap (or_zero (λ x. x.average_block_bytes) zero_bytes) level;
        columns = same_columns (f ∷ fs) (g ∷ gs) same once consistent;
        time = same_time (f ∷ fs) (g ∷ gs) same once consistent;
        terms =
            ap (λ (t : Option TermStats). elim t [ none ↦ no_terms | some x ↦ x ])
              (same_terms (f ∷ fs) (g ∷ gs) same once consistent);
        graph =
            ap (λ (t : Option G). elim t [ none ↦ no_graph | some x ↦ x ])
              (same_graph (f ∷ fs) (g ∷ gs) same once consistent);
        vectors = same_vectors (f ∷ fs) (g ∷ gs) same once consistent;
      }
    where
      level : (gather (f ∷ fs) nothing).module_level ≡ (gather (g ∷ gs) nothing).module_level
      level = same_module (f ∷ fs) (g ∷ gs) same once consistent

      held :
          leaf f (gather (f ∷ fs) nothing).module_level
          ≡ leaf g (gather (g ∷ gs) nothing).module_level
      held = same_leaf (f ∷ fs) (g ∷ gs) same once consistent f g (inl refl) (inl refl) has

      versioned : Text → StatsVersion
      versioned x = record { root = root; leaf_fingerprint = x; schema = catalog_schema }
