-- ===== src/Stats/Merge/Gathering.antt =====
-- fragment.py, `merge`: what the loop over the fragments gathers.
use vitruvio.Prelude.{
  if◌then◌else◌, List, [], ◌∷◌, Option, none, some, map, In, Distinct, keys, Text, text_eq, lookup,
  ◌≡◌, ◌∙◌, inl, inr, refl, ap, Bool-cases,
}
use vitruvio.Stats.Merge.{Fragment, Fields, gather, gather_one, or_held, filled}
use vitruvio.Stats.Merge.Latest.{latest, Agree, latest_time, lookup-updated}

module _ {G V F : Type 0} where
  abbrev pub module_of : Fragment G V F → Option (Fragment G V F)
  module_of f = if f.module_level then some f else none

  -- No field is contributed by two fragments that differ in it.
  pub record IsConsistent (fs : List (Fragment G V F)) : Type 0 where
    pub columns : (key : Text) → Agree (λ f. lookup f.columns key) fs
    pub time : (key : Text) → Agree (λ f. lookup f.time key) fs
    pub vectors : (key : Text) → Agree (λ f. lookup f.vectors key) fs
    pub terms : Agree (λ f. f.terms) fs
    pub graph : Agree (λ f. f.graph) fs
    pub model_tag : Agree (λ f. filled f.model_tag) fs
    pub module_level : Agree module_of fs

  -- Each dictionary has a key once.
  abbrev pub HasKeys : List (Fragment G V F) → Type 0
  HasKeys fs =
      (f : Fragment G V F)
      → In f fs
      → Distinct (keys f.columns) × Distinct (keys f.time) × Distinct (keys f.vectors)

  -- What the loop gathers, as the latest of what the fragments give.
  pub record IsLatest (fs : List (Fragment G V F)) (held level : Fields G V F) : Type 0 where
    pub columns :
        (key : Text)
        → lookup level.columns key ≡ latest (λ f. lookup f.columns key) fs (lookup held.columns key)
    pub time :
        (key : Text)
        → lookup level.time key ≡ latest (λ f. lookup f.time key) fs (lookup held.time key)
    pub vectors :
        (key : Text)
        → lookup level.vectors key ≡ latest (λ f. lookup f.vectors key) fs (lookup held.vectors key)
    pub terms : level.terms ≡ latest (λ f. f.terms) fs held.terms
    pub graph : level.graph ≡ latest (λ f. f.graph) fs held.graph
    pub model_tag : level.model_tag ≡ latest (λ f. filled f.model_tag) fs held.model_tag
    pub module_level : level.module_level ≡ latest module_of fs held.module_level
    pub built_at :
        level.built_at ≡ latest_time (map (λ (f : Fragment G V F). f.built_at) fs) held.built_at

  pub gather-IsLatest :
      (fs : List (Fragment G V F)) (held : Fields G V F)
      → HasKeys fs
      → IsLatest fs held (gather fs held)
  unfolding gather
  gather-IsLatest [] held h = record {
    columns = λ key. refl;
    time = λ key. refl;
    vectors = λ key. refl;
    terms = refl;
    graph = refl;
    model_tag = refl;
    module_level = refl;
    built_at = refl;
  }
  gather-IsLatest (f ∷ fs) held h =
      let ih = gather-IsLatest fs (gather_one f held) (λ g m. h g (inr m)) in
      let (columns_once, time_once, vectors_once) = h f (inl refl) in
      record {
        columns = λ key.
            ih.columns key
            ∙ ap (latest (λ g. lookup g.columns key) fs)
                (lookup-updated held.columns f.columns key columns_once);
        time = λ key.
            ih.time key
            ∙ ap (latest (λ g. lookup g.time key) fs)
                (lookup-updated held.time f.time key time_once);
        vectors = λ key.
            ih.vectors key
            ∙ ap (latest (λ g. lookup g.vectors key) fs)
                (lookup-updated held.vectors f.vectors key vectors_once);
        terms = ih.terms;
        graph = ih.graph;
        model_tag = ih.model_tag;
        module_level = ih.module_level ∙ ap (latest module_of fs) (chosen f held.module_level);
        built_at = ih.built_at;
      }
    where
      chosen :
          (f : Fragment G V F) (x : Option (Fragment G V F))
          → (if f.module_level then some f else x) ≡ or_held (module_of f) x
      chosen f x = elim (Bool-cases f.module_level) [ inl e ↦ rw e refl | inr e ↦ rw e refl ]
