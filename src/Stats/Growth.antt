-- ===== src/Stats/Growth.antt =====
-- catalog.py, `GraphStats` and `TermStats.frequency`: estimates of expansion and of frequency.
use vitruvio.Prelude.{
  ℕ, ◌-◌, ◌≤◌, ◌<◌, ◌==◌, if◌then◌else◌, List, none, some, true, false, ◌||◌, length, get_elem?,
  get_elem?-some, get_elem?-lt, min, Text, text_eq, Dict, lookup, get_or, keys, In, In-lookup,
  In-key, lookup-some-In, lookup-some_key, ◌≡◌, ◌↔◌, ◌⊎◌, inl, inr, dec_le, arith, Option-cases,
}
use vitruvio.Stats.{Estimate, measured, TermStats, frequency}
use vitruvio.Stats.Selectivity.{Describes, all_listed, key_value}

-- A depth or a number of seeds below zero is taken as zero.
pub record GraphStats (F : Type 0) : Type 0 where
  pub edges : ℕ
  pub out_degree_mean : F
  pub reach_by_depth : List F

-- max(1.0, x) ** n, and int(n * x)
pub record Scale (F : Type 0) : Type 0 where
  pub branching : F → ℕ → F
  pub scaled : ℕ → F → ℕ

unfoldable pub expansion : {F : Type 0} → Scale F → GraphStats F → ℕ → ℕ → ℕ → Estimate
expansion scale g seeds depth cardinality =
    if depth == 0 || (seeds == 0 || g.edges == 0)
    then measured 0
    else elim (get_elem? g.reach_by_depth (depth - 1)) [
      | some reach ↦ record {
        rows = min cardinality (scale.scaled seeds reach);
        exact = false;
        confidence = 75;
      }
      | none ↦ record {
        rows = min cardinality (scale.scaled seeds (scale.branching g.out_degree_mean depth));
        exact = false;
        confidence = 25;
      }
    ]

-- An expansion is at most the module; it is exact only if it is none, for want of depth, seeds
-- or edges; and any other is trusted as measured exactly if the depth was measured.
pub expansion_bounds :
    {F : Type 0} (scale : Scale F) (g : GraphStats F) (seeds depth cardinality : ℕ)
    → ((expansion scale g seeds depth cardinality).rows ≤ cardinality)
      × ((expansion scale g seeds depth cardinality).exact ≡ true
          ↔ ((depth ≡ 0) ⊎ (seeds ≡ 0) ⊎ (g.edges ≡ 0)))
      × ((expansion scale g seeds depth cardinality).exact ≡ true
          → (expansion scale g seeds depth cardinality).rows ≡ 0)
      × ((expansion scale g seeds depth cardinality).confidence ≡ 75
          ↔ ((0 < depth) × (0 < seeds) × (0 < g.edges) × (depth ≤ length g.reach_by_depth)))
unfolding expansion
expansion_bounds scale g seeds depth cardinality =
    elim (Option-cases (get_elem? g.reach_by_depth (depth - 1))) [
      | inl e ↦ ground (arith, beyond e)
      | inr (reach, e) ↦ ground (arith, get_elem?-lt g.reach_by_depth (depth - 1) reach e)
    ]
  where
    beyond : get_elem? g.reach_by_depth (depth - 1) ≡ none → length g.reach_by_depth ≤ depth - 1
    beyond e = elim (dec_le (length g.reach_by_depth) (depth - 1)) [
      | yes p ↦ p
      | no p ↦
          let (a, f) = get_elem?-some g.reach_by_depth (depth - 1) (omega arith) in
          absurd (ground arith)
    ]

-- The statistics tally the terms of an index with these frequencies: they list some of them, and
-- bound the others.
abbrev pub Tallies : TermStats → Dict Text ℕ → Type 0
Tallies t counts =
    Describes
      (record {
        distinct = t.vocabulary;
        null_count = 0;
        populated_count = 0;
        total_values = 0;
        top = t.document_frequency;
        truncated = false;
      })
      counts
    × ((v : Text) (n : ℕ)
        → In (v, n) counts
        → (¬ In v (keys t.document_frequency))
        → n ≤ t.tail_max_frequency)

-- If the statistics tally an index, the frequency of a term is a bound of its true frequency, and
-- is the true one if the term is listed or if every term of the index is; for a term that the
-- index has never seen, with some of its terms not listed, it is the bound of those.
pub frequency_exact :
    (t : TermStats) (counts : Dict Text ℕ) (term : Text)
    → Tallies t counts
    → (get_or counts term 0 ≤ frequency t term)
      × (In term (keys t.document_frequency) → frequency t term ≡ get_or counts term 0)
      × (t.vocabulary ≤ length t.document_frequency → frequency t term ≡ get_or counts term 0)
      × ((¬ In term (keys counts))
          → length t.document_frequency < t.vocabulary
          → frequency t term ≡ t.tail_max_frequency)
unfolding frequency
frequency_exact t counts term (w, tail) = elim (Option-cases (lookup t.document_frequency term)) [
  | inr (n, e) ↦
      let m = w.2 term n (lookup-some-In t.document_frequency term n e) in
      ground (arith, In-lookup counts term n w.0 m, In-key counts term n m)
  | inl e ↦ elim (Option-cases (lookup counts term)) [
    | inr (k, f) ↦ ground (
      arith,
      tail term k (lookup-some-In counts term k f) (unlisted e),
      unlisted e,
      lookup-some_key counts term k f,
      all_listed _ counts term w,
    )
    | inl f ↦ ground (arith, unlisted e)
  ]
]
  where
    unlisted : lookup t.document_frequency term ≡ none → ¬ In term (keys t.document_frequency)
    unlisted e m =
        let (n, k) = key_value t.document_frequency term m in
        ground (arith, In-lookup t.document_frequency term n w.1 k)
