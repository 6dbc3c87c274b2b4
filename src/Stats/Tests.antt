-- ===== src/Stats/Tests.antt =====
-- packages/stats: a small column and a small histogram, and the theorems at them.
use vitruvio.Prelude.{
  ◌*◌, ◌^◌, ◌<◌, length, In, keys, ℕ, ◌≤◌, [], ◌∷◌, none, some, true, false, min, Text, le_text,
  get_or, ◌≡◌, ◌↔◌, ◌⊎◌, refl, inl, inr, arith, text_eq, Dict,
}
use vitruvio.Stats.{StatsVersion, ColumnStats, selectivity, TimeStats, range_selectivity}
use vitruvio.Stats.Selectivity.{Describes, selectivity_exact}
use vitruvio.Stats.{TermStats, frequency}
use vitruvio.Stats.Growth.{Scale, GraphStats, expansion, expansion_bounds, Tallies, frequency_exact}
use vitruvio.Stats.Window.{InWindow, sum, range_selectivity_exact}

abbrev a : Text
a = 97 ∷ []

abbrev b : Text
b = 98 ∷ []

abbrev version : StatsVersion
version = record { root = some a; leaf_fingerprint = b; schema = 2 }

abbrev column : ColumnStats
column = record {
  distinct = 2;
  null_count = 0;
  populated_count = 4;
  total_values = 4;
  top = (a, 3) ∷ [];
  truncated = true;
}

abbrev counts : Dict Text ℕ
counts = (b, 1) ∷ (a, 3) ∷ []

column-Describes : Describes column counts
column-Describes = (
  ((λ m. elim m [ inl e ↦ absurd (ground arith) | inr n ↦ n ]), ((λ m. m), tt)),
  ((λ m. m), tt),
  (λ v n m. elim m [ inl e ↦ inr (inl e) | inr k ↦ absurd k ]),
  refl,
)

selectivity_exact_example :
    ((selectivity column a 4).exact ≡ true → (selectivity column a 4).rows ≡ get_or counts a 0)
    × ((selectivity column a 4).exact ≡ false → (selectivity column a 4).rows ≤ 4)
selectivity_exact_example = selectivity_exact column counts a 4 column-Describes

abbrev times : TimeStats
times = record {
  minimum = a;
  maximum = b;
  boundaries = a ∷ b ∷ b ∷ [];
  counts = 1 ∷ 1 ∷ [];
  timed_count = 2;
}

range_selectivity_exact_example :
    ((range_selectivity times (some b) none 9).rows ≤ 9)
    × ((range_selectivity times (some b) none 9).rows ≤ sum (1 ∷ 1 ∷ []))
    × ((times.timed_count ≡ sum (1 ∷ 1 ∷ []))
        → (range_selectivity times none none 9).rows ≡ min 9 (sum (1 ∷ 1 ∷ [])))
    × ((range_selectivity times (some b) none 9).exact ≡ true
        → (times.timed_count ≡ 0)
          ⊎ (times.counts ≡ [])
          ⊎ ((v : Text) → le_text a v ≡ true → le_text v b ≡ true → ¬ InWindow (some b) none v))
range_selectivity_exact_example = range_selectivity_exact times (some b) none 9

abbrev one : ℕ
one = 1

abbrev two : ℕ
two = 2

abbrev scale : Scale ℕ
scale = record { branching = λ x n. x ^ n; scaled = λ n x. n * x }

abbrev graph : GraphStats ℕ
graph = record { edges = 4; out_degree_mean = 2; reach_by_depth = 2 ∷ 3 ∷ [] }

expansion_bounds_example :
    ((expansion scale graph 2 1 9).rows ≤ 9)
    × ((expansion scale graph 2 1 9).exact ≡ true ↔ ((one ≡ 0) ⊎ (two ≡ 0) ⊎ (graph.edges ≡ 0)))
    × ((expansion scale graph 2 1 9).exact ≡ true → (expansion scale graph 2 1 9).rows ≡ 0)
    × ((expansion scale graph 2 1 9).confidence ≡ 75
        ↔ ((0 < 1) × (0 < 2) × (0 < graph.edges) × (1 ≤ length graph.reach_by_depth)))
expansion_bounds_example = expansion_bounds scale graph 2 1 9

abbrev terms : TermStats
terms = record { vocabulary = 2; document_frequency = (a, 3) ∷ []; tail_max_frequency = 1 }

-- "c", which no block has
abbrev unseen : Text
unseen = 99 ∷ []

terms-Tallies : Tallies terms counts
terms-Tallies = (
  column-Describes,
  λ v n m u. elim m [
    | inl e ↦ ground arith
    | inr k ↦ elim k [ inl e ↦ absurd (ground arith) | inr f ↦ absurd f ]
  ],
)

frequency_exact_example :
    (get_or counts unseen 0 ≤ frequency terms unseen)
    × (In unseen (a ∷ []) → frequency terms unseen ≡ get_or counts unseen 0)
    × (terms.vocabulary ≤ length terms.document_frequency
        → frequency terms unseen ≡ get_or counts unseen 0)
    × ((¬ In unseen (keys counts))
        → length terms.document_frequency < terms.vocabulary
        → frequency terms unseen ≡ terms.tail_max_frequency)
frequency_exact_example = frequency_exact terms counts unseen terms-Tallies
