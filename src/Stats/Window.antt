-- ===== src/Stats/Window.antt =====
-- catalog.py, `range_selectivity` over the histogram that btree.py measures.
use vitruvio.Prelude.{
  ◌⊎◌, ◌==◌, ℕ, suc, ◌+◌, ◌≤◌, List, [], ◌∷◌, Option, none, some, true, false, ◌||◌, is_nil, min,
  Text, le_text, text_trans, ◌≡◌, dec_le, refl, arith, Bool-cases, inl, inr,
}
use vitruvio.Stats.{
  TimeStats, bucket, matched, range_selectivity, bound_lt, lt_bound, starts_after, ends_before,
}

abbrev pub sum : List ℕ → ℕ
sum [] = 0
sum (n ∷ ns) = n + sum ns

-- The value is within a window; an empty bound is none.
abbrev pub InWindow : Option Text → Option Text → Text → Type 0
InWindow low high v = (lt_bound v low ≡ false) × (bound_lt high v ≡ false)

matched-le :
    (t : TimeStats) (low high : Option Text) (i : ℕ) (counts : List ℕ)
    → matched t low high i counts ≤ sum counts
unfolding matched bucket
matched-le t low high i [] = omega arith
matched-le t low high i (n ∷ ns) = ground (arith, matched-le t low high (suc i) ns)

matched-open : (t : TimeStats) (i : ℕ) (counts : List ℕ) → matched t none none i counts ≡ sum counts
unfolding matched bucket
matched-open t i [] = refl
matched-open t i (n ∷ ns) = ground (arith, matched-open t (suc i) ns)

nil_of : (ns : List ℕ) → is_nil ns ≡ true → ns ≡ []
nil_of [] h = refl
nil_of (n ∷ ns) h = cc

-- A window that misses the range of the values holds none of them.
misses :
    (t : TimeStats) (low high : Option Text) (v : Text)
    → starts_after low t.maximum || ends_before high t.minimum ≡ true
    → le_text t.minimum v ≡ true
    → le_text v t.maximum ≡ true
    → ¬ InWindow low high v
misses t none none v h a b w = ground arith
misses t (some l) none v h a b w = ground (arith, text_trans l v t.maximum)
misses t none (some u) v h a b w = ground (arith, text_trans t.minimum v u)
misses t (some l) (some u) v h a b w =
    ground (arith, text_trans l v t.maximum, text_trans t.minimum v u)

-- An estimate over a window is at most the number of blocks in the module and the number of values
-- counted; without bounds it is the less of the two, if the number of blocks that carry the key is
-- the number counted; and if it is exact then no value from the minimum to the maximum is in the
-- window, unless no value was counted at all.
pub range_selectivity_exact :
    (t : TimeStats) (low high : Option Text) (cardinality : ℕ)
    → ((range_selectivity t low high cardinality).rows ≤ cardinality)
      × ((range_selectivity t low high cardinality).rows ≤ sum t.counts)
      × ((t.timed_count ≡ sum t.counts)
          → (range_selectivity t none none cardinality).rows ≡ min cardinality (sum t.counts))
      × ((range_selectivity t low high cardinality).exact ≡ true
          → (t.timed_count ≡ 0)
            ⊎ (t.counts ≡ [])
            ⊎ ((v : Text)
                → le_text t.minimum v ≡ true
                → le_text v t.maximum ≡ true
                → ¬ InWindow low high v))
unfolding range_selectivity
range_selectivity_exact t low high cardinality = (bounded.0, bounded.1, unbounded, bounded.2)
  where
    unbounded :
        t.timed_count ≡ sum t.counts
        → (range_selectivity t none none cardinality).rows ≡ min cardinality (sum t.counts)
    unbounded h = ground (arith, matched-open t 0 t.counts)

    none_counted :
        t.timed_count == 0 || is_nil t.counts ≡ true
        → (t.timed_count ≡ 0)
          ⊎ (t.counts ≡ [])
          ⊎ ((v : Text)
              → le_text t.minimum v ≡ true
              → le_text v t.maximum ≡ true
              → ¬ InWindow low high v)
    none_counted e = elim (dec_le t.timed_count 0) [
      | yes p ↦ inl (omega arith)
      | no p ↦ inr (inl (nil_of t.counts (ground arith)))
    ]

    bounded :
        ((range_selectivity t low high cardinality).rows ≤ cardinality)
        × ((range_selectivity t low high cardinality).rows ≤ sum t.counts)
        × ((range_selectivity t low high cardinality).exact ≡ true
            → (t.timed_count ≡ 0)
              ⊎ (t.counts ≡ [])
              ⊎ ((v : Text)
                  → le_text t.minimum v ≡ true
                  → le_text v t.maximum ≡ true
                  → ¬ InWindow low high v))
    bounded = elim (Bool-cases (t.timed_count == 0 || is_nil t.counts)) [
      | inl e ↦ rw e (omega arith, omega arith, λ _. none_counted e)
      | inr e ↦ elim (Bool-cases (starts_after low t.maximum || ends_before high t.minimum)) [
        | inl f ↦
            rw (e, f) (omega arith, omega arith, λ _. inr (inr λ v a b. misses t low high v f a b))
        | inr f ↦
            rw (e, f)
              (
                omega arith,
                omega (arith, matched-le t low high 0 t.counts),
                λ h. absurd (ground arith),
              )
      ]
    ]
