-- ===== src/Stats/Selectivity.antt =====
-- catalog.py, `ColumnStats.selectivity`: what an exact estimate says.
use vitruvio.Prelude.{
  ℕ, ◌≤◌, [], ◌∷◌, none, some, true, false, length, length-map, Text, text_eq, text_discrete, Dict,
  get_or, keys, In, In-key, In-lookup, In-cases, lookup-none_of, Distinct, length-le_of_subset, ◌≡◌,
  inl, inr, sym, ap, subst, arith, Option-cases,
}
use vitruvio.Stats.{ColumnStats, counted, selectivity}

-- The statistics describe a column with these counts, each value once: `top` holds some of them.
abbrev pub Describes : ColumnStats → Dict Text ℕ → Type 0
Describes c counts =
    Distinct (keys counts)
    × Distinct (keys c.top)
    × ((v : Text) (n : ℕ) → In (v, n) c.top → In (v, n) counts)
    × (c.distinct ≡ length counts)

counted-In : (top : Dict Text ℕ) (v : Text) (n : ℕ) → counted top v ≡ some n → In (v, n) top
unfolding counted
counted-In [] v n e = absurd (ground arith)
counted-In ((w, k) ∷ top) v n e = ground (arith, counted-In top v n)

counted-none : (top : Dict Text ℕ) (v : Text) → counted top v ≡ none → ¬ In v (keys top)
unfolding counted
counted-none [] v e m = m
counted-none ((w, k) ∷ top) v e m = ground (arith, counted-none top v)

pub key_value : (d : Dict Text ℕ) (v : Text) → In v (keys d) → (n : ℕ) × In (v, n) d
key_value [] v m = absurd m
key_value ((w, n) ∷ d) v (inl e) = (n, inl (ap (λ (x : Text). (x, n)) e))
key_value ((w, n) ∷ d) v (inr m) = let (k, h) = key_value d v m in (k, inr h)

-- As many keys as there are counts: each value is among them.
pub all_listed :
    (c : ColumnStats) (counts : Dict Text ℕ) (v : Text)
    → Describes c counts
    → c.distinct ≤ length c.top
    → In v (keys counts)
    → In v (keys c.top)
all_listed c counts v (dc, dt, sub, e) h m = elim (In-cases (keys c.top) v) [
  | inl n ↦ n
  | inr n ↦ absurd (
      omega (
        arith,
        length-le_of_subset text_discrete (v ∷ keys c.top) (keys counts) (n, dt) within dc,
        length-map (λ (x : Text × ℕ). x.0) counts,
        length-map (λ (x : Text × ℕ). x.0) c.top,
      ))
]
  where
    within : (x : Text) → In x (v ∷ keys c.top) → In x (keys counts)
    within x (inl f) = subst (λ y. In y (keys counts)) (sym f) m
    within x (inr k) = let (n, g) = key_value c.top x k in In-key counts x n (sub x n g)

-- If the statistics describe a column, an exact estimate is the number of its blocks with the
-- value, also if that is none, and any other estimate is at most the number of blocks in the
-- module.
pub selectivity_exact :
    (c : ColumnStats) (counts : Dict Text ℕ) (v : Text) (cardinality : ℕ)
    → Describes c counts
    → ((selectivity c v cardinality).exact ≡ true
        → (selectivity c v cardinality).rows ≡ get_or counts v 0)
      × ((selectivity c v cardinality).exact ≡ false
          → (selectivity c v cardinality).rows ≤ cardinality)
unfolding selectivity
selectivity_exact c counts v cardinality w = elim (Option-cases (counted c.top v)) [
  | inr (n, e) ↦ ground (arith, In-lookup counts v n w.0 (w.2 v n (counted-In c.top v n e)))
  | inl e ↦ ground (arith, lookup-none_of counts v, all_listed c counts v w, counted-none c.top v e)
]
