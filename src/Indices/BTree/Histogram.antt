-- ===== src/Indices/BTree/Histogram.antt =====
-- btree.py, `_fragment_extra`: the equi-depth histogram that the planner reads.
use vitruvio.Prelude.{
  ℕ, zero, suc, ◌+◌, ◌*◌, ◌-◌, ◌/◌, ◌≤◌, ◌<◌, List, [], ◌∷◌, ◌++◌, Option, none, some, map, length,
  take, drop, get_elem?, length-take, length-drop, length-append, length-map, ap, ◌∙◌, Text, max,
  ◌≡◌, refl, arith,
}
use vitruvio.Indices.BTree.{at}
use vitruvio.Stats.{TimeStats}

abbrev pub histogram_buckets : ℕ
histogram_buckets = 32

-- the loop over range(0, count, per_bucket): the first value and the size of each chunk
pub chunks : ℕ → ℕ → List Text → List (Text × ℕ)
chunks zero per values = []
chunks (suc fuel) per [] = []
chunks (suc fuel) per (v ∷ values) =
    (v, length (take per (v ∷ values))) ∷ chunks fuel per (drop per (v ∷ values))

unfoldable pub histogram : List Text → Option TimeStats
unfolding chunks
histogram [] = none
histogram (v ∷ rest) =
    let values = v ∷ rest in
    let count = length values in
    let buckets = chunks count (max 1 (count / histogram_buckets)) values in
    let last = at values (count - 1) in
    some (record {
      minimum = v;
      maximum = last;
      boundaries = map (λ (b : Text × ℕ). b.0) buckets ++ last ∷ [];
      counts = map (λ (b : Text × ℕ). b.1) buckets;
      timed_count = count;
    })

abbrev pub sum : List ℕ → ℕ
sum [] = 0
sum (n ∷ ns) = n + sum ns

length-take-drop :
    (per : ℕ) (xs : List Text) → length (take per xs) + length (drop per xs) ≡ length xs
length-take-drop zero xs = omega arith
length-take-drop (suc per) [] = refl
length-take-drop (suc per) (x ∷ xs) = omega (arith, length-take-drop per xs)

get_elem?-append :
    (xs ys : List Text) (i : ℕ) → i < length xs → get_elem? (xs ++ ys) i ≡ get_elem? xs i
get_elem?-append [] ys i h = absurd (omega arith)
get_elem?-append (x ∷ xs) ys zero h = refl
get_elem?-append (x ∷ xs) ys (suc i) h = get_elem?-append xs ys i (omega arith)

get_elem?-drop : (per i : ℕ) (xs : List Text) → get_elem? (drop per xs) i ≡ get_elem? xs (i + per)
get_elem?-drop zero i xs = ap (get_elem? xs) (omega arith)
get_elem?-drop (suc per) i [] = refl
get_elem?-drop (suc per) i (x ∷ xs) =
    let e : i + suc per ≡ suc (i + per) = omega arith in rw e (get_elem?-drop per i xs)

module _ (per : ℕ) (positive : 1 ≤ per) where
  rest_short :
      (fuel : ℕ) (v : Text) (values : List Text)
      → length (v ∷ values) ≤ suc fuel
      → length (drop per (v ∷ values)) ≤ fuel
  rest_short fuel v values h = omega (arith, length-drop per (v ∷ values))

  chunks-sum :
      (fuel : ℕ) (values : List Text)
      → length values ≤ fuel
      → sum (map (λ (b : Text × ℕ). b.1) (chunks fuel per values)) ≡ length values
  unfolding chunks
  chunks-sum zero [] h = refl
  chunks-sum zero (v ∷ values) h = absurd (omega arith)
  chunks-sum (suc fuel) [] h = refl
  chunks-sum (suc fuel) (v ∷ values) h = omega (
    arith,
    length-take-drop per (v ∷ values),
    chunks-sum fuel (drop per (v ∷ values)) (rest_short fuel v values h),
  )

  -- The first value of the i-th chunk is the value at i * per, and a chunk that is there is not
  -- empty and has at most per values.
  chunks-get_elem? :
      (fuel i : ℕ) (values : List Text)
      → length values ≤ fuel
      → (get_elem? (map (λ (b : Text × ℕ). b.0) (chunks fuel per values)) i
          ≡ get_elem? values (i * per))
        × ((n : ℕ)
            → get_elem? (map (λ (b : Text × ℕ). b.1) (chunks fuel per values)) i ≡ some n
            → (1 ≤ n) × (n ≤ per))
  unfolding chunks
  chunks-get_elem? zero i [] h = (refl, λ n e. cc)
  chunks-get_elem? zero i (v ∷ values) h = absurd (omega arith)
  chunks-get_elem? (suc fuel) i [] h = (refl, λ n e. cc)
  chunks-get_elem? (suc fuel) zero (v ∷ values) h =
      let z : 0 * per ≡ 0 = omega arith in
      (rw z refl, λ n e. ground (arith, length-take per (v ∷ values)))
  chunks-get_elem? (suc fuel) (suc i) (v ∷ values) h =
      let ih = chunks-get_elem? fuel i (drop per (v ∷ values)) (rest_short fuel v values h) in
      let e : suc i * per ≡ i * per + per = grind arith in
      (rw e (ih.0 ∙ get_elem?-drop per (i * per) (v ∷ values)), ih.1)

-- The size of a bucket.
abbrev pub per_bucket : List Text → ℕ
per_bucket values = max 1 (length values / histogram_buckets)

-- Every value is counted once, there is one more boundary than there are counts, the i-th
-- boundary, but for the last, is the value at the i-th multiple of the bucket size, and each
-- bucket holds at least one value and at most the bucket size.
abbrev pub Depicts : List Text → TimeStats → Type 0
Depicts values stats =
    (sum stats.counts ≡ length values)
    × (length stats.boundaries ≡ length stats.counts + 1)
    × ((i : ℕ)
        → i < length stats.counts
        → get_elem? stats.boundaries i ≡ get_elem? values (i * per_bucket values))
    × ((i n : ℕ) → get_elem? stats.counts i ≡ some n → (1 ≤ n) × (n ≤ per_bucket values))

-- A key with values has a histogram: its counts add up to the number of the values, there is one
-- more boundary than there are counts, the i-th boundary, but for the last, is the value at the
-- i-th multiple of the bucket size, and each bucket holds at least one value and at most the
-- bucket size.
pub histogram_exact :
    (v : Text) (rest : List Text)
    → (stats : TimeStats) × (histogram (v ∷ rest) ≡ some stats) × Depicts (v ∷ rest) stats
unfolding histogram
histogram_exact v rest = (
  _,
  refl,
  (
    chunks-sum per positive count values (omega arith),
    omega (
      arith,
      length-append firsts (at values (count - 1) ∷ []),
      length-map (λ (b : Text × ℕ). b.0) buckets,
      length-map (λ (b : Text × ℕ). b.1) buckets,
    ),
    λ i h.
        get_elem?-append firsts (at values (count - 1) ∷ []) i (
          omega (
            arith,
            h,
            length-map (λ (b : Text × ℕ). b.0) buckets,
            length-map (λ (b : Text × ℕ). b.1) buckets,
          ))
        ∙ (chunks-get_elem? per positive count i values (omega arith)).0,
    λ i n e. (chunks-get_elem? per positive count i values (omega arith)).1 n e,
  ),
)
  where
    values : List Text
    values = v ∷ rest

    count : ℕ
    count = length values

    per : ℕ
    per = max 1 (count / histogram_buckets)

    buckets : List (Text × ℕ)
    buckets = chunks count per values

    firsts : List Text
    firsts = map (λ (b : Text × ℕ). b.0) buckets

    positive : 1 ≤ per
    positive = omega arith
