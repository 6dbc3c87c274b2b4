-- ===== src/Planner/Fusion/Ranking.antt =====
-- fusion.py, `fuse` and `normalize`: every candidate is ranked once, the best first.
use vitruvio.Prelude.{
  ℕ, Bool, if◌then◌else◌, ◌+◌, ◌<◌, ◌==◌, zero, suc, All-In, In-get_elem?, text_eq, ◌⊎◌, refl, List,
  [], ◌∷◌, foldl, get_or, get_elem?, le_text, some, true, false, map, In-sort, IsSorted,
  IsSorted-sort, In, In-map_of, In-map_inv, In-map_of, length, length-map, length-sort, Text,
  text_total, text_trans, Dict, values, ◌≡◌, ◌↔◌, ◌∙◌, ap, sym, subst, arith,
}
use vitruvio.Planner.Fusion.{Candidate, Floats, weighted, score_of, le_scored, fuse}

-- What the ranking relies on: the floats compared are no NaN, so that their order is total.
pub record IsOrdered {F : Type 0} (floats : Floats F) : Type 0 where
  pub total : (x y : F) → floats.le x y ≡ false → floats.le y x ≡ true
  pub trans : (x y z : F) → floats.le x y ≡ true → floats.le y z ≡ true → floats.le x z ≡ true

-- an entry of an ordered list against a later one
IsSorted-before :
    {A : Type 0} (le : A → A → Bool) (xs : List A) (i j : ℕ) (x y : A)
    → IsSorted le xs
    → get_elem? xs i ≡ some x
    → get_elem? xs j ≡ some y
    → i < j
    → le x y ≡ true
IsSorted-before le [] i j x y s g h l = cc
IsSorted-before le (z ∷ xs) i zero x y s g h l = absurd (omega (arith, l))
IsSorted-before le (z ∷ xs) zero (suc j) x y s g h l =
    let e : z ≡ x = cc in
    subst (λ b. le b y ≡ true) e (All-In (λ b. le z b ≡ true) y xs s.0 (In-get_elem? xs j y h))
IsSorted-before le (z ∷ xs) (suc i) (suc j) x y s g h l =
    IsSorted-before le xs i j x y s.1 g h (omega (arith, l))

module _ {F : Type 0} (floats : Floats F) where
  -- what a generator's rank is worth to a candidate
  abbrev share : Dict Text F → ℕ → Text × ℕ → F
  share weights k (generator, rank) =
      floats.div (get_or weights generator floats.half) (floats.of_nat (k + rank))

  -- The score of a candidate: the sum of its shares, times the decay to the power of the depth where
  -- it has one, and one more if it is exact.
  abbrev pub IsScore : Dict Text F → ℕ → F → Candidate F → F → Type 0
  IsScore weights k decay c s =
      (total : F) × (near : F) × (total
        ≡ foldl floats.add floats.zero (map (share weights k) c.ranks))
      × (((c.depth ≡ 0) × (near ≡ total))
          ⊎ ((0 < c.depth) × (near ≡ floats.mul total (floats.pow decay c.depth))))
      × (((c.exact ≡ true) × (s ≡ floats.add near floats.one)) ⊎ ((c.exact ≡ false) × (s ≡ near)))

  -- The better score comes first; of two equal ones the smaller depth; of two as deep the identity
  -- that is smaller as a text.
  abbrev pub IsAhead : Candidate F × F → Candidate F × F → Type 0
  IsAhead (c, s) (d, t) =
      (floats.le s t ≡ false)
      ⊎ ((floats.le s t ≡ true)
          × (floats.le t s ≡ true)
          × ((c.depth < d.depth) ⊎ ((c.depth ≡ d.depth) × (le_text c.block_id d.block_id ≡ true))))

  le_scored-IsAhead : (x y : Candidate F × F) → le_scored floats x y ≡ true → IsAhead x y
  le_scored-IsAhead (c, s) (d, t) h = ground (arith, h)

  weighted_sum :
      (weights : Dict Text F) (k : ℕ) (ranks : Dict Text ℕ) (total : F)
      → weighted floats weights k ranks total ≡ foldl floats.add total (map (share weights k) ranks)
  unfolding weighted
  weighted_sum weights k [] total = refl
  weighted_sum weights k ((generator, rank) ∷ ranks) total = weighted_sum weights k ranks _

  score_lem :
      (weights : Dict Text F) (k : ℕ) (decay : F) (c : Candidate F) (s : F)
      → (s ≡ score_of floats weights k decay c) ↔ IsScore weights k decay c s
  unfolding score_of
  score_lem weights k decay c s = (
    λ q. (
      weighted floats weights k c.ranks floats.zero,
      (if c.depth == 0
          then weighted floats weights k c.ranks floats.zero
          else floats.mul (weighted floats weights k c.ranks floats.zero)
              (floats.pow decay c.depth)),
      sum,
      ground arith,
      ground (arith, q),
    ),
    λ (total, near, t, n, e). ground (arith, sum, t, n, e),
  )
    where
      sum :
          weighted floats weights k c.ranks floats.zero
          ≡ foldl floats.add floats.zero (map (share weights k) c.ranks)
      sum = weighted_sum weights k c.ranks floats.zero

module _ {F : Type 0} (floats : Floats F) (ordered : IsOrdered floats) where
  abbrev Scored : Type 0
  Scored = Candidate F × F

  le_scored_total : (x y : Scored) → le_scored floats x y ≡ false → le_scored floats y x ≡ true
  le_scored_total (a, s) (b, t) h =
      ground (arith, ordered.total s t, ordered.total t s, text_total a.block_id b.block_id)

  le_scored_trans :
      (x y z : Scored)
      → le_scored floats x y ≡ true
      → le_scored floats y z ≡ true
      → le_scored floats x z ≡ true
  le_scored_trans (a, s) (b, t) (c, u) h g = ground (
    arith,
    ordered.trans s t u,
    ordered.trans u t s,
    ordered.trans t u s,
    ordered.trans u s t,
    ordered.trans t s u,
    ordered.trans s u t,
    text_trans a.block_id b.block_id c.block_id,
    text_trans c.block_id b.block_id a.block_id,
    text_trans b.block_id c.block_id a.block_id,
    text_trans c.block_id a.block_id b.block_id,
  )

  pub fuse-In :
      (candidates : Dict Text (Candidate F)) (weights : Dict Text F) (k : ℕ) (decay : F)
      (c : Candidate F) (s : F)
      → In (c, s) (fuse floats candidates weights k decay)
        ↔ (In c (values candidates) × (s ≡ score_of floats weights k decay c))
  unfolding fuse
  fuse-In candidates weights k decay c s = (
    λ m.
        let (d, n, e) =
          In-map_inv scored (c, s) (values candidates)
            ((In-sort (le_scored floats) (c, s) _).0 m) in
        (
          subst (λ x. In x (values candidates)) (ap (λ (y : Scored). y.0) e) n,
          sym (ap (λ (y : Scored). y.1) e)
              ∙ ap (score_of floats weights k decay) (ap (λ (y : Scored). y.0) e),
        ),
    λ (m, e). (In-sort (le_scored floats) (c, s) _).1 (
        subst (λ x. In (c, x) (map scored (values candidates))) (sym e)
          (In-map_of scored c (values candidates) m)),
  )
    where
      scored : Candidate F → Scored
      scored c = (c, score_of floats weights k decay c)

  -- If the floats compared are ordered, fusion ranks each candidate with its score and nothing else,
  -- as many as there are, where the score is the sum of the weights over the ranks, less by the decay
  -- for each hop, and one more for an exact candidate. Of two entries the earlier one has the better
  -- score, or the same score and fewer hops, or both the same and the smaller identity.
  pub fuse_exact :
      (candidates : Dict Text (Candidate F)) (weights : Dict Text F) (k : ℕ) (decay : F)
      → ((c : Candidate F) (s : F)
          → In (c, s) (fuse floats candidates weights k decay)
            ↔ (In c (values candidates) × IsScore floats weights k decay c s))
        × (length (fuse floats candidates weights k decay) ≡ length candidates)
        × ((i j : ℕ) (x y : Candidate F × F)
            → get_elem? (fuse floats candidates weights k decay) i ≡ some x
            → get_elem? (fuse floats candidates weights k decay) j ≡ some y
            → i < j
            → IsAhead floats x y)
  unfolding fuse
  fuse_exact candidates weights k decay = (
    λ c s. (
      λ m.
          let (n, q) = (fuse-In candidates weights k decay c s).0 m in
          (n, (score_lem floats weights k decay c s).0 q),
      λ (n, w).
          (fuse-In candidates weights k decay c s).1
            (n, (score_lem floats weights k decay c s).1 w),
    ),
    omega (
      arith,
      length-sort (le_scored floats) (map scored (values candidates)),
      length-map scored (values candidates),
      length-map (λ (e : Text × Candidate F). e.1) candidates,
    ),
    λ i j x y g h l. le_scored-IsAhead floats x y (
        IsSorted-before (le_scored floats) _ i j x y
          (IsSorted-sort (le_scored floats) le_scored_total le_scored_trans
            (map scored (values candidates)))
          g h l),
  )
    where
      scored : Candidate F → Scored
      scored c = (c, score_of floats weights k decay c)
