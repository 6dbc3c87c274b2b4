-- ===== src/Indices/BTree/Bisect.antt =====
-- btree.py over `bisect`: on a sorted list the halving finds the boundary of its test.
use vitruvio.Prelude.{
  ℕ, zero, suc, ◌+◌, ◌-◌, ◌/◌, ◌≤◌, ◌<◌, ltb, List, Bool, true, false, some, length, get_elem?,
  get_elem?-some, Text, le_text, text_ord, text_trans, IsSorted, IsSorted-get_elem?, ◌≡◌, arith,
  Bool-cases, inl, inr, dec_le, dec_lt,
}
use vitruvio.Indices.BTree.{at, bisect, bisect_left, bisect_right, lt_text}

at-get_elem? :
    (values : List Text) (i : ℕ) → i < length values → get_elem? values i ≡ some (at values i)
at-get_elem? values i h = let (v, e) = get_elem?-some values i h in ground arith

-- `r` splits the range: the test holds below it and fails from it on.
pub record Splits (right : Text → Bool) (values : List Text) (lo hi r : ℕ) : Type 0 where
  pub above_lo : lo ≤ r
  pub below_hi : r ≤ hi
  pub holds : (i : ℕ) → lo ≤ i → i < r → right (at values i) ≡ true
  pub fails : (i : ℕ) → r ≤ i → i < hi → right (at values i) ≡ false

-- The test holds at a position if it holds at a later one.
module _ (right : Text → Bool) (values : List Text) (n : ℕ)
    (down : (i j : ℕ)
      → i ≤ j
      → j < n
      → right (at values j) ≡ true
      → right (at values i) ≡ true) where
  pub bisect-Splits :
      (fuel lo hi : ℕ)
      → lo ≤ hi
      → hi ≤ n
      → hi ≤ lo + fuel
      → Splits right values lo hi (bisect right values fuel lo hi)
  unfolding bisect
  bisect-Splits zero lo hi h k f = record {
    above_lo = omega arith;
    below_hi = omega arith;
    holds = λ i p q. absurd (omega arith);
    fails = λ i p q. absurd (omega arith);
  }
  bisect-Splits (suc fuel) lo hi h k f = elim (Bool-cases (ltb lo hi)) [
    | inr e ↦ rw e (record {
      above_lo = omega arith;
      below_hi = omega arith;
      holds = λ i p q. absurd (omega arith);
      fails = λ i p q. absurd (ground arith);
    })
    | inl e ↦ elim (Bool-cases (right (at values mid))) [
      | inl g ↦
          let ih = bisect-Splits fuel (mid + 1) hi (ground arith) k (ground arith) in
          rw (e, g) (after_mid g (ground arith) ih)
      | inr g ↦
          let ih = bisect-Splits fuel lo mid (ground arith) (ground arith) (ground arith) in
          rw (e, g) (before_mid g (ground arith) ih)
    ]
  ]
    where
      mid : ℕ
      mid = (lo + hi) / 2

      after_mid :
          right (at values mid) ≡ true
          → (lo ≤ mid) × (mid < hi)
          → Splits right values (mid + 1) hi (bisect right values fuel (mid + 1) hi)
          → Splits right values lo hi (bisect right values fuel (mid + 1) hi)
      after_mid g m s = record {
        above_lo = omega (arith, s.above_lo);
        below_hi = s.below_hi;
        holds = λ i p q. elim (dec_le i mid) [
          | yes c ↦ down i mid c (omega arith) g
          | no c ↦ s.holds i (omega arith) q
        ];
        fails = s.fails;
      }

      before_mid :
          right (at values mid) ≡ false
          → (lo ≤ mid) × (mid < hi)
          → Splits right values lo mid (bisect right values fuel lo mid)
          → Splits right values lo hi (bisect right values fuel lo mid)
      before_mid g m s = record {
        above_lo = s.above_lo;
        below_hi = omega (arith, s.below_hi);
        holds = s.holds;
        fails = λ i p q. elim (dec_lt i mid) [
          | yes c ↦ s.fails i p c
          | no c ↦ elim (Bool-cases (right (at values i))) [
            | inl t ↦ cc (g, down mid i (omega arith) (omega arith) t)
            | inr t ↦ t
          ]
        ];
      }

-- On a sorted list of values.
module _ (values : List Text) (sorted : IsSorted le_text values) where
  ordered : (i j : ℕ) → i ≤ j → j < length values → le_text (at values i) (at values j) ≡ true
  ordered i j h k =
      IsSorted-get_elem? text_ord values i j (at values i) (at values j) sorted
        (at-get_elem? values i (omega arith)) (at-get_elem? values j k) h

  below_down :
      (x : Text) (i j : ℕ)
      → i ≤ j
      → j < length values
      → lt_text (at values j) x ≡ true
      → lt_text (at values i) x ≡ true
  below_down x i j h k e = ground (arith, ordered i j h k, text_trans x (at values i) (at values j))

  -- bisect_left: what stands before the result is less than x, and the rest is not.
  pub bisect_left-Splits :
      (x : Text) (lo hi : ℕ)
      → lo ≤ hi
      → hi ≤ length values
      → Splits (λ v. lt_text v x) values lo hi (bisect_left values x lo hi)
  unfolding bisect_left
  bisect_left-Splits x lo hi h k =
      bisect-Splits (λ v. lt_text v x) values (length values) (below_down x) (hi - lo) lo hi h k
        (omega arith)

  -- bisect_right: what stands before the result is at most x, and the rest is not.
  pub bisect_right-Splits :
      (x : Text) (lo hi : ℕ)
      → lo ≤ hi
      → hi ≤ length values
      → Splits (λ v. le_text v x) values lo hi (bisect_right values x lo hi)
  unfolding bisect_right
  bisect_right-Splits x lo hi h k =
      bisect-Splits (λ v. le_text v x) values (length values)
        (λ i j p q e. text_trans (at values i) (at values j) x (ordered i j p q) e) (hi - lo) lo hi
        h k (omega arith)
