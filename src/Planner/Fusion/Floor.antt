-- ===== src/Planner/Fusion/Floor.antt =====
-- fusion.py, EXACT_FLOOR: what an identity lookup found comes before everything else.
use vitruvio.Prelude.{
  ℕ, ◌<◌, true, false, get_elem?, some, In, In-get_elem?, Text, Dict, values, ◌≡◌, refl, ◌∙◌, sym,
  subst, arith, dec_lt,
}
use vitruvio.Planner.Fusion.{Candidate, Floats, score_of, fuse}
use vitruvio.Planner.Fusion.Ranking.{IsOrdered, IsAhead, fuse-In, fuse_exact}

-- One more than a score of at least zero is at least one.
pub record IsRaised {F : Type 0} (floats : Floats F) : Type 0 where
  pub raised :
      (x : F)
      → floats.le floats.zero x ≡ true
      → floats.le floats.one (floats.add x floats.one) ≡ true

module _ {F : Type 0} (floats : Floats F) where
  -- the score of a candidate's ranks and depth alone
  abbrev ranked : Dict Text F → ℕ → F → Candidate F → F
  ranked weights k decay c = score_of floats weights k decay (record c { exact = false })

  -- The score of a candidate's ranks and depth alone is at least zero and below one.
  abbrev pub IsBelowFloor : Dict Text (Candidate F) → Dict Text F → ℕ → F → Type 0
  IsBelowFloor candidates weights k decay =
      (c : Candidate F)
      → In c (values candidates)
      → (floats.le floats.zero (ranked weights k decay c) ≡ true)
        × (floats.le floats.one (ranked weights k decay c) ≡ false)

  score-exact :
      (weights : Dict Text F) (k : ℕ) (decay : F) (c : Candidate F)
      → c.exact ≡ true
      → score_of floats weights k decay c ≡ floats.add (ranked weights k decay c) floats.one
  unfolding score_of
  score-exact weights k decay c e = rw (e, score_of) refl

  score-ranked :
      (weights : Dict Text F) (k : ℕ) (decay : F) (c : Candidate F)
      → c.exact ≡ false
      → score_of floats weights k decay c ≡ ranked weights k decay c
  unfolding score_of
  score-ranked weights k decay c e = rw (e, score_of) refl

  module _ (ordered : IsOrdered floats) (above : IsRaised floats) where
    not-IsAhead :
        (d c : Candidate F) (t s : F)
        → floats.le floats.one s ≡ true
        → floats.le floats.one t ≡ false
        → ¬ IsAhead floats (d, t) (c, s)
    not-IsAhead d c t s high low ahead = ground (
      arith,
      high,
      low,
      ahead,
      ordered.total floats.one t,
      ordered.trans t floats.one s,
      ordered.trans floats.one s t,
    )

    -- If the floats compared are ordered, one more than a score of at least zero is at least one, and
    -- the score of each candidate's ranks and depth alone is at least zero and below one, then fusion
    -- puts every exact candidate before every one that is not exact.
    pub fuse_floor :
        (candidates : Dict Text (Candidate F)) (weights : Dict Text F) (k : ℕ) (decay : F) (i j : ℕ)
        (c d : Candidate F) (s t : F)
        → IsBelowFloor candidates weights k decay
        → get_elem? (fuse floats candidates weights k decay) i ≡ some (c, s)
        → get_elem? (fuse floats candidates weights k decay) j ≡ some (d, t)
        → c.exact ≡ true
        → d.exact ≡ false
        → i < j
    fuse_floor candidates weights k decay i j c d s t below g h e f =
        let (m, p) =
          (fuse-In floats ordered candidates weights k decay c s).0 (In-get_elem? _ i _ g) in
        let (n, q) =
          (fuse-In floats ordered candidates weights k decay d t).0 (In-get_elem? _ j _ h) in
        let high : floats.le floats.one s ≡ true =
          subst (λ x. floats.le floats.one x ≡ true) (sym (p ∙ score-exact weights k decay c e))
            (above.raised _ (below c m).0) in
        let low : floats.le floats.one t ≡ false =
          subst (λ x. floats.le floats.one x ≡ false) (sym (q ∙ score-ranked weights k decay d f))
            (below d n).1 in
        elim (dec_lt i j) [
          | yes l ↦ l
          | no ge ↦ elim (dec_lt j i) [
            | yes l ↦ absurd (
                not-IsAhead d c t s high low (
                  (fuse_exact floats ordered candidates weights k decay).2 j i (d, t) (c, s) h g l))
            | no le ↦
                let same : i ≡ j = omega (arith, ge, le) in
                absurd (ground (arith, same, g, h, e, f))
          ]
        ]
