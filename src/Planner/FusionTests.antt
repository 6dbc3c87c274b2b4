-- ===== src/Planner/FusionTests.antt =====
-- fusion.py: a far identity match against a near text match, and the theorem at them.
use vitruvio.Prelude.{
  ℕ, ◌+◌, ◌*◌, ◌/◌, ◌^◌, ◌<◌, leb, List, [], ◌∷◌, true, false, Text, sort, le_text, lookup,
  text_discrete, ℕ_discrete, ◌≡◌, inl, inr, refl, sym, subst, arith,
}
use vitruvio.Planner.Fusion
use vitruvio.Planner.Fusion.{Candidate, Floats, fresh, score_of}
use vitruvio.Planner.Fusion.Ranking.{IsOrdered}
use vitruvio.Planner.Fusion.Floor.{IsRaised, IsBelowFloor, fuse_floor}

abbrev thousandths : Floats ℕ
thousandths = record {
  zero = 0;
  one = 1000;
  half = 500;
  of_nat = λ n. n * 1000;
  add = λ x y. x + y;
  mul = λ x y. x * y / 1000;
  div = λ x y. x * 1000 / y;
  pow = λ x n. x ^ n * 1000 / 1000 ^ n;
  le = leb;
}

thousandths-IsOrdered : IsOrdered thousandths
thousandths-IsOrdered = record { total = λ x y h. ground arith; trans = λ x y z h g. ground arith }

thousandths-IsRaised : IsRaised thousandths
thousandths-IsRaised = record { raised = λ x h. ground arith }

abbrev a : Text
a = 97 ∷ []

abbrev b : Text
b = 98 ∷ []

-- found first by its text, and found ninth by its identity
abbrev near : Candidate ℕ
near = record (fresh a) { ranks = (a, 1) ∷ [] }

abbrev named : Candidate ℕ
named = record (fresh b) { ranks = (b, 9) ∷ []; exact = true }

abbrev candidates : List (Text × Candidate ℕ)
candidates = (a, near) ∷ (b, named) ∷ []

Below : Candidate ℕ → Type 0
Below c =
    (leb 0 (score_of thousandths [] 60 500 (record c { exact = false })) ≡ true)
    × (leb 1000 (score_of thousandths [] 60 500 (record c { exact = false })) ≡ false)

below : IsBelowFloor thousandths candidates [] 60 500
unfolding score_of lookup text_discrete ℕ_discrete Below
below c (inl q) = subst Below (sym q) (refl, refl)
below c (inr (inl q)) = subst Below (sym q) (refl, refl)
below c (inr (inr z)) = absurd z

fuse_floor_example : 0 < 1
unfolding Fusion.fuse score_of sort le_text lookup text_discrete ℕ_discrete
fuse_floor_example =
    fuse_floor thousandths thousandths-IsOrdered thousandths-IsRaised candidates [] 60 500 0 1 named
      near 1007 8 below refl refl refl refl
