-- ===== src/Planner/ChoiceTests.antt =====
-- packages/planner, planner.py: a scan of everything is the only candidate.
use vitruvio.Prelude.{ℕ, List, [], ◌∷◌, none, some, true, false, In, ◌≡◌, ◌⊎◌, inl, refl, arith}
use vitruvio.Planner.Ir.{Plan, Op-discrete, seq_scan}
use vitruvio.Planner.Choice.{Costed, Pricing, costed, choose, le_entry, admissible}
use vitruvio.Planner.Choice.Feasible.{choose_exact}
use vitruvio.Planner.Tests.{numbers, numbers-IsOrdered}

abbrev scan_plan : Plan Unit
scan_plan = record {
  nodes = record { op = seq_scan; scope = none; params = []; inputs = []; index = none } ∷ [];
  root = 0;
}

abbrev plans : List (Plan Unit)
plans = scan_plan ∷ []

abbrev pricing : Pricing Unit ℕ
pricing = record {
  cost = λ _. 7;
  recall = λ _. 100;
  score = λ cost recall. cost;
  less_slack = λ n. n;
  signature = λ _. [];
  available = 2;
  exact_intent = false;
  recall_floor = 90;
}

choose_exact_example :
    (c : Costed Unit ℕ) × (choose numbers pricing plans ≡ some c)
    × In c (costed numbers pricing plans)
    × (c.admissible ≡ true)
    × ((d : Costed Unit ℕ)
        → In d (costed numbers pricing plans)
        → d.admissible ≡ true
        → (d ≡ c) ⊎ (le_entry numbers pricing c d ≡ true))
unfolding admissible Op-discrete
choose_exact_example =
    choose_exact numbers numbers-IsOrdered pricing plans scan_plan (λ n. ground arith)
      (λ other. refl) (inl refl) refl
