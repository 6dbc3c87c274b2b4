-- ===== src/Planner/Tests.antt =====
-- packages/planner: a small arena and a few contributions, and the theorems at them.
use vitruvio.Prelude.{
  ◌<◌, get_or, lookup, ℕ, ◌+◌, ◌*◌, ◌/◌, ◌^◌, leb, List, [], ◌∷◌, none, some, true, length,
  get_elem?, Text, text_eq, values, In, Eq, ℕ_discrete, text_discrete, ◌≡◌, ◌↔◌, arith,
}
use vitruvio.Planner.Ir.{Op-discrete, Node, Plan, init, intern, term_scan, bitmap_filter}
use vitruvio.Planner.Ir.Arena.{IsInterned, init-IsInterned, intern_outcome}
use vitruvio.Planner.Fusion.{Candidate, accumulate, normalize, Floats, fresh, score_of, le_scored}
use vitruvio.Planner.Fusion
use vitruvio.Planner.Fusion.Evidence.{
  Contribution, contributed, Best, Shallowest, Originated, contribute_exact,
}
use vitruvio.Planner.Fusion.Gathering.{receive, accumulate_exact}
use vitruvio.Planner.Fusion.Ranking.{IsOrdered, IsScore, IsAhead, fuse_exact}

abbrev a : Text
a = 97 ∷ []

abbrev b : Text
b = 98 ∷ []

unfoldable Node-discrete : Discrete (Node Unit)
Node-discrete = hlevel (ℕ_discrete, text_discrete, Op-discrete)

instance abbrev node_eq : Eq (Node Unit)
node_eq = record { dec = Node-discrete }

abbrev mask : Node Unit
mask = record { op = bitmap_filter; scope = none; params = []; inputs = []; index = none }

abbrev terms : Node Unit
terms = record { op = term_scan; scope = some a; params = []; inputs = 0 ∷ []; index = none }

intern_outcome_example :
    IsInterned (intern init mask).0
    × (get_elem? (intern init mask).0.nodes (intern init mask).1 ≡ some mask)
    × ((i : ℕ) (other : Node Unit)
        → get_elem? (init {V = Unit}).nodes i ≡ some other
        → get_elem? (intern init mask).0.nodes i ≡ some other)
    × (In mask (init {V = Unit}).nodes → (intern init mask).0 ≡ init)
intern_outcome_example = intern_outcome init mask init-IsInterned

abbrev plan : Plan Unit
plan = record { nodes = mask ∷ terms ∷ []; root = 1 }

abbrev given : List (Contribution ℕ)
given =
    record { generator = a; rank = 3; score = 5; depth = 0 }
    ∷ record { generator = b; rank = 1; score = 9; depth = 2 }
    ∷ record { generator = a; rank = 1; score = 7; depth = 1 }
    ∷ []

contribute_exact_example :
    Best (contributed (fresh a) given) given
    × Shallowest (contributed (fresh a) given) given
    × Originated (contributed (fresh a) given) given
contribute_exact_example = contribute_exact a given

-- Natural numbers in the place of floats.
abbrev pub numbers : Floats ℕ
numbers = record {
  zero = 0;
  one = 1;
  half = 0;
  of_nat = λ n. n;
  add = λ x y. x + y;
  mul = λ x y. x * y;
  div = λ x y. x / y;
  pow = λ x n. x ^ n;
  le = leb;
}

pub numbers-IsOrdered : IsOrdered numbers
numbers-IsOrdered = record { total = λ x y h. ground arith; trans = λ x y z h g. ground arith }

abbrev candidates : List (Text × Candidate ℕ)
candidates = (a, fresh a) ∷ (b, fresh b) ∷ []

fuse_exact_example :
    ((c : Candidate ℕ) (s : ℕ)
      → In (c, s) (Fusion.fuse numbers candidates [] 60 1)
        ↔ (In c (values candidates) × IsScore numbers [] 60 1 c s))
    × (length (Fusion.fuse numbers candidates [] 60 1) ≡ 2)
    × ((i j : ℕ) (x y : Candidate ℕ × ℕ)
        → get_elem? (Fusion.fuse numbers candidates [] 60 1) i ≡ some x
        → get_elem? (Fusion.fuse numbers candidates [] 60 1) j ≡ some y
        → i < j
        → IsAhead numbers x y)
fuse_exact_example = fuse_exact numbers numbers-IsOrdered candidates [] 60 1

abbrev hits : List (Text × ℕ)
hits = (b, 9) ∷ (a, 7) ∷ (b, 4) ∷ []

accumulate_exact_example :
    get_or (accumulate a 1 true 1 hits candidates) b (fresh b)
    ≡ receive a 1 true (receive a 1 true (fresh b) (1, 9)) (3, 4)
unfolding lookup text_discrete ℕ_discrete
accumulate_exact_example = accumulate_exact a 1 true 1 hits candidates b

abbrev scores : List (Candidate ℕ × ℕ)
scores = (fresh a, 4) ∷ (fresh b, 2) ∷ []
