-- ===== src/Planner/Choice.antt =====
-- planner.py, `CostBasedPlanner._run`, and cost.py, `Objective.admissible`: which of the candidate
-- plans is chosen. A plan's cost and recall, which are formulas over floats, and its signature
-- stand as parameters; what is explained of the choice is not modelled.
pub mod Feasible
use vitruvio.Prelude.{
  ℕ, ltb, leb, if◌then◌else◌, List, [], ◌∷◌, Option, none, some, Bool, true, false, ◌||◌, ◌&&◌, not,
  map, filterb, is_nil, length, sort, Text, le_text, add, ite,
}
use vitruvio.Planner.Ir.{Op, Op-discrete, op_eq, Node, Plan, is_generator, seq_scan, date_scan}
use vitruvio.Planner.Fusion.{Floats}

-- the operators of a plan's generators
unfoldable pub kinds : {V : Type 0} → List (Node V) → List Op
unfolding is_generator add
kinds [] = []
kinds (node ∷ rest) =
    let later = kinds rest in if is_generator node.op then add later node.op else later

abbrev pub is_only : Op → List Op → Bool
is_only op [] = false
is_only op (kind ∷ []) = ite (Op-discrete kind op) true false
is_only op (kind ∷ other ∷ rest) = false

-- `Objective.admissible`
unfoldable pub admissible : {V : Type 0} → Plan V → ℕ → Bool → Bool
unfolding kinds
admissible plan available exact_intent =
    if exact_intent
    then true
    else if is_only seq_scan (kinds plan.nodes) || is_only date_scan (kinds plan.nodes)
    then true
    else if leb 2 available && ltb (length (kinds plan.nodes)) 2
    then false
    else true

-- any(plan[node].op is not Op.SEQ_SCAN for node in plan.generators())
unfoldable pub is_indexed : {V : Type 0} → List (Node V) → Bool
unfolding is_generator
is_indexed [] = false
is_indexed (node ∷ rest) =
    let later = is_indexed rest in
    (is_generator node.op && ite (Op-discrete node.op seq_scan) false true) || later

-- an entry of `costed`
pub record Costed (V F : Type 0) : Type 0 where
  pub plan : Plan V
  pub recall : F
  pub objective : F
  pub admissible : Bool

-- What the planner knows of a query's plans; `less_slack` takes 1e-9 away.
pub record Pricing (V F : Type 0) : Type 0 where
  pub cost : Plan V → F
  pub recall : Plan V → F
  pub score : F → F → F
  pub less_slack : F → F
  pub signature : Plan V → Text
  pub available : ℕ
  pub exact_intent : Bool
  pub recall_floor : F

module _ {V F : Type 0} (floats : Floats F) (p : Pricing V F) where
  abbrev pub is_valid : Plan V → Bool
  is_valid plan = admissible plan p.available p.exact_intent

  abbrev pub larger : F → Option F → F
  larger a none = a
  larger a (some b) = if floats.le b a then a else b

  -- the best recall of a valid plan that uses an index
  unfoldable pub best : List (Plan V) → Option F
  unfolding admissible is_indexed
  best [] = none
  best (plan ∷ rest) =
      let later = best rest in
      if is_valid plan && is_indexed plan.nodes then some (larger (p.recall plan) later) else later

  abbrev pub indexed_best : List (Plan V) → F
  indexed_best plans = elim (best plans) [ none ↦ floats.zero | some held ↦ held ]

  abbrev pub is_zero : F → Bool
  is_zero x = floats.le x floats.zero && floats.le floats.zero x

  abbrev pub floor_at : F → F
  floor_at held =
      if is_zero held
      then floats.zero
      else if floats.le p.recall_floor held
      then p.recall_floor
      else held

  -- `floor`
  abbrev pub floor : List (Plan V) → F
  floor plans = floor_at (indexed_best plans)

  -- one entry of the loop that fills `costed`
  abbrev pub entry : F → Plan V → Costed V F
  entry floor plan = record {
    plan = plan;
    recall = p.recall plan;
    objective = p.score (p.cost plan) (p.recall plan);
    admissible = is_valid plan && floats.le (p.less_slack floor) (p.recall plan);
  }

  unfoldable pub costed : List (Plan V) → List (Costed V F)
  unfolding admissible best
  costed plans = map (entry (floor plans)) plans

  -- (objective, signature), compared as tuples
  abbrev pub le_entry : Costed V F → Costed V F → Bool
  le_entry a b =
      if floats.le a.objective b.objective
      then (if floats.le b.objective a.objective
          then le_text (p.signature a.plan) (p.signature b.plan)
          else true)
      else false

  -- feasible or costed
  abbrev pub pool : List (Costed V F) → List (Costed V F)
  pool entries =
      if is_nil (filterb (λ (c : Costed V F). c.admissible) entries)
      then entries
      else filterb (λ (c : Costed V F). c.admissible) entries

  abbrev pub first : List (Costed V F) → Option (Costed V F)
  first [] = none
  first (c ∷ rest) = some c

  -- the entry that `_run` chooses
  unfoldable pub choose : List (Plan V) → Option (Costed V F)
  unfolding costed
  choose plans = first (sort le_entry (pool (costed plans)))
