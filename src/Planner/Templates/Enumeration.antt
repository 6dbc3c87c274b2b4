-- ===== src/Planner/Templates/Enumeration.antt =====
-- templates.py, `_generator_sets` and `build_templates`: the plans that are worth costing.
use vitruvio.Prelude.{
  ℕ, suc, ◌-◌, ◌*◌, ◌/◌, ◌%◌, ◌^◌, max, ◌==◌, if◌then◌else◌, List, [], ◌∷◌, ◌++◌, Option, none,
  some, Bool, true, false, ◌||◌, ◌&&◌, not, map, filterb, is_nil, length, range_from, Text, text_eq,
  Eq, contains, inter, lookup, insert, Dict, values,
}
use vitruvio.Planner.Ir.{
  Op, op_eq, Node, Plan, seq_scan, date_scan, term_scan, vector_search, graph_expand,
}
use vitruvio.Planner.Execute.{is_blank, is_date_query}
use vitruvio.Planner.Intent.{navigational, admissible_generators, requires}
use vitruvio.Planner.Templates.{
  Value, IndexKind, Request, with_first, with_all, k_grid, btree, inverted, vector, graph,
}
use vitruvio.Planner.Templates.Assembly.{empty_plan, assemble}

module _ {F : Type 0} ⦃e : Eq (Node (Value F))⦄ (r : Request F) where
  -- the condition holds in a scope, or in every scope
  abbrev pub in_some : IndexKind → List Text → Bool
  in_some kind [] = false
  in_some kind (scope ∷ rest) = r.has scope kind || in_some kind rest

  abbrev pub in_every : IndexKind → List Text → Bool
  in_every kind [] = true
  in_every kind (scope ∷ rest) = r.has scope kind && in_every kind rest

  -- `available` of `_generator_sets`
  unfoldable pub available : Option (List Op) → List Op
  unfolding contains
  available permitted =
      let held =
        (if in_some inverted r.scopes then term_scan ∷ [] else [])
        ++ ((if in_some vector r.scopes then vector_search ∷ [] else [])
            ++ (if not (r.expand_depth == 0) && in_some graph r.scopes
                then graph_expand ∷ []
                else [])) in
      elim permitted [ none ↦ held | some names ↦ filterb (contains names) held ]

  -- the names whose bits are set in the mask, from a position on
  unfoldable pub chosen : ℕ → ℕ → List Op → List Op
  chosen mask position [] = []
  chosen mask position (name ∷ rest) =
      let later = chosen mask (suc position) rest in
      if (mask / 2 ^ position) % 2 == 1 then name ∷ later else later

  -- A set without a mandatory generator, where one is available, is passed over.
  abbrev pub lacks : List Op → List Op → List Op → Bool
  lacks mandatory held set =
      not (is_nil mandatory)
      && (is_nil (inter mandatory set) && not (is_nil (inter mandatory held)))

  abbrev pub or_scan : List (List Op) → List (List Op)
  or_scan [] = (seq_scan ∷ []) ∷ []
  or_scan (set ∷ sets) = set ∷ sets

  abbrev pub date_scans : Bool
  date_scans = is_date_query r.query && in_every btree r.scopes

  -- the loop of `_generator_sets` over the masks
  unfoldable pub offered : Option (List Op) → List Op → List (List Op)
  unfolding available chosen inter
  offered permitted mandatory =
      let held = available permitted in
      filterb (λ set. not (lacks mandatory held set))
        (map (λ mask. chosen mask 0 held) (range_from 1 (2 ^ length held - 1)))

  -- `_generator_sets`
  unfoldable pub generator_sets : Option (List Op) → List Op → List (List Op)
  unfolding offered is_blank
  generator_sets permitted mandatory =
      if date_scans then (date_scan ∷ []) ∷ [] else or_scan (offered permitted mandatory)

  -- what the mode permits, less for a navigational query
  unfoldable pub permitted_for : Option (List Op)
  unfolding admissible_generators contains
  permitted_for =
      let permitted = admissible_generators r.mode in
      elim r.kind [
        | navigational ↦ elim permitted [
          | none ↦ some (graph_expand ∷ date_scan ∷ [])
          | some names ↦ some (filterb (contains (graph_expand ∷ date_scan ∷ [])) names)
        ]
        | _ ↦ permitted
      ]

  abbrev pub asked_limit : ℕ
  asked_limit = max 1 r.query.limit

  -- the plans of one over-fetch
  unfoldable pub plans_of : ℕ → List (List Op) → Option (List (Plan (Value F)))
  unfolding assemble
  plans_of pool [] = some []
  plans_of pool (generators ∷ rest) =
      with_first (assemble r generators pool asked_limit) (plans_of pool rest)

  abbrev pub plans_for : ℕ → Option (List (Plan (Value F)))
  plans_for multiplier =
      plans_of (max asked_limit (asked_limit * r.config.overfetch * multiplier))
        (generator_sets permitted_for (requires r.mode))

  unfoldable pub plans_over : List ℕ → Option (List (Plan (Value F)))
  unfolding plans_of generator_sets permitted_for requires
  plans_over [] = some []
  plans_over (multiplier ∷ rest) = with_all (plans_for multiplier) (plans_over rest)

  unfoldable pub candidate_plans : Option (List (Plan (Value F)))
  unfolding plans_over assemble is_blank
  candidate_plans = with_all (plans_over k_grid) (
      if date_scans
      then some []
      else with_first (assemble r (seq_scan ∷ []) asked_limit asked_limit) (some []))

  -- held.setdefault(name, plan)
  unfoldable pub set_default :
      Dict Text (Plan (Value F)) → Text → Plan (Value F) → Dict Text (Plan (Value F))
  unfolding lookup insert
  set_default held name plan = elim (lookup held name) [
    | none ↦ insert held name plan
    | some _ ↦ held
  ]

  -- the loop over the candidates, by their signature
  unfoldable pub unique :
      (Plan (Value F) → Text)
      → List (Plan (Value F))
      → Dict Text (Plan (Value F))
      → Dict Text (Plan (Value F))
  unfolding set_default
  unique signature [] held = held
  unique signature (plan ∷ rest) held =
      unique signature rest (set_default held (signature plan) plan)

  -- `build_templates`
  unfoldable pub build_templates : (Plan (Value F) → Text) → Option (List (Plan (Value F)))
  unfolding candidate_plans unique empty_plan
  build_templates signature =
      if is_nil r.scopes then with_first (empty_plan r) (some []) else elim candidate_plans [
        | none ↦ none
        | some plans ↦ some (values (unique signature plans []))
      ]
