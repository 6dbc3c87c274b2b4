-- ===== src/Planner/Templates/Assembly.antt =====
-- templates.py, `_assemble` and `_with_tail`: one plan, a part for each scope and the fixed tail.
use vitruvio.Prelude.{
  ℕ, if◌then◌else◌, List, [], ◌∷◌, ◌++◌, Option, none, some, Bool, true, false, ◌||◌, ◌&&◌, not,
  is_nil, get_elem?, Text, text, text_eq, Eq, contains,
}
use vitruvio.Planner.Ir.{
  Op, op_eq, Node, Plan, PlanBuilder, init, finish, is_generator, exact_lookup, date_scan,
  mask_apply, residual, fuse, top_k, merge_modules, accessibility, resolve, verify, empty,
}
use vitruvio.Planner.Execute.{has_text, is_blank}
use vitruvio.Planner.Templates.{
  Value, Request, Build, return_built, ◌>>=◌, fed_by, add, count, real, flag, word, words, hash_map,
  btree, bitmap,
}
use vitruvio.Planner.Templates.Nodes.{cardinality_of, mask_for, generator_node}

module _ {F : Type 0} ⦃e : Eq (Node (Value F))⦄ (r : Request F) where
  -- the nodes of several generators
  unfoldable pub generator_nodes : Text → Option ℕ → ℕ → List Op → Build F (List ℕ)
  unfolding generator_node
  generator_nodes scope mask pool [] = return_built []
  generator_nodes scope mask pool (generator ∷ rest) =
      generator_node r scope mask pool generator >>= λ node.
      generator_nodes scope mask pool rest >>= λ later. return_built (fed_by node ++ later)

  -- the exact lookup of a scope
  unfoldable pub lookup_nodes : Text → Build F (List ℕ)
  unfolding is_blank
  lookup_nodes scope =
      if r.has scope hash_map && not (is_blank r.query.query_text)
      then (add exact_lookup (some scope) [] (some (r.value hash_map))
            ((text "count", count 1) ∷ [])
          >>= (λ id. return_built (id ∷ [])))
      else return_built []

  abbrev pub fused : Text → ℕ → List ℕ → Build F ℕ
  fused scope first [] = return_built first
  fused scope first (second ∷ rest) =
      add fuse (some scope) (first ∷ second ∷ rest) none
        ((text "method", word (some (text "rrf"))) ∷ (text "k", count r.config.rrf_k) ∷ [])

  -- any(builder_node_is_generator(builder, node) for node in produced)
  unfoldable pub any_generator : PlanBuilder (Value F) → List ℕ → Bool
  unfolding is_generator
  any_generator b [] = false
  any_generator b (id ∷ rest) = elim (get_elem? b.nodes id) [
    | none ↦ any_generator b rest
    | some node ↦ is_generator node.op || any_generator b rest
  ]

  unfoldable pub with_mask : Text → List ℕ → Option ℕ → ℕ → Build F ℕ
  unfolding any_generator
  with_mask scope produced none id b = some (b, id)
  with_mask scope produced (some mask) id b =
      if any_generator b produced
      then add mask_apply (some scope) (id ∷ mask ∷ []) none
          ((text "selectivity", real (r.hundredths 100)) ∷ []) b
      else some (b, id)

  -- whether `_residual_for` gives a node
  abbrev pub needs_decode : Text → Bool
  needs_decode scope =
      (not (is_nil r.query.filters.evidence) || not (is_nil r.query.filters.classes))
      || ((has_text r.query.filters.subject && not (r.has scope bitmap))
          || ((has_text r.query.filters.since || has_text r.query.filters.until)
              && not (r.has scope btree)))

  abbrev pub with_residual : Text → ℕ → Build F ℕ
  with_residual scope id =
      if needs_decode scope
      then add residual (some scope) (id ∷ []) none (
          (text "decode", flag true)
          ∷ (text "selectivity", real (r.hundredths 50))
          ∷ (text "predicate", word (some (text "residual filters")))
          ∷ [])
      else return_built id

  -- the rest of a scope's plan once its generators are there
  unfoldable pub scope_root : Text → Option ℕ → List ℕ → Build F (List ℕ)
  unfolding with_mask
  scope_root scope mask [] = return_built []
  scope_root scope mask (first ∷ rest) = fused scope first rest >>= λ id.
      with_mask scope (first ∷ rest) mask id >>= λ id.
      with_residual scope id >>= λ id. return_built (id ∷ [])

  -- the body of `_assemble`'s loop: the root of a scope, if it has one
  unfoldable pub scope_plan : List Op → ℕ → Text → Build F (List ℕ)
  unfolding mask_for lookup_nodes generator_nodes scope_root contains
  scope_plan generators pool scope =
      mask_for r scope (not (contains generators date_scan)) >>= λ mask.
      lookup_nodes scope >>= λ found.
      generator_nodes scope mask pool generators >>= λ made. scope_root scope mask (found ++ made)

  unfoldable pub scope_plans : List Op → ℕ → List Text → Build F (List ℕ)
  unfolding scope_plan
  scope_plans generators pool [] = return_built []
  scope_plans generators pool (scope ∷ rest) = scope_plan generators pool scope >>= λ root.
      scope_plans generators pool rest >>= λ later. return_built (root ++ later)

  -- `_with_tail`, to the root
  unfoldable pub tail : ℕ → ℕ → Build F ℕ
  tail produced limit =
      add accessibility none (produced ∷ []) none (
        (text "include_superseded", flag r.query.filters.include_superseded)
        ∷ (text "hidden", real (r.hundredths (if r.query.filters.include_superseded then 0 else 5)))
        ∷ (text "ledger_blocks", count (cardinality_of r (text "provenance")))
        ∷ [])
      >>= λ accessible.
          add top_k none (accessible ∷ []) none
            ((text "k", count limit) ∷ (text "reserve", count limit) ∷ [])
          >>= λ topk. add resolve none (topk ∷ []) none [] >>= λ resolved.
              add verify none (resolved ∷ []) none ((text "scopes", words r.scopes) ∷ [])
              >>= λ verified. add Op.bundle none (verified ∷ []) none []

  abbrev pub merged : ℕ → List ℕ → Build F ℕ
  merged first [] = return_built first
  merged first (second ∷ rest) = add merge_modules none (first ∷ second ∷ rest) none []

  abbrev pub finished : Option (PlanBuilder (Value F) × ℕ) → Option (Plan (Value F))
  finished none = none
  finished (some (b, root)) = some (finish b root)

  -- `_empty_plan`
  unfoldable pub empty_plan : Option (Plan (Value F))
  empty_plan =
      finished ((add empty none [] none [] >>= λ id. add Op.bundle none (id ∷ []) none []) init)

  -- the end of `_assemble`, from the roots of the scopes
  unfoldable pub concluded : ℕ → List ℕ → PlanBuilder (Value F) → Option (Plan (Value F))
  unfolding tail empty_plan
  concluded limit [] b = empty_plan
  concluded limit (first ∷ rest) b = finished ((merged first rest >>= λ id. tail id limit) b)

  -- `_assemble`
  unfoldable pub assemble : List Op → ℕ → ℕ → Option (Plan (Value F))
  unfolding scope_plans concluded init
  assemble generators pool limit = elim (scope_plans generators pool r.scopes init) [
    | none ↦ none
    | some (b, roots) ↦ concluded limit roots b
  ]
