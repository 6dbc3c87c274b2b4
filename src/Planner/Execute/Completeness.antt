-- ===== src/Planner/Execute/Completeness.antt =====
-- execute.py, `Executor.run`: what a generator found is still there at the end of the run.
use vitruvio.Prelude.{
  List, ◌∷◌, ◌++◌, some, Bool, true, false, ◌&&◌, ◌||◌, not, Bool-cases, In, Text, text_eq, Dict,
  values, lookup, ◌≡◌, ◌⊎◌, inl, inr, refl, ap, sym, subst, ◌∙◌, arith,
}
use vitruvio.Planner.Ir.{Node, is_generator, exact_lookup}
use vitruvio.Planner.Fusion.{Candidate, Floats}
use vitruvio.Planner.Execute.{returned, Sdk, Executor, Match}
use vitruvio.Planner.Execute.Tail.{answer}
use vitruvio.Planner.Execute.Filtering.{Asked}
use vitruvio.Planner.Execute.Verification.{FirstHolder}
use vitruvio.Planner.Execute.Refinement.{IsExpected, Refines, finalize-Refines}
use vitruvio.Planner.Execute.Run.{
  Indices, Progress, no_progress, is_op, generate, generated, run_node, run_nodes, all_candidates,
  run,
}
use vitruvio.Planner.Execute.Gathered.{IsKeyed, held_candidate}
use vitruvio.Planner.Execute.Progress.{
  IsAfter, proposed, generated-Kept, run_nodes-IsAfter, run_nodes-append, all_candidates-IsKeyed,
  all_candidates-Holds, Kept-IsAfter, both_true,
}

neither : (a b : Bool) → (a || b) ≡ true → (not a && not b) ≡ false
neither a b e = ground arith

distinct : (b : Bool) → b ≡ false → ¬ (b ≡ true)
distinct b e f = ground arith

module _ {F M B V : Type 0} (sdk : Sdk M B) (x : Executor F M) (floats : Floats F)
    (idx : Indices F M V) where
  -- the progress of a run when it comes to the node after some others, and at its end
  abbrev pub reached : List (Node V) → Progress F
  reached nodes = run_nodes sdk x floats idx nodes no_progress

  -- A node that has a module and a generator runs.
  pub record Ran (node : Node V) (scope : Text) (m : M) : Type 0 where
    pub scoped : node.scope ≡ some scope
    pub generates : (is_generator node.op || is_op node.op exact_lookup) ≡ true
    pub installed : lookup x.modules scope ≡ some m

  run_node-Ran :
      (p : Progress F) (node : Node V) (scope : Text) (m : M)
      → Ran node scope m
      → run_node sdk x floats idx p node ≡ generated sdk x floats idx node scope m p
  unfolding run_node
  run_node-Ran p node scope m r =
      let e = r.scoped in
      let f : (not (is_generator node.op) && not (is_op node.op exact_lookup)) ≡ false =
        neither _ _ r.generates in
      let g = r.installed in rw (e, f, g, run_node) refl

  no_progress-IsKeyed : IsKeyed (no_progress {F = F}).candidates
  unfolding lookup
  no_progress-IsKeyed id c e = absurd (ground arith)

  generated-exhausted :
      (p : Progress F) (node : Node V) (scope : Text) (m : M)
      → (generated sdk x floats idx node scope m p).exhausted ≡ true
      → (generate sdk x floats idx node scope m p.candidates).exhausted ≡ true
  unfolding generated
  generated-exhausted p node scope m e = (both_true _ _ e).1

  -- Whatever a plan's nodes before and after it: if a node ran, a block that it proposed is a
  -- candidate at the end of the run, and the run counts as exhausted only if the node's generator
  -- enumerated its domain.
  pub run_gathers :
      (before after : List (Node V)) (node : Node V) (scope : Text) (m : M) (id : Text)
      → Ran node scope m
      → In id (proposed sdk x floats idx (reached before) node scope m)
      → ((c : Candidate F) × In c
            (values (all_candidates sdk x floats idx (reached (before ++ node ∷ after))))
          × (c.block_id ≡ id))
        × (((reached (before ++ node ∷ after)).exhausted ≡ false)
            ⊎ ((generate sdk x floats idx node scope m (reached before).candidates).exhausted
                ≡ true))
  unfolding run_nodes
  run_gathers before after node scope m id r i =
      let nodes : List (Node V) = before ++ node ∷ after in
      let q : Progress F = generated sdk x floats idx node scope m (reached before) in
      let e : reached nodes ≡ run_nodes sdk x floats idx after q =
        run_nodes-append sdk x floats idx before (node ∷ after) no_progress
        ∙ ap (run_nodes sdk x floats idx after) (run_node-Ran (reached before) node scope m r) in
      let later : IsAfter sdk x floats idx q (reached nodes) =
        subst (IsAfter sdk x floats idx q) (sym e) (run_nodes-IsAfter sdk x floats idx after q) in
      let keyed =
        (run_nodes-IsAfter sdk x floats idx nodes no_progress).keyed no_progress-IsKeyed in
      (
        held_candidate (all_candidates sdk x floats idx (reached nodes)) id
            (all_candidates-IsKeyed sdk x floats idx (reached nodes) keyed)
            (all_candidates-Holds sdk x floats idx (reached nodes) id (
              Kept-IsAfter sdk x floats idx q (reached nodes) id later
                (generated-Kept sdk x floats idx (reached before) node scope m id i))),
        elim (Bool-cases (reached nodes).exhausted) [
          | inl t ↦ inr (generated-exhausted (reached before) node scope m (later.exhausted t))
          | inr f ↦ inl f
        ],
      )

  -- A visible block that the first module that holds it proves, and reads as the filters ask.
  abbrev pub IsWanted : Text → Text → M → B → Type 0
  IsWanted id memory_type m block =
      ((x.query.filters.include_superseded ≡ true) ⊎ (x.ledger.is_accessible id ≡ true))
      × FirstHolder sdk x x.modules id memory_type m
      × (sdk.proves m id ≡ returned true)
      × (sdk.is_resolvable m id ≡ true)
      × (sdk.get m id ≡ returned block)
      × Asked sdk x id block

  wanted-IsExpected :
      (candidates : Dict Text (Candidate F)) (c : Candidate F) (memory_type : Text) (m : M)
      (block : B)
      → In c (values candidates)
      → IsWanted c.block_id memory_type m block
      → (found : Match F) × IsExpected sdk x candidates c found
  wanted-IsExpected candidates c memory_type m block n (v, h, p, k, g, a) = (
    answer sdk x c.block_id memory_type floats.one true (sdk.payload block),
    (n, v, (memory_type, m, floats.one, h, (p, inl (k, (block, g, a, refl))))),
  )

  expected-block_id :
      (candidates : Dict Text (Candidate F)) (c : Candidate F) (found : Match F)
      → IsExpected sdk x candidates c found
      → found.block_id ≡ c.block_id
  expected-block_id candidates c found (_, _, (_, _, _, _, (_, inl (_, (_, _, _, e))))) =
      ap (λ (y : Match F). y.block_id) e
  expected-block_id candidates c found (_, _, (_, _, _, _, (_, inr (_, _, _, e)))) =
      ap (λ (y : Match F). y.block_id) e

  -- If a run's bundle is not truncated, it has a match for every wanted block that a node of the
  -- plan proposed: a visible one, which the first module that holds it proves, and reads as what
  -- the filters ask for.
  pub run_complete :
      (before after : List (Node V)) (node : Node V) (scope : Text) (m : M) (id memory_type : Text)
      (holder : M) (block : B)
      → Ran node scope m
      → In id (proposed sdk x floats idx (reached before) node scope m)
      → IsWanted id memory_type holder block
      → (run sdk x floats idx (before ++ node ∷ after)).0.truncated ≡ false
      → (shown : Match F) × In shown (run sdk x floats idx (before ++ node ∷ after)).0.matches
        × (shown.block_id ≡ id)
  unfolding run
  run_complete before after node scope m id memory_type holder block r i w t =
      let nodes : List (Node V) = before ++ node ∷ after in
      let p : Progress F = reached nodes in
      let ((c, n, e), _) = run_gathers before after node scope m id r i in
      let (found, expected) =
        wanted-IsExpected (all_candidates sdk x floats idx p) c memory_type holder block n
          (subst (λ j. IsWanted j memory_type holder block) (sym e) w) in
      let (_, _, full) =
        finalize-Refines sdk x floats nodes (all_candidates sdk x floats idx p) p.searched
          p.exhausted p.degradations in
      elim full [
        | inl u ↦ absurd (distinct _ t u)
        | inr (_, all) ↦
            let (shown, s, f) = all c found expected in
            (shown, s, expected-block_id (all_candidates sdk x floats idx p) c shown f ∙ e)
      ]

  -- Whatever the indices and the masks answer, a run's bundle has at most the limit of matches,
  -- each the expected one of a gathered candidate; and the bundle is truncated, or each candidate of
  -- which a match is expected has one.
  pub run-Refines :
      (nodes : List (Node V))
      → Refines sdk x
          (all_candidates sdk x floats idx (reached nodes))
          (reached nodes).exhausted
          (run sdk x floats idx nodes).0
  unfolding run
  run-Refines nodes = finalize-Refines sdk x floats nodes _ _ _ _
