-- ===== src/Planner/Execute/Progress.antt =====
-- execute.py, the loop of `Executor.run`: what a step keeps of what was gathered before it.
use vitruvio.Prelude.{
  ℕ, if◌then◌else◌, List, [], ◌∷◌, ◌++◌, Bool, true, false, ◌&&◌, not, Bool-cases, Option-cases, In,
  In-map_of, In-map_inv, In-sort, map, is_nil, Text, text, text_eq, Dict, lookup, ◌≡◌, ◌⊎◌, inl,
  inr, refl, subst, arith,
}
use vitruvio.Planner.Ir.{Node, is_generator, exact_lookup, date_scan, graph_expand}
use vitruvio.Planner.Fusion.{Candidate, Floats, accumulate}
use vitruvio.Planner.Execute.{Sdk, Executor}
use vitruvio.Planner.Execute.Run.{
  Indices, Progress, is_op, op_value, generate, masked, dated, generated, run_node, run_nodes,
  by_date, all_candidates,
}
use vitruvio.Planner.Execute.Gathered.{IsKeyed, Holds, IsKeyed-accumulate, Holds-accumulate}

either :
    {A : Type 0} (P : A → Type 0) (b : Bool) (yes_case no_case : A)
    → P yes_case
    → P no_case
    → P (if b then yes_case else no_case)
either P true yes_case no_case h k = h
either P false yes_case no_case h k = k

pub both_true : (a b : Bool) → (a && b) ≡ true → (a ≡ true) × (b ≡ true)
both_true a b e = ground arith

module _ {F M B V : Type 0} (sdk : Sdk M B) (x : Executor F M) (floats : Floats F)
    (idx : Indices F M V) where
  abbrev pub first : {A : Type 0} → List (Text × A) → List Text
  first hits = map (λ hit. hit.0) hits

  -- a run's progress that comes after another
  pub record IsAfter (p q : Progress F) : Type 0 where
    pub keyed : IsKeyed p.candidates → IsKeyed q.candidates
    pub holding : (id : Text) → Holds p.candidates id → Holds q.candidates id
    pub dates : (id : Text) → In id (first p.date_hits) → In id (first q.date_hits)
    pub exhausted : q.exhausted ≡ true → p.exhausted ≡ true

  IsAfter-refl : (p : Progress F) → IsAfter p p
  IsAfter-refl p = record {
    keyed = λ h. h;
    holding = λ id h. h;
    dates = λ id h. h;
    exhausted = λ h. h;
  }

  IsAfter-trans : (p q r : Progress F) → IsAfter p q → IsAfter q r → IsAfter p r
  IsAfter-trans p q r h k = record {
    keyed = λ a. k.keyed (h.keyed a);
    holding = λ id a. k.holding id (h.holding id a);
    dates = λ id a. k.dates id (h.dates id a);
    exhausted = λ a. h.exhausted (k.exhausted a);
  }

  In-first_append :
      (id : Text) (xs ys : List (Text × Text))
      → In id (first xs) ⊎ In id (first ys)
      → In id (first (xs ++ ys))
  In-first_append id [] ys (inl m) = absurd m
  In-first_append id [] ys (inr m) = m
  In-first_append id (y ∷ xs) ys h = ground (arith, In-first_append id xs ys)

  -- the hits of a node that its masks leave
  abbrev pub left : Progress F → Node V → Text → M → List (Text × F)
  left p node scope m =
      (masked sdk x floats idx node scope m
        (generate sdk x floats idx node scope m p.candidates).hits p.masks).0

  -- the blocks that a node adds to what is gathered
  abbrev pub proposed : Progress F → Node V → Text → M → List Text
  proposed p node scope m =
      let hits = left p node scope m in
      if is_op node.op date_scan then first (dated sdk x floats idx m hits) else first hits

  abbrev depth_of : Node V → ℕ
  depth_of node = if is_op node.op graph_expand then 1 else 0

  -- the date hits as `run` accumulates them
  abbrev ones : List (Text × Text) → List (Text × F)
  ones hits = map (λ (hit : Text × Text). (hit.0, floats.one)) (by_date sdk x floats idx hits)

  generated-IsAfter :
      (p : Progress F) (node : Node V) (scope : Text) (m : M)
      → IsAfter p (generated sdk x floats idx node scope m p)
  unfolding generated
  generated-IsAfter p node scope m = record {
    keyed = λ h. either IsKeyed (is_op node.op date_scan) p.candidates _ h (
        IsKeyed-accumulate (op_value node.op) (depth_of node) (is_op node.op exact_lookup) 1
          (left p node scope m) p.candidates h);
    holding = λ id h.
        either (λ d. Holds d id) (is_op node.op date_scan) p.candidates _ h
          (Holds-accumulate (op_value node.op) (depth_of node) (is_op node.op exact_lookup) 1
            (left p node scope m) p.candidates id (inr h));
    dates = λ id h.
        either (λ ds. In id (first ds)) (is_op node.op date_scan) _ p.date_hits
          (In-first_append id p.date_hits _ (inl h)) h;
    exhausted = λ e. (both_true _ _ e).0;
  }

  -- What a node proposes is held, or stands among the date hits.
  abbrev Kept : Progress F → Text → Type 0
  Kept p id = Holds p.candidates id ⊎ In id (first p.date_hits)

  kept_if :
      (b : Bool) (d d' : Dict Text (Candidate F)) (ds ds' : List (Text × Text)) (id : Text)
      (xs ys : List Text)
      → In id (if b then xs else ys)
      → (In id xs → In id (first ds'))
      → (In id ys → Holds d' id)
      → Holds (if b then d else d') id ⊎ In id (first (if b then ds' else ds))
  kept_if true d d' ds ds' id xs ys i h k = inr (h i)
  kept_if false d d' ds ds' id xs ys i h k = inl (k i)

  pub generated-Kept :
      (p : Progress F) (node : Node V) (scope : Text) (m : M) (id : Text)
      → In id (proposed p node scope m)
      → Kept (generated sdk x floats idx node scope m p) id
  unfolding generated
  generated-Kept p node scope m id i =
      kept_if (is_op node.op date_scan) p.candidates _ p.date_hits _ id
        (first (dated sdk x floats idx m (left p node scope m))) (first (left p node scope m)) i
        (λ k.
          In-first_append id p.date_hits (dated sdk x floats idx m (left p node scope m)) (inr k))
        (λ k.
          Holds-accumulate (op_value node.op) (depth_of node) (is_op node.op exact_lookup) 1
            (left p node scope m) p.candidates id (inl k))

  run_node-IsAfter : (p : Progress F) (node : Node V) → IsAfter p (run_node sdk x floats idx p node)
  unfolding run_node
  run_node-IsAfter p node = elim (Option-cases node.scope) [
    | inl e ↦ rw (e, run_node) (IsAfter-refl p)
    | inr (scope, e) ↦
        elim (Bool-cases (not (is_generator node.op) && not (is_op node.op exact_lookup))) [
          | inl f ↦ rw (e, f, run_node) (IsAfter-refl p)
          | inr f ↦ elim (Option-cases (lookup x.modules scope)) [
            | inl g ↦ rw (e, f, g, run_node) (IsAfter-refl p)
            | inr (m, g) ↦ rw (e, f, g, run_node) (generated-IsAfter p node scope m)
          ]
        ]
  ]

  pub run_nodes-IsAfter :
      (nodes : List (Node V)) (p : Progress F) → IsAfter p (run_nodes sdk x floats idx nodes p)
  unfolding run_nodes
  run_nodes-IsAfter [] p = IsAfter-refl p
  run_nodes-IsAfter (node ∷ rest) p =
      IsAfter-trans p _ _ (run_node-IsAfter p node)
        (run_nodes-IsAfter rest (run_node sdk x floats idx p node))

  pub run_nodes-append :
      (before after : List (Node V)) (p : Progress F)
      → run_nodes sdk x floats idx (before ++ after) p
        ≡ run_nodes sdk x floats idx after (run_nodes sdk x floats idx before p)
  unfolding run_nodes
  run_nodes-append [] after p = refl
  run_nodes-append (node ∷ before) after p =
      run_nodes-append before after (run_node sdk x floats idx p node)

  pub all_candidates-IsKeyed :
      (p : Progress F) → IsKeyed p.candidates → IsKeyed (all_candidates sdk x floats idx p)
  unfolding all_candidates
  all_candidates-IsKeyed p h =
      either IsKeyed (is_nil p.date_hits) p.candidates _ h
        (IsKeyed-accumulate (text "DateScan") 0 false 1 (ones p.date_hits) p.candidates h)

  In-ones : (hits : List (Text × Text)) (id : Text) → In id (first hits) → In id (first (ones hits))
  In-ones hits id i =
      let ((j, at), k, e) = In-map_inv (λ (hit : Text × Text). hit.0) id hits i in
      let n : In (j, at) (by_date sdk x floats idx hits) =
        (In-sort _ (j, at) _).1 ((In-sort _ (j, at) hits).1 k) in
      subst (λ a. In a (first (ones hits))) e
        (In-map_of (λ (hit : Text × F). hit.0) (j, floats.one) (ones hits)
          (In-map_of (λ (hit : Text × Text). (hit.0, floats.one)) (j, at) _ n))

  dated_Holds :
      (hits : List (Text × Text)) (d : Dict Text (Candidate F)) (id : Text)
      → In id (first hits)
      → Holds (if is_nil hits then d else accumulate (text "DateScan") 0 false 1 (ones hits) d) id
  dated_Holds [] d id i = absurd i
  dated_Holds (hit ∷ hits) d id i =
      Holds-accumulate (text "DateScan") 0 false 1 (ones (hit ∷ hits)) d id
        (inl (In-ones (hit ∷ hits) id i))

  pub all_candidates-Holds :
      (p : Progress F) (id : Text) → Kept p id → Holds (all_candidates sdk x floats idx p) id
  unfolding all_candidates
  all_candidates-Holds p id (inl h) =
      either (λ d. Holds d id) (is_nil p.date_hits) p.candidates _ h
        (Holds-accumulate (text "DateScan") 0 false 1 (ones p.date_hits) p.candidates id (inr h))
  all_candidates-Holds p id (inr i) = dated_Holds p.date_hits p.candidates id i

  pub Kept-IsAfter : (p q : Progress F) (id : Text) → IsAfter p q → Kept p id → Kept q id
  Kept-IsAfter p q id a (inl h) = inl (a.holding id h)
  Kept-IsAfter p q id a (inr i) = inr (a.dates id i)
