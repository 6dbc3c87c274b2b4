-- ===== src/Planner/Templates/Scopes.antt =====
-- templates.py, the loop of `_assemble`: the nodes of each scope stand in a sound arena.
use vitruvio.Prelude.{
  ℕ, zero, suc, ◌-◌, get_elem?-some, ◌==◌, List, [], ◌∷◌, ◌++◌, Option, none, some, Bool, true,
  ◌&&◌, not, length, min, ◌<◌, ◌≡◌, ◌⊎◌, Eq, Text, In, In-append, Option-cases, contains, inl, inr,
  refl, sym, subst, arith, Bool-cases,
}
use vitruvio.Planner.Ir.{
  Op, Node, op_eq, seq_scan, term_scan, date_scan, vector_search, graph_expand, exact_lookup,
  brute_vector,
}
use vitruvio.Planner.Execute.{is_blank}
use vitruvio.Planner.Templates.{
  Value, Request, ScopeStats, btree, bitmap, inverted, vector, graph, fed_by,
}
use vitruvio.Planner.Templates.Nodes.{
  facet_mask, range_mask, mask_for, reach_at, reach_and_degree, vector_node, graph_node,
  generator_node, facet_rows,
}
use vitruvio.Planner.Templates.Assembly.{
  generator_nodes, lookup_nodes, fused, any_generator, with_mask, with_residual, needs_decode,
  scope_root, scope_plan, scope_plans, merged,
}
use vitruvio.Planner.Templates.Placement.{
  Places, Places-return, Places-bind, Places-add, Places-if, Places-some, Places-when,
}

-- The code does not read the last of no measured depths: the query asks for no expansion, or some
-- depth of it is allowed, or every scope that has statistics was measured at some depth.
abbrev pub IsMeasured : {F : Type 0} → Request F → Type 0
IsMeasured {F = F} r =
    (r.expand_depth ≡ 0)
    ⊎ (0 < r.config.graph_expand_max)
    ⊎ ((scope : Text) (s : ScopeStats F)
        → r.statistics scope ≡ some s
        → 0 < length s.graph.reach_by_depth)

module _ {F : Type 0} ⦃e : Eq (Node (Value F))⦄ (r : Request F) where
  abbrev pub one : ℕ → List ℕ
  one id = id ∷ []

  abbrev mask_ids : Option ℕ × ℕ → List ℕ
  mask_ids (mask, rows) = fed_by mask

  head_of : (id : ℕ) (given : List ℕ) (i : ℕ) → In i (id ∷ []) → In i (id ∷ given)
  head_of id given i (inl q) = inl q
  head_of id given i (inr m) = absurd m

  single : (id : ℕ) (given : List ℕ) → In id given → (i : ℕ) → In i (id ∷ []) → In i given
  single id given k i (inl q) = subst (λ j. In j given) (sym q) k
  single id given k i (inr m) = absurd m

  both_made : (i : ℕ) (xs ys given : List ℕ) → In i (xs ++ ys) → In i (ys ++ (xs ++ given))
  both_made i xs ys given m =
      ground (arith, In-append i xs ys, In-append i ys (xs ++ given), In-append i xs given)

  facet_mask-Places : (given : List ℕ) (scope : Text) → Places given (facet_mask r scope) mask_ids
  unfolding facet_mask
  facet_mask-Places given scope =
      Places-if given (not (r.has scope bitmap)) _ _ mask_ids
        (Places-return given _ mask_ids (λ i m. absurd m))
        (Places-if given _ _ _ mask_ids (Places-return given _ mask_ids (λ i m. absurd m)) (
          Places-bind given _ _ one mask_ids (Places-add given _ _ [] _ _ (λ i m. absurd m)) (λ id.
            Places-return (id ∷ given) (some id, (facet_rows r scope).0) mask_ids
              (head_of id given))))

  range_mask-Places :
      (given : List ℕ) (scope : Text) (include_time : Bool) (mask : Option ℕ) (rows : ℕ)
      → Places (fed_by mask ++ given) (range_mask r scope include_time (mask, rows)) fed_by
  unfolding range_mask
  range_mask-Places given scope include_time mask rows =
      Places-if (fed_by mask ++ given) _ _ _ fed_by
        (Places-some (fed_by mask ++ given) _
          (Places-add _ _ _ (fed_by mask) _ _ (λ i m. (In-append i (fed_by mask) given).1 (inl m))))
        (Places-return _ mask fed_by (λ i m. (In-append i (fed_by mask) given).1 (inl m)))

  mask_for-Places :
      (given : List ℕ) (scope : Text) (include_time : Bool)
      → Places given (mask_for r scope include_time) fed_by
  unfolding mask_for
  mask_for-Places given scope include_time =
      Places-bind given (facet_mask r scope) (range_mask r scope include_time) mask_ids fed_by
        (facet_mask-Places given scope)
        (λ (mask, rows). range_mask-Places given scope include_time mask rows)

  reach_at-some :
      (reach : List F) (depth : ℕ)
      → (0 < depth) ⊎ (0 < length reach)
      → (x : F) × (reach_at r reach depth ≡ some x)
  reach_at-some reach (suc depth) h = (_, refl)
  reach_at-some [] zero h = absurd (ground (arith, h))
  reach_at-some (x ∷ reach) zero h =
      get_elem?-some (x ∷ reach) (length (x ∷ reach) - 1) (omega arith)

  -- The reach is read where a node of the expansion is wanted.
  reach_and_degree-Places :
      IsMeasured r
      → 0 < r.expand_depth
      → (given : List ℕ) (scope : Text)
      → Places given
          (reach_and_degree r scope (min r.expand_depth r.config.graph_expand_max))
          (λ _. [])
  reach_and_degree-Places measured deep given scope = elim (Option-cases (r.statistics scope)) [
    | inl p ↦
        rw (p, reach_and_degree)
          (Places-return given (r.hundredths 150, r.hundredths 100) (λ _. []) (λ i m. absurd m))
    | inr (s, p) ↦
        let (x, q) =
          reach_at-some s.graph.reach_by_depth (min r.expand_depth r.config.graph_expand_max)
            (elim measured [
              | inl z ↦ absurd (omega (arith, z, deep))
              | inr h ↦ elim h [ inl k ↦ inl (omega (arith, k, deep)) | inr k ↦ inr (k scope s p) ]
            ]) in
        rw (p, q, reach_and_degree)
          (Places-return given (x, s.graph.out_degree_mean) (λ _. []) (λ i m. absurd m))
  ]

  generator_node-Places :
      IsMeasured r
      → (given : List ℕ) (scope : Text) (mask : Option ℕ) (pool : ℕ) (generator : Op)
      → ((i : ℕ) → In i (fed_by mask) → In i given)
      → Places given (generator_node r scope mask pool generator) fed_by
  unfolding generator_node vector_node graph_node
  generator_node-Places measured given scope mask pool seq_scan h =
      Places-when given true _ (Places-add given _ _ [] _ _ (λ i m. absurd m))
  generator_node-Places measured given scope mask pool date_scan h =
      Places-when given (r.has scope btree) _ (Places-add given _ _ [] _ _ (λ i m. absurd m))
  generator_node-Places measured given scope mask pool term_scan h =
      Places-when given (r.has scope inverted && not (is_blank r.query.query_text)) _
        (Places-add given _ _ (fed_by mask) _ _ h)
  generator_node-Places measured given scope mask pool vector_search h =
      Places-when given (r.has scope vector && not (is_blank r.query.query_text)) _ (
        Places-if given _ _ _ one (Places-add given _ _ (fed_by mask) _ _ h)
          (Places-add given _ _ (fed_by mask) _ _ h))
  generator_node-Places measured given scope mask pool graph_expand h =
      elim (Bool-cases (r.expand_depth == 0)) [
        | inl q ↦ rw q (Places-return given none fed_by (λ i m. absurd m))
        | inr q ↦ Places-when given (not (r.expand_depth == 0) && r.has scope graph) _ (
            Places-bind given _ _ (λ _. []) one
              (reach_and_degree-Places measured (ground (arith, q)) given scope)
              (λ _. Places-add given _ _ [] _ _ (λ i m. absurd m)))
      ]
  generator_node-Places measured given scope mask pool exact_lookup h =
      Places-return given none fed_by (λ i m. absurd m)
  generator_node-Places measured given scope mask pool Op.range_scan h =
      Places-return given none fed_by (λ i m. absurd m)
  generator_node-Places measured given scope mask pool brute_vector h =
      Places-return given none fed_by (λ i m. absurd m)
  generator_node-Places measured given scope mask pool Op.bitmap_filter h =
      Places-return given none fed_by (λ i m. absurd m)
  generator_node-Places measured given scope mask pool Op.mask_apply h =
      Places-return given none fed_by (λ i m. absurd m)
  generator_node-Places measured given scope mask pool Op.residual h =
      Places-return given none fed_by (λ i m. absurd m)
  generator_node-Places measured given scope mask pool Op.fuse h =
      Places-return given none fed_by (λ i m. absurd m)
  generator_node-Places measured given scope mask pool Op.top_k h =
      Places-return given none fed_by (λ i m. absurd m)
  generator_node-Places measured given scope mask pool Op.merge_modules h =
      Places-return given none fed_by (λ i m. absurd m)
  generator_node-Places measured given scope mask pool Op.accessibility h =
      Places-return given none fed_by (λ i m. absurd m)
  generator_node-Places measured given scope mask pool Op.resolve h =
      Places-return given none fed_by (λ i m. absurd m)
  generator_node-Places measured given scope mask pool Op.verify h =
      Places-return given none fed_by (λ i m. absurd m)
  generator_node-Places measured given scope mask pool Op.bundle h =
      Places-return given none fed_by (λ i m. absurd m)
  generator_node-Places measured given scope mask pool Op.empty h =
      Places-return given none fed_by (λ i m. absurd m)

  abbrev pub all : List ℕ → List ℕ
  all ids = ids

  generator_nodes-Places :
      IsMeasured r
      → (given : List ℕ) (scope : Text) (mask : Option ℕ) (pool : ℕ) (generators : List Op)
      → ((i : ℕ) → In i (fed_by mask) → In i given)
      → Places given (generator_nodes r scope mask pool generators) all
  unfolding generator_nodes
  generator_nodes-Places measured given scope mask pool [] h =
      Places-return given [] all (λ i m. absurd m)
  generator_nodes-Places measured given scope mask pool (generator ∷ rest) h =
      Places-bind given _ _ fed_by all
        (generator_node-Places measured given scope mask pool generator h)
        (λ node.
          Places-bind (fed_by node ++ given) _ _ all all
            (generator_nodes-Places measured (fed_by node ++ given) scope mask pool rest
              (λ i m. (In-append i (fed_by node) given).1 (inr (h i m))))
            (λ later.
              Places-return (later ++ (fed_by node ++ given)) (fed_by node ++ later) all
                (λ i m. both_made i (fed_by node) later given m)))

  lookup_nodes-Places : (given : List ℕ) (scope : Text) → Places given (lookup_nodes r scope) all
  unfolding lookup_nodes
  lookup_nodes-Places given scope =
      Places-if given _ _ _ all
        (Places-bind given _ _ one all (Places-add given _ _ [] _ _ (λ i m. absurd m))
          (λ id. Places-return (id ∷ given) (id ∷ []) all (head_of id given)))
        (Places-return given [] all (λ i m. absurd m))

  fused-Places :
      (given : List ℕ) (scope : Text) (first : ℕ) (rest : List ℕ)
      → ((i : ℕ) → In i (first ∷ rest) → In i given)
      → Places given (fused r scope first rest) one
  fused-Places given scope first [] h = Places-return given first one h
  fused-Places given scope first (second ∷ rest) h =
      Places-add given _ _ (first ∷ second ∷ rest) _ _ h

  with_mask-Places :
      (given : List ℕ) (scope : Text) (produced : List ℕ) (mask : Option ℕ) (id : ℕ)
      → ((i : ℕ) → In i (fed_by mask) → In i given)
      → In id given
      → Places given (with_mask r scope produced mask id) one
  unfolding with_mask
  with_mask-Places given scope produced none id h k = record {
    outcome = (Places-return given id one (single id given k)).outcome;
  }
  with_mask-Places given scope produced (some mask) id h k = record {
    outcome = λ b s v. elim (Bool-cases (any_generator r b produced)) [
      | inl t ↦ rw (t) (
          (Places-add given _ _ (id ∷ mask ∷ []) _ _
              (λ i m. elim m [ inl q ↦ subst (λ j. In j given) (sym q) k | inr n ↦ h i n ])).outcome
            b s v)
      | inr t ↦ rw (t) ((Places-return given id one (single id given k)).outcome b s v)
    ];
  }

  with_residual-Places :
      (given : List ℕ) (scope : Text) (id : ℕ)
      → In id given
      → Places given (with_residual r scope id) one
  with_residual-Places given scope id k =
      Places-if given (needs_decode r scope) _ _ one
        (Places-add given _ _ (id ∷ []) _ _ (single id given k))
        (Places-return given id one (single id given k))

  scope_root-Places :
      (given : List ℕ) (scope : Text) (mask : Option ℕ) (produced : List ℕ)
      → ((i : ℕ) → In i (fed_by mask) → In i given)
      → ((i : ℕ) → In i produced → In i given)
      → Places given (scope_root r scope mask produced) all
  unfolding scope_root
  scope_root-Places given scope mask [] h k = Places-return given [] all (λ i m. absurd m)
  scope_root-Places given scope mask (first ∷ rest) h k =
      Places-bind given _ _ one all (fused-Places given scope first rest k) (λ a.
        Places-bind (a ∷ given) _ _ one all
          (with_mask-Places (a ∷ given) scope (first ∷ rest) mask a (λ i m. inr (h i m)) (inl refl))
          (λ b.
            Places-bind (b ∷ a ∷ given) _ _ one all
              (with_residual-Places (b ∷ a ∷ given) scope b (inl refl))
              (λ c. Places-return (c ∷ b ∷ a ∷ given) (c ∷ []) all (head_of c (b ∷ a ∷ given)))))

  scope_plan-Places :
      IsMeasured r
      → (given : List ℕ) (generators : List Op) (pool : ℕ) (scope : Text)
      → Places given (scope_plan r generators pool scope) all
  unfolding scope_plan
  scope_plan-Places measured given generators pool scope =
      Places-bind given _ _ fed_by all
        (mask_for-Places given scope (not (contains generators date_scan)))
        (λ mask.
          let g1 = fed_by mask ++ given in
          let in1 : (i : ℕ) → In i (fed_by mask) → In i g1 =
            λ i m. (In-append i (fed_by mask) given).1 (inl m) in
          Places-bind g1 _ _ all all (lookup_nodes-Places g1 scope) (λ found.
            let g2 = found ++ g1 in
            let in2 : (i : ℕ) → In i (fed_by mask) → In i g2 =
              λ i m. (In-append i found g1).1 (inr (in1 i m)) in
            Places-bind g2 _ _ all all
              (generator_nodes-Places measured g2 scope mask pool generators in2)
              (λ made.
                scope_root-Places (made ++ g2) scope mask (found ++ made)
                  (λ i m. (In-append i made g2).1 (inr (in2 i m)))
                  (λ i m. both_made i found made g1 m))))

  pub scope_plans-Places :
      IsMeasured r
      → (given : List ℕ) (generators : List Op) (pool : ℕ) (scopes : List Text)
      → Places given (scope_plans r generators pool scopes) all
  unfolding scope_plans
  scope_plans-Places measured given generators pool [] =
      Places-return given [] all (λ i m. absurd m)
  scope_plans-Places measured given generators pool (scope ∷ rest) =
      Places-bind given _ _ all all (scope_plan-Places measured given generators pool scope)
        (λ root.
          Places-bind (root ++ given) _ _ all all
            (scope_plans-Places measured (root ++ given) generators pool rest)
            (λ later.
              Places-return (later ++ (root ++ given)) (root ++ later) all
                (λ i m. both_made i root later given m)))

  pub merged-Places :
      (given : List ℕ) (first : ℕ) (rest : List ℕ)
      → ((i : ℕ) → In i (first ∷ rest) → In i given)
      → Places given (merged r first rest) one
  merged-Places given first [] h = Places-return given first one h
  merged-Places given first (second ∷ rest) h = Places-add given _ _ (first ∷ second ∷ rest) _ _ h
