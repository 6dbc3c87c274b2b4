-- ===== src/Planner/Templates/Tails.antt =====
-- templates.py, `_with_tail`: the tail of a plan, from its root back to what the generators produced.
use vitruvio.Prelude.{
  ℕ, ◌<◌, List, [], ◌∷◌, Option, none, some, length, get_elem?, get_elem?-lt, Eq, Text, le_text,
  sort, ◌≡◌, inl, inr, refl, sym, subst,
}
use vitruvio.Planner.Ir.{Op, Node, PlanBuilder, add_node}
use vitruvio.Planner.Ir.Arena.{intern_outcome}
use vitruvio.Planner.Templates.{Value, Request, placed}
use vitruvio.Planner.Templates.Assembly.{tail}
use vitruvio.Planner.Templates.Placement.{IsSound, placed_lem}

module _ {F : Type 0} ⦃e : Eq (Node (Value F))⦄ where
  -- A node of an operator stands at an id, with what feeds it.
  abbrev pub IsAt : List (Node (Value F)) → ℕ → Op → List ℕ → Type 0
  IsAt nodes id op inputs =
      (node : Node (Value F)) × (get_elem? nodes id ≡ some node)
      × (node.op ≡ op)
      × (node.inputs ≡ inputs)

  -- The bundle is fed by the verified rows, those by the resolved, those by the best, and those by
  -- the accessible ones of what was produced.
  abbrev pub HasTail : List (Node (Value F)) → ℕ → Type 0
  HasTail nodes root =
      (verified : ℕ) × (resolved : ℕ) × (topk : ℕ) × (accessible : ℕ) × (produced : ℕ) × IsAt nodes
        root Op.bundle (verified ∷ [])
      × IsAt nodes verified Op.verify (resolved ∷ [])
      × IsAt nodes resolved Op.resolve (topk ∷ [])
      × IsAt nodes topk Op.top_k (accessible ∷ [])
      × IsAt nodes accessible Op.accessibility (produced ∷ [])

  -- what adding a node to a sound arena does
  abbrev Added : PlanBuilder (Value F) → PlanBuilder (Value F) → ℕ → Op → List ℕ → Type 0
  Added b b' id op inputs =
      IsSound b'
      × (id < length b'.nodes)
      × IsAt b'.nodes id op inputs
      × ((i : ℕ) (o : Op) (ids : List ℕ) → IsAt b.nodes i o ids → IsAt b'.nodes i o ids)

  add_outcome :
      (b : PlanBuilder (Value F)) (op : Op) (scope : Option Text) (input : ℕ) (index : Option Text)
      (params : List (Text × Value F))
      → IsSound b
      → input < length b.nodes
      → Added b
          (placed op scope (input ∷ []) index params b).0
          (placed op scope (input ∷ []) index params b).1
          op
          (input ∷ [])
  unfolding add_node
  add_outcome b op scope input index params s l =
      let node : Node (Value F) = record {
        op = op;
        scope = scope;
        params = sort (λ (p : Text × Value F) q. le_text p.0 q.0) params;
        inputs = input ∷ [];
        index = index;
      } in
      let (_, g, keeps, _) = intern_outcome b node s.0 in
      let (sound, _, _) =
        placed_lem (input ∷ []) op scope (input ∷ []) index params b (λ i m. m) s
          (λ i m. elim m [
            | inl q ↦ subst (λ j. j < length b.nodes) (sym q) l
            | inr n ↦ absurd n
          ]) in
      (
        sound,
        get_elem?-lt _ _ node g,
        (node, g, refl, refl),
        λ i o ids (n, h, p, q). (n, keeps i n h, p, q),
      )

  module _ (r : Request F) where
    pub tail-HasTail :
        (b : PlanBuilder (Value F)) (produced limit : ℕ)
        → IsSound b
        → produced < length b.nodes
        → (b' : PlanBuilder (Value F)) × (root : ℕ) × Path
            (Option (PlanBuilder (Value F) × ℕ))
            (tail r produced limit b)
            (some (b', root))
          × IsSound b'
          × HasTail b'.nodes root
    unfolding tail
    tail-HasTail b produced limit s l =
        let (s1, l1, a1, _) = add_outcome b Op.accessibility none produced none _ s l in
        let (s2, l2, a2, k2) = add_outcome _ Op.top_k none _ none _ s1 l1 in
        let (s3, l3, a3, k3) = add_outcome _ Op.resolve none _ none _ s2 l2 in
        let (s4, l4, a4, k4) = add_outcome _ Op.verify none _ none _ s3 l3 in
        let (s5, l5, a5, k5) = add_outcome _ Op.bundle none _ none _ s4 l4 in
        (
          _,
          _,
          refl,
          s5,
          (
            _,
            _,
            _,
            _,
            produced,
            a5,
            k5 _ _ _ a4,
            k5 _ _ _ (k4 _ _ _ a3),
            k5 _ _ _ (k4 _ _ _ (k3 _ _ _ a2)),
            k5 _ _ _ (k4 _ _ _ (k3 _ _ _ (k2 _ _ _ a1))),
          ),
        )
