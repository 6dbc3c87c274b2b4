-- ===== src/Planner/Ir/Arena.antt =====
-- ir.py, `PlanBuilder`: interning keeps each node once, and its id for good.
use vitruvio.Prelude.{
  ℕ, zero, suc, ◌+◌, ◌<◌, List, [], ◌∷◌, ◌++◌, some, Bool, true, length, get_elem?, Eq, lookup,
  lookup-insert, contains, contains_iff, nat_eq, In, In-position, ◌≡◌, ◌↔◌, ◌⊎◌, inl, inr, refl,
  sym, subst, arith, Bool-cases, Option-cases,
}
use vitruvio.Planner.Ir.{
  Node, Plan, PlanBuilder, init, intern, positions, generators, dependents, is_generator,
}

module _ {A : Type 0} where
  get_elem?-snoc :
      (xs : List A) (x a : A) (i : ℕ)
      → (get_elem? (xs ++ x ∷ []) i ≡ some a)
        ↔ ((get_elem? xs i ≡ some a) ⊎ ((i ≡ length xs) × (x ≡ a)))
  get_elem?-snoc [] x a zero = ground arith
  get_elem?-snoc [] x a (suc i) = ground arith
  get_elem?-snoc (y ∷ xs) x a zero = ground arith
  get_elem?-snoc (y ∷ xs) x a (suc i) = ground (arith, get_elem?-snoc xs x a i)

module _ {V : Type 0} ⦃e : Eq (Node V)⦄ where
  -- A node is interned under an id exactly if it stands there in the arena.
  abbrev pub IsInterned : PlanBuilder V → Type 0
  IsInterned b =
      (node : Node V) (i : ℕ)
      → (lookup b.interned node ≡ some i) ↔ (get_elem? b.nodes i ≡ some node)

  -- Each node of the arena is fed by nodes before it.
  abbrev pub IsAcyclic : List (Node V) → Type 0
  IsAcyclic nodes =
      (i j : ℕ) (node : Node V) → get_elem? nodes i ≡ some node → In j node.inputs → j < i

  pub init-IsInterned : IsInterned init
  unfolding init lookup
  init-IsInterned node i = ground arith

  -- In a builder that has interned exactly its nodes, adding a node gives an id at which the arena
  -- holds it, keeps every other node where it is, changes nothing if the node is there, and the
  -- builder has again interned exactly its nodes.
  pub intern_outcome :
      (b : PlanBuilder V) (node : Node V)
      → IsInterned b
      → IsInterned (intern b node).0
        × (get_elem? (intern b node).0.nodes (intern b node).1 ≡ some node)
        × ((i : ℕ) (other : Node V)
            → get_elem? b.nodes i ≡ some other
            → get_elem? (intern b node).0.nodes i ≡ some other)
        × (In node b.nodes → (intern b node).0 ≡ b)
  unfolding intern
  intern_outcome b node w = elim (Option-cases (lookup b.interned node)) [
    | inr (id, f) ↦ rw (f, intern) (w, (w node id).0 f, λ i other h. h, λ m. refl)
    | inl f ↦
        rw (f, intern)
          (
            λ other i. ground (
              arith,
              lookup-insert b.interned node other (length b.nodes),
              get_elem?-snoc b.nodes node other i,
              w other i,
              w node i,
            ),
            (get_elem?-snoc b.nodes node node (length b.nodes)).1 (inr (refl, refl)),
            λ i other h. (get_elem?-snoc b.nodes node other i).1 (inl h),
            λ m. let (i, g) = In-position b.nodes node m in absurd (ground (arith, (w node i).1 g)),
          )
  ]

  -- An arena whose nodes are fed by nodes before them stays so when a node is added that is
  -- fed by nodes of the arena.
  pub intern-IsAcyclic :
      (b : PlanBuilder V) (node : Node V)
      → IsAcyclic b.nodes
      → ((j : ℕ) → In j node.inputs → j < length b.nodes)
      → IsAcyclic (intern b node).0.nodes
  unfolding intern
  intern-IsAcyclic b node w h = elim (Option-cases (lookup b.interned node)) [
    | inr (id, f) ↦ rw (f, intern) w
    | inl f ↦
        rw (f, intern)
          λ i j other g m. elim ((get_elem?-snoc b.nodes node other i).0 g) [
            | inl k ↦ w i j other k m
            | inr (k, q) ↦ omega (arith, k, h j (subst (λ (n : Node V). In j n.inputs) (sym q) m))
          ]
  ]

module _ {V : Type 0} (test : Node V → Bool) where
  -- A node that passes the test stands at the position, counted from the start.
  abbrev Passing : ℕ → ℕ → List (Node V) → Type 0
  Passing start i nodes =
      (k : ℕ) × (node : Node V) × (i ≡ start + k)
      × (get_elem? nodes k ≡ some node)
      × (test node ≡ true)

  Passing-cons :
      (start i : ℕ) (node : Node V) (rest : List (Node V))
      → Passing start i (node ∷ rest)
        ↔ (((i ≡ start) × (test node ≡ true)) ⊎ Passing (suc start) i rest)
  Passing-cons start i node rest = (
    λ (k, n, e, g, h). forth k (n, e, g, h),
    λ m. elim m [
      | inl (e, h) ↦ (0, node, omega arith, refl, h)
      | inr (k, n, e, g, h) ↦ (suc k, n, omega arith, g, h)
    ],
  )
    where
      forth :
          (k : ℕ)
          → ((n : Node V) × (i ≡ start + k)
              × (get_elem? (node ∷ rest) k ≡ some n)
              × (test n ≡ true))
          → ((i ≡ start) × (test node ≡ true)) ⊎ Passing (suc start) i rest
      forth zero (n, e, g, h) = inl (omega arith, ground arith)
      forth (suc k) (n, e, g, h) = inr (k, n, omega arith, g, h)

  In-positions :
      (start i : ℕ) (nodes : List (Node V))
      → In i (positions test start nodes) ↔ Passing start i nodes
  unfolding positions
  In-positions start i [] = (λ m. absurd m, λ (k, n, e, g, h). ground arith)
  In-positions start i (node ∷ rest) = elim (Bool-cases (test node)) [
    | inl t ↦ rw t (ground (arith, In-positions (suc start) i rest, Passing-cons start i node rest))
    | inr t ↦ rw t (ground (arith, In-positions (suc start) i rest, Passing-cons start i node rest))
  ]

  Passing-start :
      (i : ℕ) (nodes : List (Node V))
      → Passing 0 i nodes ↔ ((node : Node V) × (get_elem? nodes i ≡ some node) × (test node ≡ true))
  Passing-start i nodes = (
    λ (k, n, e, g, h).
        let same : k ≡ i = omega arith in (n, subst (λ j. get_elem? nodes j ≡ some n) same g, h),
    λ (n, g, h). (i, n, omega arith, g, h),
  )

module _ {V : Type 0} (plan : Plan V) (i : ℕ) where
  -- The generators of a plan are the positions of its generator nodes, and the dependents of a
  -- node are the positions of the nodes that it feeds.
  pub positions_exact :
      (In i (generators plan)
        ↔ ((node : Node V) × (get_elem? plan.nodes i ≡ some node) × (is_generator node.op ≡ true)))
      × ((id : ℕ)
          → In i (dependents plan id)
            ↔ ((node : Node V) × (get_elem? plan.nodes i ≡ some node) × In id node.inputs))
  unfolding generators dependents
  positions_exact = (
    (
      λ m.
          (Passing-start (λ node. is_generator node.op) i plan.nodes).0
            ((In-positions (λ node. is_generator node.op) 0 i plan.nodes).0 m),
      λ m.
          (In-positions (λ node. is_generator node.op) 0 i plan.nodes).1
            ((Passing-start (λ node. is_generator node.op) i plan.nodes).1 m),
    ),
    λ id. (
      λ m.
          let (n, g, h) =
            (Passing-start (λ node. contains node.inputs id) i plan.nodes).0
              ((In-positions (λ node. contains node.inputs id) 0 i plan.nodes).0 m) in
          (n, g, (contains_iff n.inputs id).0 h),
      λ (n, g, h). (In-positions (λ node. contains node.inputs id) 0 i plan.nodes).1 (
          (Passing-start (λ node. contains node.inputs id) i plan.nodes).1
            (n, g, (contains_iff n.inputs id).1 h)),
    ),
  )
