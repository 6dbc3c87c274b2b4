-- ===== src/Planner/Templates/Placement.antt =====
-- templates.py: what building a plan keeps, so that the lemmas on the parts compose: the arena stays
-- interned and acyclic, keeps its nodes, and what is given back are ids of it.
use vitruvio.Prelude.{
  ℕ, ◌<◌, ◌≤◌, List, [], ◌∷◌, ◌++◌, Option, none, some, Bool, true, false, if◌then◌else◌, length,
  length-append, lookup, get_elem?, get_elem?-lt, Eq, Text, le_text, In, In-append, sort, ◌≡◌, inl,
  inr, refl, ap, ◌∙◌, sym, subst, arith, Option-cases,
}
use vitruvio.Planner.Ir.{Op, Node, PlanBuilder, intern, add_node}
use vitruvio.Planner.Ir.Arena.{IsInterned, IsAcyclic, intern_outcome, intern-IsAcyclic}
use vitruvio.Planner.Templates.{
  Value, Build, ◌>>=◌, continue, return_built, placed, add, fed_by, when,
}

module _ {F : Type 0} ⦃e : Eq (Node (Value F))⦄ where
  abbrev pub IsSound : PlanBuilder (Value F) → Type 0
  IsSound b = IsInterned b × IsAcyclic b.nodes

  -- the ids stand in the arena
  abbrev pub Stand : List ℕ → PlanBuilder (Value F) → Type 0
  Stand ids b = (i : ℕ) → In i ids → i < length b.nodes

  abbrev pub Keeps : PlanBuilder (Value F) → PlanBuilder (Value F) → Type 0
  Keeps b b' =
      (i : ℕ) (node : Node (Value F))
      → get_elem? b.nodes i ≡ some node
      → get_elem? b'.nodes i ≡ some node

  -- From a sound arena where the given ids stand, a build makes a sound one that keeps the nodes, and
  -- what it gives back has ids that stand in it.
  abbrev pub Made : {A : Type 0} → PlanBuilder (Value F) → Build F A → (A → List ℕ) → Type 0
  Made {A = A} b m made =
      (b' : PlanBuilder (Value F)) × (a : A) × Path (Option (PlanBuilder (Value F) × A)) (m b)
        (some (b', a))
      × IsSound b'
      × (length b.nodes ≤ length b'.nodes)
      × Stand (made a) b'

  pub record Places {A : Type 0} (given : List ℕ) (m : Build F A) (made : A → List ℕ) : Type 0 where
    pub outcome : (b : PlanBuilder (Value F)) → IsSound b → Stand given b → Made b m made

  pub Places-return :
      {A : Type 0} (given : List ℕ) (a : A) (made : A → List ℕ)
      → ((i : ℕ) → In i (made a) → In i given)
      → Places given (return_built a) made
  Places-return given a made h = record {
    outcome = λ b s k. (b, a, refl, s, omega arith, λ i m. k i (h i m));
  }

  pub Places-bind :
      {A C : Type 0} (given : List ℕ) (m : Build F A) (f : A → Build F C) (made : A → List ℕ)
      (out : C → List ℕ)
      → Places given m made
      → ((a : A) → Places (made a ++ given) (f a) out)
      → Places given (m >>= f) out
  Places-bind given m f made out h k = record {
    outcome = λ b s v.
        let (b', a, q, s', l, w) = h.outcome b s v in
        let (b'', c, q', s'', l', w') = (k a).outcome b' s' (λ i n.
          elim ((In-append i (made a) given).0 n) [
            | inl p ↦ w i p
            | inr p ↦ omega (arith, v i p, l)
          ]) in
        (b'', c, ap (λ o. continue o f) q ∙ q', s'', omega (arith, l, l'), w');
  }

  intern-length :
      (b : PlanBuilder (Value F)) (node : Node (Value F))
      → length b.nodes ≤ length (intern b node).0.nodes
  unfolding intern
  intern-length b node = elim (Option-cases (lookup b.interned node)) [
    | inl f ↦ rw (f, intern) (omega (arith, length-append b.nodes (node ∷ [])))
    | inr (id, f) ↦ rw (f, intern) (omega arith)
  ]

  pub placed_lem :
      (given : List ℕ) (op : Op) (scope : Option Text) (inputs : List ℕ) (index : Option Text)
      (params : List (Text × Value F)) (b : PlanBuilder (Value F))
      → ((i : ℕ) → In i inputs → In i given)
      → IsSound b
      → Stand given b
      → IsSound (placed op scope inputs index params b).0
        × (length b.nodes ≤ length (placed op scope inputs index params b).0.nodes)
        × Stand
            ((placed op scope inputs index params b).1 ∷ [])
            (placed op scope inputs index params b).0
  unfolding add_node
  placed_lem given op scope inputs index params b h s v =
      let node : Node (Value F) = record {
        op = op;
        scope = scope;
        params = sort (λ (p : Text × Value F) q. le_text p.0 q.0) params;
        inputs = inputs;
        index = index;
      } in
      let (w, g, _, _) = intern_outcome b node s.0 in
      (
        (w, intern-IsAcyclic b node s.1 (λ j m. v j (h j m))),
        intern-length b node,
        λ i m. elim m [
          | inl q ↦
              subst (λ j. j < length (intern b node).0.nodes) (sym q) (get_elem?-lt _ _ node g)
          | inr n ↦ absurd n
        ],
      )

  pub Places-add :
      (given : List ℕ) (op : Op) (scope : Option Text) (inputs : List ℕ) (index : Option Text)
      (params : List (Text × Value F))
      → ((i : ℕ) → In i inputs → In i given)
      → Places given (add op scope inputs index params) (λ id. id ∷ [])
  Places-add given op scope inputs index params h = record {
    outcome = λ b s v.
        let (w, l, u) = placed_lem given op scope inputs index params b h s v in
        (_, _, refl, w, l, u);
  }

  -- A build whose result has fewer ids is as sound.
  pub Places-weaken :
      {A : Type 0} (given : List ℕ) (m : Build F A) (made out : A → List ℕ)
      → Places given m made
      → ((a : A) (i : ℕ) → In i (out a) → In i (made a))
      → Places given m out
  Places-weaken given m made out h k = record {
    outcome = λ b s v.
        let (b', a, q, w, l, u) = h.outcome b s v in (b', a, q, w, l, λ i n. u i (k a i n));
  }

  pub Places-if :
      {A : Type 0} (given : List ℕ) (c : Bool) (m n : Build F A) (made : A → List ℕ)
      → Places given m made
      → Places given n made
      → Places given (if c then m else n) made
  Places-if given true m n made h k = h
  Places-if given false m n made h k = k

  -- A node that is added and given back as an option.
  pub Places-some :
      (given : List ℕ) (m : Build F ℕ)
      → Places given m (λ id. id ∷ [])
      → Places given (m >>= λ id. return_built (some id)) fed_by
  Places-some given m h =
      Places-bind given m _ (λ id. id ∷ []) fed_by h
        (λ id.
          Places-return (id ∷ given) (some id) fed_by
            (λ i n. elim n [ inl q ↦ inl q | inr p ↦ absurd p ]))

  pub Places-when :
      (given : List ℕ) (c : Bool) (m : Build F ℕ)
      → Places given m (λ id. id ∷ [])
      → Places given (when c m) fed_by
  Places-when given true m h = Places-some given m h
  Places-when given false m h = Places-return given none fed_by (λ i n. absurd n)
