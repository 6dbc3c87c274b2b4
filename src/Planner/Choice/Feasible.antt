-- ===== src/Planner/Choice/Feasible.antt =====
-- planner.py, `_run`: the choice is admissible, and the best of what is admissible.
use vitruvio.Prelude.{
  List, [], ◌∷◌, Option, none, some, Bool, true, false, ◌&&◌, filterb, is_nil, sort, text_total,
  text_trans, In, In-map_of, In-filterb, In-sort, All-In, IsSorted, IsSorted-sort, ◌≡◌, ◌↔◌, ◌⊎◌,
  inl, inr, refl, sym, subst, ◌∙◌, arith, Bool-cases, Option-cases,
}
use vitruvio.Planner.Ir.{Plan}
use vitruvio.Planner.Fusion.{Floats}
use vitruvio.Planner.Fusion.Ranking.{IsOrdered}
use vitruvio.Planner.Choice.{
  Costed, Pricing, is_indexed, is_valid, larger, best, indexed_best, floor_at, floor, entry, costed,
  le_entry, pool, first, choose,
}

both_hold : (a b : Bool) → (a && b) ≡ true → a ≡ true
both_hold a b e = ground arith

empty_of : {A : Type 0} (xs : List A) (a : A) → is_nil xs ≡ true → ¬ In a xs
empty_of [] a e m = m
empty_of (x ∷ xs) a e m = absurd (cc)

both_are : (a b : Bool) → a ≡ true → b ≡ true → (a && b) ≡ true
both_are a b e f = ground arith

some_same : {A : Type 0} (a b : A) → some a ≡ some b → a ≡ b
some_same a b e = cc

module _ {V F : Type 0} (floats : Floats F) (ordered : IsOrdered floats) (p : Pricing V F) where
  le_entry_total : (a b : Costed V F) → le_entry floats p a b ≡ false → le_entry floats p b a ≡ true
  le_entry_total a b h = ground (
    arith,
    ordered.total a.objective b.objective,
    ordered.total b.objective a.objective,
    text_total (p.signature a.plan) (p.signature b.plan),
  )

  le_entry_trans :
      (a b c : Costed V F)
      → le_entry floats p a b ≡ true
      → le_entry floats p b c ≡ true
      → le_entry floats p a c ≡ true
  le_entry_trans a b c h g = ground (
    arith,
    ordered.trans a.objective b.objective c.objective,
    ordered.trans b.objective c.objective a.objective,
    ordered.trans c.objective a.objective b.objective,
    text_trans (p.signature a.plan) (p.signature b.plan) (p.signature c.plan),
  )

  reflexive : (a : F) → floats.le a a ≡ true
  reflexive a = elim (Bool-cases (floats.le a a)) [ inl t ↦ t | inr f ↦ ordered.total a a f ]

  larger_reached :
      (a : F) (later : Option F)
      → (larger floats p a later ≡ a) ⊎ (later ≡ some (larger floats p a later))
  larger_reached a none = inl refl
  larger_reached a (some b) = ground arith

  -- the best recall is that of a valid plan
  best_reached :
      (plans : List (Plan V)) (held : F)
      → best floats p plans ≡ some held
      → (plan : Plan V) × In plan plans × (is_valid floats p plan ≡ true) × (p.recall plan ≡ held)
  unfolding best
  best_reached [] held e = absurd (cc)
  best_reached (plan ∷ rest) held e =
      elim (Bool-cases (is_valid floats p plan && is_indexed plan.nodes)) [
        | inl t ↦ elim (larger_reached (p.recall plan) (best floats p rest)) [
          | inl f ↦
              let g : some (larger floats p (p.recall plan) (best floats p rest)) ≡ some held =
                rw (t, best) at e in
              (plan, inl refl, (both_hold _ _ t), sym f ∙ some_same _ _ g)
          | inr f ↦
              let g : some (larger floats p (p.recall plan) (best floats p rest)) ≡ some held =
                rw (t, best) at e in
              let (other, m, v, q) = best_reached rest held (f ∙ g) in (other, inr m, v, q)
        ]
        | inr t ↦
            let (other, m, v, q) = best_reached rest held (rw (t, best) at e) in
            (other, inr m, v, q)
      ]

  floor_at_reached : (held : F) → floats.le (floor_at floats p held) held ≡ true
  floor_at_reached held = ground (arith, reflexive held)

  reaches :
      (plans : List (Plan V)) (plan : Plan V) (held : F)
      → ((x : F) → floats.le (p.less_slack x) x ≡ true)
      → indexed_best floats p plans ≡ held
      → floats.le held (p.recall plan) ≡ true
      → is_valid floats p plan ≡ true
      → (entry floats p (floor floats p plans) plan).admissible ≡ true
  reaches plans plan held slack e l v =
      let f : floats.le (floor floats p plans) held ≡ true =
        subst (λ x. floats.le (floor floats p plans) x ≡ true) e
          (floor_at_reached (indexed_best floats p plans)) in
      let g = ordered.trans (floor floats p plans) held (p.recall plan) f l in
      let h =
        ordered.trans (p.less_slack (floor floats p plans)) (floor floats p plans) (p.recall plan)
          (slack (floor floats p plans)) g in
      both_are _ _ v h

  -- If a plan is valid and no recall is negative, a valid plan reaches the floor.
  floor_reached :
      (plans : List (Plan V)) (plan : Plan V)
      → ((x : F) → floats.le (p.less_slack x) x ≡ true)
      → ((other : Plan V) → floats.le floats.zero (p.recall other) ≡ true)
      → In plan plans
      → is_valid floats p plan ≡ true
      → (other : Plan V) × In other plans
        × ((entry floats p (floor floats p plans) other).admissible ≡ true)
  floor_reached plans plan slack positive m v = elim (Option-cases (best floats p plans)) [
    | inl e ↦ (
      plan,
      m,
      reaches plans plan floats.zero slack (rw (e, indexed_best) refl) (positive plan) v,
    )
    | inr (held, e) ↦
        let (other, n, w, q) = best_reached plans held e in
        (
          other,
          n,
          reaches plans other held slack (rw (e, indexed_best) refl)
              (subst (λ x. floats.le held x ≡ true) (sym q) (reflexive held)) w,
        )
  ]

  first_least :
      (xs : List (Costed V F)) (c d : Costed V F)
      → IsSorted (le_entry floats p) xs
      → first floats p xs ≡ some c
      → In d xs
      → In c xs × ((d ≡ c) ⊎ (le_entry floats p c d ≡ true))
  first_least [] c d s e m = absurd m
  first_least (x ∷ xs) c d s e m =
      let q : x ≡ c = some_same x c e in
      (
        inl (sym q),
        elim m [
          | inl f ↦ inl (f ∙ q)
          | inr n ↦ inr (
              subst (λ y. le_entry floats p y d ≡ true) q
                (All-In (λ y. le_entry floats p x y ≡ true) d xs s.0 n))
        ],
      )

  first_of :
      (xs : List (Costed V F)) (d : Costed V F)
      → In d xs
      → (c : Costed V F) × (first floats p xs ≡ some c)
  first_of [] d m = absurd m
  first_of (x ∷ xs) d m = (x, refl)

  feasible_pool :
      (entries : List (Costed V F)) (d : Costed V F)
      → In d entries
      → d.admissible ≡ true
      → (c : Costed V F) → In c (pool floats p entries) ↔ (In c entries × (c.admissible ≡ true))
  feasible_pool entries d m a c =
      elim (Bool-cases (is_nil (filterb (λ (c : Costed V F). c.admissible) entries))) [
        | inl e ↦
            absurd
              (empty_of _ d e ((In-filterb (λ (c : Costed V F). c.admissible) d entries).1 (m, a)))
        | inr e ↦ rw (e, pool) (In-filterb (λ (c : Costed V F). c.admissible) c entries)
      ]

  -- If the compared floats are ordered, the slack is no gain, no recall is negative, and some
  -- candidate is valid, then a plan is chosen; it is a candidate, valid, and within the slack of the
  -- floor; and no admissible candidate has a lower objective, or the same with an earlier signature.
  pub choose_exact :
      (plans : List (Plan V)) (plan : Plan V)
      → ((x : F) → floats.le (p.less_slack x) x ≡ true)
      → ((other : Plan V) → floats.le floats.zero (p.recall other) ≡ true)
      → In plan plans
      → is_valid floats p plan ≡ true
      → (c : Costed V F) × (choose floats p plans ≡ some c)
        × In c (costed floats p plans)
        × (c.admissible ≡ true)
        × ((d : Costed V F)
            → In d (costed floats p plans)
            → d.admissible ≡ true
            → (d ≡ c) ⊎ (le_entry floats p c d ≡ true))
  unfolding choose costed
  choose_exact plans plan slack positive m v =
      let (other, n, a) = floor_reached plans plan slack positive m v in
      let entries : List (Costed V F) = costed floats p plans in
      let o : Costed V F = entry floats p (floor floats p plans) other in
      let k : In o entries = In-map_of (entry floats p (floor floats p plans)) other plans n in
      let feasible = feasible_pool entries o k a in
      let ranked : List (Costed V F) = sort (le_entry floats p) (pool floats p entries) in
      let sorted =
        IsSorted-sort (le_entry floats p) le_entry_total le_entry_trans (pool floats p entries) in
      let (c, e) =
        first_of ranked o
          ((In-sort (le_entry floats p) o (pool floats p entries)).1 ((feasible o).1 (k, a))) in
      let (i, _) =
        first_least ranked c o sorted e
          ((In-sort (le_entry floats p) o (pool floats p entries)).1 ((feasible o).1 (k, a))) in
      let (h, g) = (feasible c).0 ((In-sort (le_entry floats p) c (pool floats p entries)).0 i) in
      (
        c,
        e,
        h,
        g,
        λ d r s.
            (first_least ranked c d sorted e (
              (In-sort (le_entry floats p) d (pool floats p entries)).1 ((feasible d).1 (r, s)))).1,
      )
