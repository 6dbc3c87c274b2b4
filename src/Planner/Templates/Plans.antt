-- ===== src/Planner/Templates/Plans.antt =====
-- templates.py, `build_templates`: the candidate plans are acyclic arenas with the fixed tail, and
-- there is one unless the code raises.
use vitruvio.Prelude.{
  ℕ, some, ◌∙◌, List, [], ◌∷◌, ◌++◌, Option, none, Bool, true, false, is_nil, map, Eq, Text,
  text_eq, In, In-append, In-map_of, Dict, values, lookup, insert, lookup-some-In, if_pos, if_neg,
  ap, ◌≡◌, ◌⊎◌, inl, inr, refl, sym, subst, arith, Bool-cases, Option-cases, if◌then◌else◌,
}
use vitruvio.Planner.Ir.{Op, Node, Plan, PlanBuilder, init, finish, seq_scan, date_scan, empty}
use vitruvio.Planner.Ir.Arena.{IsAcyclic, init-IsInterned}
use vitruvio.Planner.Templates.{Value, Request, continue, with_first, with_all}
use vitruvio.Planner.Templates.Assembly.{tail, finished, empty_plan, concluded, assemble}
use vitruvio.Planner.Templates.Enumeration.{
  generator_sets, or_scan, date_scans, permitted_for, asked_limit, plans_of, plans_for, plans_over,
  candidate_plans, set_default, unique, build_templates,
}
use vitruvio.Planner.Intent.{requires}
use vitruvio.Planner.Templates.Placement.{IsSound, Stand, Places-bind, Places-add}
use vitruvio.Planner.Templates.Scopes.{IsMeasured, one, scope_plans-Places, merged-Places}
use vitruvio.Planner.Templates.Tails.{HasTail, tail-HasTail}

module _ {A : Type 0} where
  Some : List A → Type 0
  Some xs = (x : A) × In x xs

  Some-first : (x : A) (xs : List A) → Some (x ∷ xs)
  unfolding Some
  Some-first x xs = (x, inl refl)

  Some-append : (xs ys : List A) → Some xs → Some (xs ++ ys)
  unfolding Some
  Some-append xs ys (x, m) = (x, (In-append x xs ys).1 (inl m))

no_element : (A : Type 0) → ¬ Some {A = A} []
unfolding Some
no_element A (x, m) = m

Some-map : {A B : Type 0} (f : A → B) (xs : List A) → Some xs → Some (map f xs)
unfolding Some
Some-map f xs (x, m) = (f x, In-map_of f x xs m)

module _ {F : Type 0} ⦃e : Eq (Node (Value F))⦄ (r : Request F) where
  init-IsSound : IsSound (init {V = Value F})
  unfolding init
  init-IsSound = (init-IsInterned, λ i j node g m. absurd (ground arith))

  -- An acyclic plan that ends in the fixed tail, or the plan that returns nothing.
  abbrev pub IsValid : Plan (Value F) → Type 0
  IsValid plan = IsAcyclic plan.nodes × (HasTail plan.nodes plan.root ⊎ (empty_plan r ≡ some plan))

  or_scan-Some : (sets : List (List Op)) → Some (or_scan r sets)
  unfolding Some
  or_scan-Some [] = (_, inl refl)
  or_scan-Some (set ∷ sets) = (set, inl refl)

  generator_sets-Some :
      (permitted : Option (List Op)) (mandatory : List Op)
      → Some (generator_sets r permitted mandatory)
  unfolding generator_sets
  generator_sets-Some permitted mandatory = by_scan (date_scans r) _
    where
      by_scan :
          (b : Bool) (sets : List (List Op))
          → Some (if b then (date_scan ∷ []) ∷ [] else or_scan r sets)
      by_scan true sets = Some-first _ _
      by_scan false sets = or_scan-Some sets

  -- an outcome of the code that is a plan, and a valid one
  abbrev GivesPlan : Option (Plan (Value F)) → Type 0
  GivesPlan outcome = (plan : Plan (Value F)) × (outcome ≡ some plan) × IsValid plan

  -- an outcome that is a list of valid plans, not empty on a condition
  abbrev GivesPlans : Type 0 → Option (List (Plan (Value F))) → Type 0
  GivesPlans C outcome =
      (plans : List (Plan (Value F))) × (outcome ≡ some plans)
      × (C → Some plans)
      × ((plan : Plan (Value F)) → In plan plans → IsValid plan)

  empty_plan-GivesPlan : GivesPlan (empty_plan r)
  unfolding empty_plan
  empty_plan-GivesPlan =
      let placed =
        Places-bind [] _ _ (one r) (one r) (Places-add [] empty none [] none [] (λ i m. absurd m))
          (λ id. Places-add (id ∷ []) Op.bundle none (id ∷ []) none [] (λ i m. m)) in
      let (b, root, q, s, _, _) = placed.outcome init init-IsSound (λ i m. absurd m) in
      (_, ap (finished r) q, (s.1, inr (ap (finished r) q)))

  concluded-GivesPlan :
      (limit : ℕ) (roots : List ℕ) (b : PlanBuilder (Value F))
      → IsSound b
      → Stand roots b
      → GivesPlan (concluded r limit roots b)
  unfolding concluded
  concluded-GivesPlan limit [] b s v = empty_plan-GivesPlan
  concluded-GivesPlan limit (first ∷ rest) b s v =
      let (b', id, p, s', _, w) =
        (merged-Places r (first ∷ rest) first rest (λ i m. m)).outcome b s v in
      let (b'', root, q, t, h) = tail-HasTail r b' id limit s' (w _ (inl refl)) in
      (
        finish b'' root,
        ap (λ o. finished r (continue o (λ i. tail r i limit))) p ∙ ap (finished r) q,
        (t.1, inl h),
      )

  module _ (measured : IsMeasured r) where
    assemble-GivesPlan :
        (generators : List Op) (pool limit : ℕ) → GivesPlan (assemble r generators pool limit)
    unfolding assemble
    assemble-GivesPlan generators pool limit =
        let (b, roots, q, s, _, v) =
          (scope_plans-Places r measured [] generators pool r.scopes).outcome init init-IsSound
            (λ i m. absurd m) in
        rw (q, assemble) (concluded-GivesPlan limit roots b s v)

    with_first-GivesPlans :
        (C : Type 0) (one_plan : Option (Plan (Value F))) (rest : Option (List (Plan (Value F))))
        → GivesPlan one_plan
        → GivesPlans ⊥ rest
        → GivesPlans C (with_first one_plan rest)
    with_first-GivesPlans C one_plan rest (plan, p, v) (plans, q, _, w) = (
      plan ∷ plans,
      rw (p, q) refl,
      λ _. Some-first plan plans,
      λ x m. elim m [ inl k ↦ subst IsValid (sym k) v | inr k ↦ w x k ],
    )

    with_all-GivesPlans :
        (C D : Type 0) (first rest : Option (List (Plan (Value F))))
        → GivesPlans C first
        → GivesPlans D rest
        → GivesPlans C (with_all first rest)
    with_all-GivesPlans C D first rest (held, p, s, v) (later, q, _, w) = (
      held ++ later,
      rw (p, q) refl,
      λ c. Some-append held later (s c),
      λ x m. elim ((In-append x held later).0 m) [ inl k ↦ v x k | inr k ↦ w x k ],
    )

    plans_of-GivesPlans :
        (pool : ℕ) (sets : List (List Op)) → GivesPlans (Some sets) (plans_of r pool sets)
    unfolding plans_of Some
    plans_of-GivesPlans pool [] = ([], refl, (λ (x, m). absurd m), λ x m. absurd m)
    plans_of-GivesPlans pool (set ∷ sets) =
        let (plans, q, _, w) = plans_of-GivesPlans pool sets in
        with_first-GivesPlans _ _ _ (assemble-GivesPlan set pool (asked_limit r))
          (plans, q, (λ n. absurd n), w)

    plans_for-GivesPlans : (n : ℕ) → GivesPlans Unit (plans_for r n)
    plans_for-GivesPlans n =
        let (plans, q, s, w) =
          plans_of-GivesPlans _ (generator_sets r (permitted_for r) (requires r.mode)) in
        (plans, q, (λ _. s (generator_sets-Some _ _)), w)

    plans_over-GivesPlans : (n : ℕ) (grid : List ℕ) → GivesPlans Unit (plans_over r (n ∷ grid))
    unfolding plans_over
    plans_over-GivesPlans n [] =
        with_all-GivesPlans Unit ⊥ _ _ (plans_for-GivesPlans n)
          ([], refl, (λ c. absurd c), λ x m. absurd m)
    plans_over-GivesPlans n (k ∷ grid) =
        with_all-GivesPlans Unit Unit _ _ (plans_for-GivesPlans n) (plans_over-GivesPlans k grid)

    candidate_plans-GivesPlans : GivesPlans Unit (candidate_plans r)
    unfolding candidate_plans
    candidate_plans-GivesPlans =
        with_all-GivesPlans Unit ⊥ _ _ (plans_over-GivesPlans 1 (4 ∷ [])) (last (date_scans r))
      where
        last :
            (b : Bool)
            → GivesPlans ⊥ (
                if b
                then some []
                else with_first
                    (assemble r (seq_scan ∷ []) (asked_limit r) (asked_limit r))
                    (some []))
        last true = ([], refl, (λ n. absurd n), λ x m. absurd m)
        last false =
            with_first-GivesPlans ⊥ _ _
              (assemble-GivesPlan (seq_scan ∷ []) (asked_limit r) (asked_limit r))
              ([], refl, (λ n. absurd n), λ x m. absurd m)

  In-values_insert :
      (d : Dict Text (Plan (Value F))) (k : Text) (v p : Plan (Value F))
      → In p (values (insert d k v))
      → (p ≡ v) ⊎ In p (values d)
  unfolding insert
  In-values_insert [] k v p m = m
  In-values_insert ((j, w) ∷ d) k v p m = ground (arith, In-values_insert d k v p)

  set_default-In :
      (held : Dict Text (Plan (Value F))) (name : Text) (plan p : Plan (Value F))
      → In p (values (set_default r held name plan))
      → (p ≡ plan) ⊎ In p (values held)
  unfolding set_default
  set_default-In held name plan p m = elim (Option-cases (lookup held name)) [
    | inl f ↦ In-values_insert held name plan p (rw (f, set_default) at m)
    | inr (_, f) ↦ inr (rw (f, set_default) at m)
  ]

  unique-In :
      (signature : Plan (Value F) → Text) (plans : List (Plan (Value F)))
      (held : Dict Text (Plan (Value F))) (p : Plan (Value F))
      → In p (values (unique r signature plans held))
      → In p plans ⊎ In p (values held)
  unfolding unique
  unique-In signature [] held p m = inr m
  unique-In signature (plan ∷ rest) held p m =
      elim (unique-In signature rest (set_default r held (signature plan) plan) p m) [
        | inl k ↦ inl (inr k)
        | inr k ↦ elim (set_default-In held (signature plan) plan p k) [
          | inl q ↦ inl (inl q)
          | inr n ↦ inr n
        ]
      ]

  insert-Some :
      (d : Dict Text (Plan (Value F))) (k : Text) (v : Plan (Value F))
      → Some (values (insert d k v))
  unfolding insert
  insert-Some [] k v = Some-first v []
  insert-Some ((j, w) ∷ d) k v = elim (text_eq.dec j k) [
    | yes p ↦
        subst Some (sym (ap values (if_pos (text_eq.dec j k) p _ _))) (Some-first v (values d))
    | no n ↦
        subst Some (sym (ap values (if_neg (text_eq.dec j k) n _ _)))
          (Some-first w (values (insert d k v)))
  ]

  set_default-Some :
      (held : Dict Text (Plan (Value F))) (name : Text) (plan : Plan (Value F))
      → Some (values (set_default r held name plan))
  unfolding set_default Some
  set_default-Some held name plan = elim (Option-cases (lookup held name)) [
    | inl f ↦ rw (f, set_default) (insert-Some held name plan)
    | inr (v, f) ↦
        rw (f, set_default)
          (
            v,
            In-map_of (λ (y : Text × Plan (Value F)). y.1) (name, v) held
                (lookup-some-In held name v f),
          )
  ]

  unique-Some :
      (signature : Plan (Value F) → Text) (plans : List (Plan (Value F)))
      (held : Dict Text (Plan (Value F)))
      → Some plans ⊎ Some (values held)
      → Some (values (unique r signature plans held))
  unfolding unique
  unique-Some signature [] held (inl s) = absurd (no_element _ s)
  unique-Some signature [] held (inr s) = s
  unique-Some signature (plan ∷ rest) held h =
      unique-Some signature rest (set_default r held (signature plan) plan)
        (inr (set_default-Some held (signature plan) plan))

  by_signature-GivesPlans :
      (signature : Plan (Value F) → Text) (outcome : Option (List (Plan (Value F))))
      → GivesPlans Unit outcome
      → GivesPlans Unit
          (elim outcome [ none ↦ none | some plans ↦ some (values (unique r signature plans [])) ])
  by_signature-GivesPlans signature outcome (plans, q, s, v) = (
    values (unique r signature plans []),
    rw q refl,
    (λ c. unique-Some signature plans [] (inl (s c))),
    λ x m. elim (unique-In signature plans [] x m) [ inl k ↦ v x k | inr n ↦ absurd n ],
  )

  build_templates-GivesPlans :
      (signature : Plan (Value F) → Text)
      → IsMeasured r
      → GivesPlans Unit (build_templates r signature)
  unfolding build_templates
  build_templates-GivesPlans signature measured = elim (Bool-cases (is_nil r.scopes)) [
    | inl f ↦ rw f (
        with_first-GivesPlans measured Unit (empty_plan r) (some []) empty_plan-GivesPlan
          ([], refl, (λ n. absurd n), λ x m. absurd m))
    | inr f ↦ rw f (
        by_signature-GivesPlans signature (candidate_plans r) (candidate_plans-GivesPlans measured))
  ]

  -- If the query asks for no expansion, or some depth of it is allowed, or every scope that has
  -- statistics was measured at some depth, then, whatever else is asked and installed, there is a
  -- candidate plan, and each is an acyclic arena that is the plan that returns nothing or ends in the
  -- fixed tail: the bundle of the verified of the resolved of the best of the accessible of what was
  -- produced.
  pub build_templates-IsValid :
      (signature : Plan (Value F) → Text)
      → IsMeasured r
      → (plans : List (Plan (Value F))) × (build_templates r signature ≡ some plans)
        × ((plan : Plan (Value F)) × In plan plans)
        × ((plan : Plan (Value F)) → In plan plans → IsValid plan)
  unfolding Some
  build_templates-IsValid signature measured =
      let (plans, q, s, v) = build_templates-GivesPlans signature measured in (plans, q, s tt, v)
