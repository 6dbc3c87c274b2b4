-- ===== src/Indices/Graph/Walks.antt =====
-- graph.py, `expand`: the search finds the best score over all walks within the depth.
use vitruvio.Prelude.{
  ℕ, suc, ◌≤◌, ◌<◌, List, [], ◌∷◌, ◌++◌, some, true, false, nat_eq, ℕ_discrete, lookup, insert,
  lookup-insert, In, In-append, if_pos, ◌≡◌, ◌⊎◌, ◌∙◌, inl, inr, refl, sym, ap, subst, arith,
  Bool-cases, Option-cases,
}
use vitruvio.Indices.Graph.{Floats, Entry, Best, hop, dominated, relax}

-- What the search relies on: scores are ordered, and a hop over an edge keeps the order.
pub record IsScoring {F : Type 0} (floats : Floats F) (decay : F) (from : ℕ → List (ℕ × F))
    : Type 0 where
  pub total : (x y : F) → floats.le x y ≡ false → floats.le y x ≡ true
  pub trans : (x y z : F) → floats.le x y ≡ true → floats.le y z ≡ true → floats.le x z ≡ true
  pub mono :
      (n m : ℕ) (w x y : F)
      → In (m, w) (from n)
      → floats.le x y ≡ true
      → floats.le (hop floats decay x w) (hop floats decay y w) ≡ true

lookup-inserted :
    {F : Type 0} (best : Best F) (u v : ℕ) (x : F × ℕ) → u ≡ v → lookup (insert best u x) v ≡ some x
lookup-inserted best u v x p = lookup-insert best u v x ∙ if_pos (ℕ_discrete u v) p _ _

module _ {F : Type 0} (floats : Floats F) (decay : F) (from : ℕ → List (ℕ × F)) where
  -- A walk from a seed, with its score and its number of hops.
  pub data Walk (seeds : List ℕ) : ℕ → F → ℕ → Type 0 where
    start : (n : ℕ) → In n seeds → Walk seeds n floats.one 0
    step :
        (n m : ℕ) (s w : F) (d : ℕ)
        → Walk seeds n s d
        → In (m, w) (from n)
        → Walk seeds m (hop floats decay s w) (suc d)

  -- An entry has been popped, or is pending.
  abbrev pub Logged : List (Entry F) → List (Entry F) → Entry F → Type 0
  Logged done pending x = In x done ⊎ In x pending

  -- Some entry of the node has at least the score, with at most the depth.
  abbrev pub Covered : List (Entry F) → List (Entry F) → ℕ → F → ℕ → Type 0
  Covered done pending u r d =
      (s : F) × (d' : ℕ) × Logged done pending (u, s, d') × (floats.le r s ≡ true) × (d' ≤ d)

  -- The depths do not fall along the queue.
  abbrev pub Rising : List (Entry F) → Type 0
  Rising [] = Unit
  Rising (x ∷ xs) = ((y : Entry F) → In y xs → x.2 ≤ y.2) × Rising xs

  module _ (seeds : List ℕ) (limit : ℕ) where
    -- What the popped entries, the queue and the best scores have to do with each other.
    pub record Core (done pending : List (Entry F)) (best : Best F) : Type 0 where
      pub real :
          (v : ℕ) (s : F) (d : ℕ) → Logged done pending (v, s, d) → Walk seeds v s d × (d ≤ limit)
      pub kept :
          (v : ℕ) (s : F) (d : ℕ)
          → lookup best v ≡ some (s, d)
          → Logged done pending (v, s, d) × (0 < d)
      pub tops :
          (v : ℕ) (s : F) (d : ℕ)
          → Logged done pending (v, s, d)
          → 0 < d
          → (t : F) × (d' : ℕ) × (lookup best v ≡ some (t, d')) × (floats.le s t ≡ true)
      pub rising : Rising pending

    -- Every popped entry within the depth has had its steps taken.
    abbrev pub Closed : List (Entry F) → List (Entry F) → List (Entry F) → Type 0
    Closed closed done pending =
        (v : ℕ) (s : F) (d : ℕ)
        → In (v, s, d) closed
        → d < limit
        → (u : ℕ) (w : F) → In (u, w) (from v)
        → Covered done pending u (hop floats decay s w) (suc d)

  Rising-snoc :
      (xs : List (Entry F)) (z : Entry F)
      → Rising xs
      → ((y : Entry F) → In y xs → y.2 ≤ z.2)
      → Rising (xs ++ z ∷ [])
  Rising-snoc [] z r h = ((λ y m. absurd m), tt)
  Rising-snoc (x ∷ xs) z r h = (
    (λ y m. elim ((In-append y xs (z ∷ [])).0 m) [
      | inl n ↦ r.0 y n
      | inr n ↦ elim n [
        | inl e ↦ subst (λ (w : Entry F). x.2 ≤ w.2) (sym e) (h x (inl refl))
        | inr f ↦ absurd f
      ]
    ]),
    Rising-snoc xs z r.1 (λ y m. h y (inr m)),
  )

  module _ (scoring : IsScoring floats decay from) (seeds : List ℕ) (limit : ℕ) where
    pub le_self : (x : F) → floats.le x x ≡ true
    le_self x = elim (Bool-cases (floats.le x x)) [ inl h ↦ h | inr h ↦ scoring.total x x h ]

    module _ (done : List (Entry F)) (d : ℕ) where
      -- The queue lies at the depth that is being left or the next one.
      abbrev pub Near : List (Entry F) → Type 0
      Near pending =
          ((y : Entry F) → In y pending → d ≤ y.2)
          × ((x : Entry F) → Logged done pending x → x.2 ≤ suc d)

      snoc_cases :
          (pending : List (Entry F)) (z x : Entry F)
          → Logged done (pending ++ z ∷ []) x
          → Logged done pending x ⊎ (x ≡ z)
      snoc_cases pending z x l = elim l [
        | inl m ↦ inl (inl m)
        | inr m ↦ elim ((In-append x pending (z ∷ [])).0 m) [
          | inl k ↦ inl (inr k)
          | inr k ↦ elim k [ inl e ↦ inr e | inr f ↦ absurd f ]
        ]
      ]

      snoc_old :
          (pending : List (Entry F)) (z x : Entry F)
          → Logged done pending x
          → Logged done (pending ++ z ∷ []) x
      snoc_old pending z x l = elim l [
        | inl m ↦ inl m
        | inr m ↦ inr ((In-append x pending (z ∷ [])).1 (inl m))
      ]

      snoc_new : (pending : List (Entry F)) (z : Entry F) → In z (pending ++ z ∷ [])
      snoc_new pending z = (In-append z pending (z ∷ [])).1 (inr (inl refl))

      push-Near :
          (u : ℕ) (r : F) (pending : List (Entry F))
          → Near pending
          → Near (pending ++ (u, r, suc d) ∷ [])
      push-Near u r pending (low, high) = (
        (λ y m. elim ((In-append y pending ((u, r, suc d) ∷ [])).0 m) [
          | inl k ↦ low y k
          | inr k ↦ elim k [
            | inl e ↦ subst (λ (w : Entry F). d ≤ w.2) (sym e) (omega arith)
            | inr f ↦ absurd f
          ]
        ]),
        (λ x l. elim (snoc_cases pending (u, r, suc d) x l) [
          | inl k ↦ high x k
          | inr e ↦ subst (λ (w : Entry F). w.2 ≤ suc d) (sym e) (omega arith)
        ]),
      )

      push-Core :
          (u : ℕ) (r : F) (pending : List (Entry F)) (best : Best F)
          → Walk seeds u r (suc d)
          → suc d ≤ limit
          → dominated floats decay best u r ≡ false
          → Near pending
          → Core seeds limit done pending best
          → Core seeds limit done (pending ++ (u, r, suc d) ∷ []) (insert best u (r, suc d))
      push-Core u r pending best walk within new (low, high) core = record {
        real = λ v s e l. elim (snoc_cases pending z (v, s, e) l) [
          | inl k ↦ core.real v s e k
          | inr q ↦
              subst (λ (x : Entry F). Walk seeds x.0 x.1 x.2 × (x.2 ≤ limit)) (sym q) (walk, within)
        ];
        kept = λ v s e h. elim (ℕ_discrete u v) [
          | yes p ↦
              let q : (r, suc d) ≡ (s, e) = cc (lookup-inserted best u v (r, suc d) p, h) in
              (
                inr (
                    subst (λ (x : Entry F). In x (pending ++ z ∷ []))
                      (ap (λ (n : ℕ). (n, r, suc d)) p ∙ ap (λ (w : F × ℕ). (v, w.0, w.1)) q)
                      (snoc_new pending z)),
                subst (λ (w : F × ℕ). 0 < w.1) q (omega arith),
              )
          | no p ↦
              let (k, pos) = core.kept v s e (ground (arith, lookup-insert best u v (r, suc d))) in
              (snoc_old pending z (v, s, e) k, pos)
        ];
        tops = λ v s e l pos. elim (ℕ_discrete u v) [
          | yes p ↦ (r, suc d, lookup-inserted best u v (r, suc d) p, beaten v s e p l pos)
          | no p ↦ elim (snoc_cases pending z (v, s, e) l) [
            | inl k ↦
                let (t, d', h, g) = core.tops v s e k pos in
                (t, d', ground (arith, lookup-insert best u v (r, suc d)), g)
            | inr q ↦ absurd (p (ap (λ (x : Entry F). x.0) (sym q)))
          ]
        ];
        rising = Rising-snoc pending z core.rising (λ y m. high y (inr m));
      }
        where
          z : Entry F
          z = (u, r, suc d)

          beaten :
              (v : ℕ) (s : F) (e : ℕ)
              → u ≡ v
              → Logged done (pending ++ z ∷ []) (v, s, e)
              → 0 < e
              → floats.le s r ≡ true
          beaten v s e p l pos = elim (snoc_cases pending z (v, s, e) l) [
            | inl k ↦
                let (t, d', h, g) = core.tops v s e k pos in
                let lost : floats.le r t ≡ false = ground (arith, p, h, new) in
                scoring.trans s t r g (scoring.total r t lost)
            | inr q ↦ subst (λ (x : Entry F). floats.le x.1 r ≡ true) (sym q) (le_self r)
          ]

      -- What taking the steps of a node leaves behind.
      pub record Relaxed (steps : List (ℕ × F)) (score : F) (pending after : List (Entry F))
          (best : Best F) : Type 0 where
        pub core : Core seeds limit done after best
        pub near : Near after
        pub grown : (x : Entry F) → In x pending → In x after
        pub covered :
            (u : ℕ) (w : F)
            → In (u, w) steps
            → Covered done after u (hop floats decay score w) (suc d)

      pub relax-Relaxed :
          (n : ℕ) (score : F) (steps : List (ℕ × F)) (best : Best F) (pending : List (Entry F))
          → Walk seeds n score d
          → suc d ≤ limit
          → ((u : ℕ) (w : F) → In (u, w) steps → In (u, w) (from n))
          → Core seeds limit done pending best
          → Near pending
          → Relaxed steps score pending
              (relax floats decay score d steps best pending).1
              (relax floats decay score d steps best pending).0
      unfolding relax
      relax-Relaxed n score [] best pending walk within sub core near = record {
        core = core;
        near = near;
        grown = λ x m. m;
        covered = λ u w m. absurd m;
      }
      relax-Relaxed n score ((u, w) ∷ rest) best pending walk within sub core near =
          elim (Bool-cases (dominated floats decay best u r)) [
            | inl e ↦
                let ih = relax-Relaxed n score rest best pending walk within onward core near in
                rw e (record {
                  core = ih.core;
                  near = ih.near;
                  grown = ih.grown;
                  covered = λ v x m. elim m [
                    | inl q ↦ head_covered v x q _ (old_covers e _ ih.grown)
                    | inr k ↦ ih.covered v x k
                  ];
                })
            | inr e ↦
                let ih =
                  relax-Relaxed n score rest (insert best u (r, suc d))
                    (pending ++ (u, r, suc d) ∷ []) walk within onward
                    (push-Core u r pending best (Walk.step n u score w d walk (sub u w (inl refl)))
                      within e near core)
                    (push-Near u r pending near) in
                rw e (record {
                  core = ih.core;
                  near = ih.near;
                  grown = λ x m. ih.grown x ((In-append x pending ((u, r, suc d) ∷ [])).1 (inl m));
                  covered = λ v x m. elim m [
                    | inl q ↦ head_covered v x q _ (
                      r,
                      suc d,
                      inr (ih.grown _ (snoc_new pending (u, r, suc d))),
                      le_self r,
                      omega arith,
                    )
                    | inr k ↦ ih.covered v x k
                  ];
                })
          ]
        where
          r : F
          r = hop floats decay score w

          onward : (v : ℕ) (x : F) → In (v, x) rest → In (v, x) (from n)
          onward v x m = sub v x (inr m)

          head_covered :
              (v : ℕ) (x : F)
              → ◌≡◌ {A = ℕ × F} (v, x) (u, w)
              → (after : List (Entry F)) → Covered done after u r (suc d)
              → Covered done after v (hop floats decay score x) (suc d)
          head_covered v x q after c =
              subst (λ (y : ℕ × F). Covered done after y.0 (hop floats decay score y.1) (suc d))
                (sym q) c

          old_covers :
              dominated floats decay best u r ≡ true
              → (after : List (Entry F)) → ((x : Entry F) → In x pending → In x after)
              → Covered done after u r (suc d)
          old_covers e after grown = elim (Option-cases (lookup best u)) [
            | inl h ↦ absurd (ground arith)
            | inr (held, h) ↦
                let (l, pos) = core.kept u held.0 held.1 h in
                (
                  held.0,
                  held.1,
                  elim l [ inl m ↦ inl m | inr m ↦ inr (grown _ m) ],
                  ground arith,
                  near.1 (u, held.0, held.1) l,
                )
          ]
