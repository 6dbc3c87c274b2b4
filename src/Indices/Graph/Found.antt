-- ===== src/Indices/Graph/Found.antt =====
-- graph.py, `expand`: what the loop over the queue has found when it ends.
use vitruvio.Prelude.{
  ℕ, zero, suc, ◌≤◌, ◌<◌, leb, List, [], ◌∷◌, some, true, length, nat_eq, ℕ_discrete, lookup, In,
  ◌≡◌, ◌⊎◌, inl, inr, refl, sym, subst, arith, Bool-cases,
}
use vitruvio.Indices.Graph.{Floats, Entry, Best, hop, relax, explore}
use vitruvio.Indices.Graph.Walks.{
  IsScoring, Walk, Logged, Covered, Core, Closed, relax-Relaxed, le_self,
}

module _ {F : Type 0} (floats : Floats F) (decay : F) (from : ℕ → List (ℕ × F)) (seeds : List ℕ)
    (limit : ℕ) where
  module _ (done pending : List (Entry F)) (x : Entry F) where
    -- Popping an entry keeps the log.
    popped :
        (y : Entry F)
        → Logged floats decay from done (x ∷ pending) y
        → Logged floats decay from (x ∷ done) pending y
    popped y l = elim l [
      | inl m ↦ inl (inr m)
      | inr m ↦ elim m [ inl e ↦ inl (inl e) | inr k ↦ inr k ]
    ]

    unpopped :
        (y : Entry F)
        → Logged floats decay from (x ∷ done) pending y
        → Logged floats decay from done (x ∷ pending) y
    unpopped y l = elim l [
      | inl m ↦ elim m [ inl e ↦ inr (inl e) | inr k ↦ inl k ]
      | inr m ↦ inr (inr m)
    ]

    pop-Core :
        (best : Best F)
        → Core floats decay from seeds limit done (x ∷ pending) best
        → Core floats decay from seeds limit (x ∷ done) pending best
    pop-Core best core = record {
      real = λ v s d l. core.real v s d (unpopped (v, s, d) l);
      kept = λ v s d h. let (l, pos) = core.kept v s d h in (popped (v, s, d) l, pos);
      tops = λ v s d l pos. core.tops v s d (unpopped (v, s, d) l) pos;
      rising = core.rising.1;
    }

  -- What an exploration that was not cut has found.
  pub record Found (best : Best F) : Type 0 where
    pub done : List (Entry F)
    pub core : Core floats decay from seeds limit done [] best
    pub closed : Closed floats decay from seeds limit done done []
    pub begun : (n : ℕ) → In n seeds → In (n, floats.one, 0) done

  module _ (scoring : IsScoring floats decay from) (ceiling : ℕ) where
    pub explore-Found :
        (fuel : ℕ) (done pending : List (Entry F)) (best out : Best F)
        → explore floats decay from limit ceiling fuel pending best ≡ some out
        → length out < ceiling
        → Core floats decay from seeds limit done pending best
        → Closed floats decay from seeds limit done done pending
        → ((x : Entry F)
            → Logged floats decay from done pending x
            → (y : Entry F) → In y pending
            → x.2 ≤ suc y.2)
        → ((n : ℕ) → In n seeds → Logged floats decay from done pending (n, floats.one, 0))
        → Found out
    unfolding explore
    explore-Found fuel done [] best out e short core closed span begun =
        subst Found (cc e) (record {
          done = done;
          core = core;
          closed = closed;
          begun = λ n m. elim (begun n m) [ inl k ↦ k | inr k ↦ absurd k ];
        })
    explore-Found zero done (x ∷ pending) best out e short core closed span begun =
        absurd (ground arith)
    explore-Found (suc fuel) done ((n, s, d) ∷ pending) best out e short core closed span begun =
        elim (Bool-cases (leb ceiling (length best))) [
          | inl c ↦ absurd (ground arith)
          | inr c ↦ elim (Bool-cases (leb limit d)) [
            | inl l ↦
                explore-Found fuel (x ∷ done) pending best out (ground arith) short popped_core
                  (λ v t k m h u w step. elim m [
                    | inl q ↦ absurd (past l (subst (λ (y : Entry F). y.2 < limit) q h))
                    | inr j ↦ kept_covered v t k j h u w step
                  ])
                  (λ y m z k. span y (unpopped done pending x y m) z (inr k))
                  (λ i m. popped done pending x (i, floats.one, 0) (begun i m))
            | inr l ↦
                let rel =
                  relax-Relaxed floats decay from scoring seeds limit (x ∷ done) d n s (from n) best
                    pending (popped_core.real n s d (inl (inl refl))).0 (ground (arith, l))
                    (λ u w m. m) popped_core
                    (
                      (λ y m. core.rising.0 y m),
                      (λ y k. span y (unpopped done pending x y k) x (inl refl)),
                    ) in
                explore-Found fuel (x ∷ done) (relax floats decay s d (from n) best pending).1
                  (relax floats decay s d (from n) best pending).0 out (ground arith) short rel.core
                  (λ v t k m h u w step. elim m [
                    | inl q ↦
                        taken v t k q (x ∷ done) (relax floats decay s d (from n) best pending).1
                          rel.covered u w step
                    | inr j ↦ lift v t k u w _ rel.grown (kept_covered v t k j h u w step)
                  ])
                  (λ y m z k. ground (arith, rel.near.0 z k, rel.near.1 y m))
                  (λ i m.
                    lift_log _ rel.grown _ (popped done pending x (i, floats.one, 0) (begun i m)))
          ]
        ]
      where
        x : Entry F
        x = (n, s, d)

        popped_core : Core floats decay from seeds limit (x ∷ done) pending best
        popped_core = pop-Core done pending x best core

        past : leb limit d ≡ true → ¬ (d < limit)
        past l h = ground arith

        kept_covered :
            (v : ℕ) (t : F) (k : ℕ)
            → In (v, t, k) done
            → k < limit
            → (u : ℕ) (w : F) → In (u, w) (from v)
            → Covered floats decay from (x ∷ done) pending u (hop floats decay t w) (suc k)
        kept_covered v t k j h u w step =
            let (r, d', m, g, b) = closed v t k j h u w step in
            (r, d', popped done pending x (u, r, d') m, g, b)

        taken :
            (v : ℕ) (t : F) (k : ℕ)
            → ◌≡◌ {A = Entry F} (v, t, k) x
            → (log after : List (Entry F))
            → ((u : ℕ) (w : F)
                → In (u, w) (from n)
                → Covered floats decay from log after u (hop floats decay s w) (suc d))
            → (u : ℕ) (w : F) → In (u, w) (from v)
            → Covered floats decay from log after u (hop floats decay t w) (suc k)
        taken v t k q log after h =
            subst
              (λ (y : Entry F).
                (u : ℕ) (w : F)
                → In (u, w) (from y.0)
                → Covered floats decay from log after u (hop floats decay y.1 w) (suc y.2))
              (sym q) h

        lift_log :
            (after : List (Entry F))
            → ((y : Entry F) → In y pending → In y after)
            → (y : Entry F) → Logged floats decay from (x ∷ done) pending y
            → Logged floats decay from (x ∷ done) after y
        lift_log after grown y l = elim l [ inl m ↦ inl m | inr m ↦ inr (grown y m) ]

        lift :
            (v : ℕ) (t : F) (k u : ℕ) (w : F) (after : List (Entry F))
            → ((y : Entry F) → In y pending → In y after)
            → Covered floats decay from (x ∷ done) pending u (hop floats decay t w) (suc k)
            → Covered floats decay from (x ∷ done) after u (hop floats decay t w) (suc k)
        lift v t k u w after grown (r, d', m, g, b) =
            (r, d', lift_log after grown (u, r, d') m, g, b)

  -- A walk of no hops stays at a seed.
  Walk-zero : (v : ℕ) (s : F) (d : ℕ) → Walk floats decay from seeds v s d → d ≡ 0 → In v seeds
  Walk-zero v s d (Walk.start n m) p = m
  Walk-zero v s d (Walk.step n m t w k walk edge) p = absurd (ground arith)

  -- A walk within the depth is no better than what has been found.
  module _ (scoring : IsScoring floats decay from) (best : Best F) (found : Found best) where
    walk-logged :
        (v : ℕ) (r : F) (d : ℕ)
        → Walk floats decay from seeds v r d
        → d ≤ limit
        → Covered floats decay from found.done [] v r d
    walk-logged v r d (Walk.start n m) h = (
      floats.one,
      0,
      inl (found.begun n m),
      le_self floats decay from scoring seeds limit floats.one,
      omega arith,
    )
    walk-logged v r d (Walk.step n m s w k walk edge) h =
        let (t, e, l, g, b) = walk-logged n s k walk (omega arith) in
        let (t', e', l', g', b') =
          found.closed n t e (elim l [ inl q ↦ q | inr q ↦ absurd q ]) (omega arith) v w edge in
        (
          t',
          e',
          l',
          scoring.trans (hop floats decay s w) (hop floats decay t w) t'
              (scoring.mono n v w s t edge g) g',
          omega arith,
        )

    pub Found-complete :
        (v : ℕ) (r : F) (d : ℕ)
        → Walk floats decay from seeds v r d
        → d ≤ limit
        → In v seeds ⊎ ((s : F) × (e : ℕ) × (lookup best v ≡ some (s, e)) × (floats.le r s ≡ true))
    Found-complete v r d walk h =
        let (s, e, l, g, b) = walk-logged v r d walk h in
        elim (ℕ_discrete e 0) [
          | yes p ↦ inl (Walk-zero v s e (found.core.real v s e l).0 p)
          | no p ↦
              let (t, d', held, g') = found.core.tops v s e l (ground arith) in
              inr (t, d', held, scoring.trans r s t g g')
        ]
