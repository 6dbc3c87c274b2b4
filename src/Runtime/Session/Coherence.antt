-- ===== src/Runtime/Session/Coherence.antt =====
-- session.py, `write`, `pinned` and `invalidate`: what the cache holds when no write is under way.
use vitruvio.Prelude.{
  ◌≤◌, List, ◌∷◌, ◌++◌, Option, none, some, true, In, Eq, lookup, insert, lookup-insert, if_pos,
  if_neg, ◌≡◌, ◌≢◌, ◌⊎◌, ◌∙◌, inl, inr, refl, sym, ap, subst, arith, Bool-cases, Option-cases,
}
use vitruvio.Runtime.Session.{
  Capability, Writer, Session, init, acquire, release, settle, brain, write_brain, pin, invalidate,
  accepts, capability_eq, Capability-discrete, write,
}
use vitruvio.Runtime.Session.Steps.{
  Phase, entering, leaving, running, Call, call, World, world, Step, Reachable, Read, IsQuiet,
}
use vitruvio.Runtime.Session.Exclusion.{In-middle}

module _ {H B : Type 0} ⦃e : Eq H⦄ (open_brain open_install : Capability → H → Option B)
    (composition : B → H) where
  -- An opened brain describes the composition at the head that it was opened on.
  abbrev pub IsOpening : Type 0
  IsOpening = (c : Capability) (h : H) (b : B) → open_brain c h ≡ some b → composition b ≡ h

  -- A write under way started from another head, so it will clear the cache.
  abbrev pub Unsettled : H → List (Call H) → Type 0
  Unsettled h calls =
      (w : Writer) × (before : H) × In (call w (running before)) calls × (before ≢ h)

  -- What the cache and the reads under way have to do with the head.
  pub record IsCoherent (w : World H B) : Type 0 where
    pub current :
        (c : Capability) (b : B)
        → lookup w.session.cache c ≡ some b
        → (composition b ≡ w.head) ⊎ Unsettled w.head w.calls
    pub dated : (r : Read B) → In r w.reads → r.1 ≤ w.session.generation
    pub held :
        (r : Read B)
        → In r w.reads
        → r.1 ≡ w.session.generation
        → (c : Capability) × (lookup w.session.cache c ≡ some r.0)

  -- A call that goes on, from a phase in which it had not read the head.
  turn-Unsettled :
      (h : H) (xs ys : List (Call H)) (me : Writer) (p q : Phase H)
      → ((b : H) → p ≢ running b)
      → Unsettled h (xs ++ call me p ∷ ys)
      → Unsettled h (xs ++ call me q ∷ ys)
  turn-Unsettled h xs ys me p q out (w, b, m, n) = (
    w,
    b,
    elim ((In-middle xs ys (call me p) (call w (running b))).0 m) [
      | inl r ↦ absurd (out b (ap (λ (x : Call H). x.phase) (sym r)))
      | inr k ↦ (In-middle xs ys (call me q) (call w (running b))).1 (inr k)
    ],
    n,
  )

  -- `brain` gives what is cached, or opens one and caches it.
  brain_cases :
      (s : Session B) (h : H) (c : Capability) (x : B × Session B)
      → brain open_brain c h s ≡ some x
      → ((lookup s.cache c ≡ some x.0) × (x.1 ≡ s))
        ⊎ ((lookup s.cache c ≡ none)
            × (open_brain c h ≡ some x.0)
            × (x.1 ≡ record s { cache = insert s.cache c x.0 }))
  unfolding brain
  brain_cases s h c x p = elim (Option-cases (lookup s.cache c)) [
    | inl n ↦ elim (Option-cases (open_brain c h)) [
      | inl f ↦ absurd (ground arith)
      | inr (o, f) ↦
          let q : (o, record s { cache = insert s.cache c o }) ≡ x = ground arith in
          inr (
            subst
              (λ (y : B × Session B).
                (lookup s.cache c ≡ none)
                × (open_brain c h ≡ some y.0)
                × (y.1 ≡ record s { cache = insert s.cache c y.0 }))
              q (n, f, refl))
    ]
    | inr (o, n) ↦
        let q : (o, s) ≡ x = ground arith in
        inl (subst (λ (y : B × Session B). (lookup s.cache c ≡ some y.0) × (y.1 ≡ s)) q (n, refl))
  ]

  -- A brain that is asked for is current, and stays where a read under way looks for it.
  brain-IsCoherent :
      (opening : IsOpening) (s : Session B) (h : H) (cs : List (Call H)) (rs : List (Read B))
      (c : Capability) (x : B × Session B)
      → brain open_brain c h s ≡ some x
      → IsCoherent (world s h cs rs)
      → IsCoherent (world x.1 h cs rs)
        × (lookup x.1.cache c ≡ some x.0)
        × (x.1.generation ≡ s.generation)
  brain-IsCoherent opening s h cs rs c x p i = elim (brain_cases s h c x p) [
    | inl (n, q) ↦
        subst
          (λ t.
            IsCoherent (world t h cs rs)
            × (lookup t.cache c ≡ some x.0)
            × (t.generation ≡ s.generation))
          (sym q) (i, n, refl)
    | inr (n, f, q) ↦
        subst
          (λ t.
            IsCoherent (world t h cs rs)
            × (lookup t.cache c ≡ some x.0)
            × (t.generation ≡ s.generation))
          (sym q)
          (
            record {
              current = λ d b l. elim (Capability-discrete c d) [
                | yes r ↦ inl (
                    subst (λ y. composition y ≡ h) (ground (arith, lookup-insert s.cache c d x.0))
                      (opening c h x.0 f))
                | no r ↦ i.current d b (ground (arith, lookup-insert s.cache c d x.0))
              ];
              dated = i.dated;
              held = λ r m g.
                  let (d, l) = i.held r m g in (d, ground (arith, lookup-insert s.cache c d x.0));
            },
            ground (arith, lookup-insert s.cache c c x.0),
            refl,
          )
  ]

  -- A step that leaves the cache alone.
  same-IsCoherent :
      (s s' : Session B) (h : H) (cs cs' : List (Call H)) (rs : List (Read B))
      → s'.cache ≡ s.cache
      → s'.generation ≡ s.generation
      → (Unsettled h cs → Unsettled h cs')
      → IsCoherent (world s h cs rs)
      → IsCoherent (world s' h cs' rs)
  same-IsCoherent s s' h cs cs' rs p q u i = record {
    current = λ c b l. elim (i.current c b (ap (λ t. lookup t c) (sym p) ∙ l)) [
      | inl r ↦ inl r
      | inr v ↦ inr (u v)
    ];
    dated = λ r m. subst (λ n. r.1 ≤ n) (sym q) (i.dated r m);
    held = λ r m g. let (c, l) = i.held r m (g ∙ q) in (c, ap (λ t. lookup t c) p ∙ l);
  }

  -- A cleared cache, whatever calls are under way.
  cleared :
      (s : Session B) (h : H) (cs cs' : List (Call H)) (rs : List (Read B))
      → IsCoherent (world s h cs rs)
      → IsCoherent (world (invalidate s) h cs' rs)
  unfolding invalidate lookup
  cleared s h cs cs' rs i = record {
    current = λ c b l. absurd (ground arith);
    dated = λ r m. ground (arith, i.dated r m);
    held = λ r m g. absurd (ground (arith, i.dated r m));
  }

  settle-IsCoherent :
      (s : Session B) (h : H) (xs ys : List (Call H)) (rs : List (Read B)) (me : Writer)
      (before : H)
      → IsCoherent (world s h (xs ++ call me (running before) ∷ ys) rs)
      → IsCoherent (world (settle h before s) h (xs ++ call me leaving ∷ ys) rs)
  unfolding settle
  settle-IsCoherent s h xs ys rs me before i = elim (e.dec h before) [
    | yes p ↦ rw (if_pos (e.dec h before) p s (invalidate s)) (
        same-IsCoherent s s h _ _ rs refl refl
          (λ (w, b, m, n). (
            w,
            b,
            elim ((In-middle xs ys (call me (running before)) (call w (running b))).0 m) [
              | inl r ↦ absurd (n (started w b r ∙ sym p))
              | inr k ↦ (In-middle xs ys (call me leaving) (call w (running b))).1 (inr k)
            ],
            n,
          ))
          i)
    | no p ↦ rw (if_neg (e.dec h before) p s (invalidate s)) (cleared s h _ _ rs i)
  ]
    where
      started : (w : Writer) (b : H) → call w (running b) ≡ call me (running before) → b ≡ before
      started w b r = ground (arith, ap (λ (x : Call H). x.phase) r)

  pin-IsCoherent :
      (opening : IsOpening) (s : Session B) (h : H) (cs : List (Call H)) (rs : List (Read B))
      (c : Capability) (r : Read B) (s' : Session B)
      → pin open_brain c h s ≡ some (r, s')
      → IsCoherent (world s h cs rs)
      → IsCoherent (world s' h cs (r ∷ rs))
  unfolding pin
  pin-IsCoherent opening s h cs rs c r s' p i = elim (Option-cases (brain open_brain c h s)) [
    | inl n ↦ absurd (ground arith)
    | inr (x, n) ↦
        let (j, l, g) = brain-IsCoherent opening s h cs rs c x n i in
        let q : ◌≡◌ {A = Read B × Session B} ((x.0, x.1.generation), x.1) (r, s') = ground arith in
        subst (λ (y : Read B × Session B). IsCoherent (world y.1 h cs (y.0 ∷ rs))) q
          (record {
            current = j.current;
            dated = λ t m. elim m [ inl k ↦ ground arith | inr k ↦ j.dated t k ];
            held = λ t m d. elim m [
              | inl k ↦ (c, l ∙ ap (λ (y : Read B). some y.0) (sym k))
              | inr k ↦ j.held t k d
            ];
          })
  ]

  Step-IsCoherent :
      (opening : IsOpening) (w w' : World H B)
      → Step open_brain open_install w w'
      → IsCoherent w
      → IsCoherent w'
  unfolding write_brain pin invalidate acquire release settle
  Step-IsCoherent opening w w' (Step.opened s s' h cs rs c b p) i =
      (brain-IsCoherent opening s h cs rs c (b, s') p i).0
  Step-IsCoherent opening w w' (Step.acquired s s' h cs rs me p) i =
      same-IsCoherent s s' h _ _ rs (ground arith) (ground arith) (λ (v, b, m, n). (v, b, inr m, n))
        i
  Step-IsCoherent opening w w' (Step.began s s' h xs ys rs me install b p) i =
      same-IsCoherent s' s' h _ _ rs refl refl
        (turn-Unsettled h xs ys me entering (running h) (λ b q. absurd (ground arith)))
        (elim (Bool-cases install) [
          | inl q ↦ same-IsCoherent s s' h _ _ rs (ground arith) (ground arith) (λ u. u) i
          | inr q ↦ (brain-IsCoherent opening s h _ rs write (b, s') (ground arith) i).0
        ])
  Step-IsCoherent opening w w' (Step.failed s h xs ys rs me install p) i =
      same-IsCoherent s s h _ _ rs refl refl
        (turn-Unsettled h xs ys me entering leaving (λ b q. absurd (ground arith))) i
  Step-IsCoherent opening w w' (Step.advanced s h h' cs rs me before m f) i = record {
    current = λ c b l. inr (me, before, m, f me before m);
    dated = i.dated;
    held = i.held;
  }
  Step-IsCoherent opening w w' (Step.settled s h xs ys rs me before) i =
      settle-IsCoherent s h xs ys rs me before i
  Step-IsCoherent opening w w' (Step.released s h xs ys rs me) i =
      same-IsCoherent s (release s) h _ _ rs refl refl
        (λ (v, b, m, n). (
          v,
          b,
          elim ((In-middle xs ys (call me leaving) (call v (running b))).0 m) [
            | inl r ↦ absurd (ground (arith, ap (λ (x : Call H). x.phase) r))
            | inr k ↦ k
          ],
          n,
        ))
        i
  Step-IsCoherent opening w w' (Step.pinned s s' h cs rs c r p) i =
      pin-IsCoherent opening s h cs rs c r s' p i
  Step-IsCoherent opening w w' (Step.invalidated s h cs rs) i = cleared s h cs cs rs i

  reached : IsOpening → (w : World H B) → Reachable open_brain open_install w → IsCoherent w
  unfolding init lookup
  reached opening w (Reachable.start h) = record {
    current = λ c b l. absurd (ground arith);
    dated = λ r m. absurd m;
    held = λ r m g. absurd m;
  }
  reached opening w (Reachable.next v v' r t) = Step-IsCoherent opening v v' t (reached opening v r)

  quiet_settled : (h : H) (cs : List (Call H)) → IsQuiet cs → ¬ Unsettled h cs
  quiet_settled h cs quiet (w, b, m, n) = quiet w b m

  -- If opening a brain gives the composition at the head, and the head moves only inside a `write`
  -- and never back to where a `write` under way began, then in every world that the threads can
  -- reach and in which no `write` is between its two readings of the head, each cached brain
  -- describes the composition at the head.
  pub cache_current :
      IsOpening
      → (w : World H B) → Reachable open_brain open_install w
      → IsQuiet w.calls
      → (c : Capability) (b : B) → lookup w.session.cache c ≡ some b
      → composition b ≡ w.head
  cache_current opening w r quiet c b l = elim ((reached opening w r).current c b l) [
    | inl p ↦ p
    | inr u ↦ absurd (quiet_settled w.head w.calls quiet u)
  ]

  -- If opening a brain gives the composition at the head, and the head moves only inside a `write`
  -- and never back to where a `write` under way began, then in every world that the threads can
  -- reach and in which no `write` is between its two readings of the head, a read under `pinned`
  -- whose result is accepted was answered by a brain that describes the composition at the head.
  pub accepted_current :
      IsOpening
      → (w : World H B) → Reachable open_brain open_install w
      → (r : Read B) → In r w.reads
      → accepts r.1 w.session ≡ true
      → IsQuiet w.calls
      → composition r.0 ≡ w.head
  unfolding accepts
  accepted_current opening w reach r m a quiet =
      let (c, l) = (reached opening w reach).held r m (ground arith) in
      cache_current opening w reach quiet c r.0 l
