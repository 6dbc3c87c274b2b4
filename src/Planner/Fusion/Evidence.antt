-- ===== src/Planner/Fusion/Evidence.antt =====
-- fusion.py, `contribute`: what a candidate holds after any sequence of contributions.
use vitruvio.Prelude.{
  ℕ, ◌≤◌, if◌then◌else◌, List, [], ◌∷◌, ◌++◌, Option, none, some, false, foldl, is_nil, Text,
  text_eq, lookup, lookup-insert, contains, contains_iff, In, In-append, Distinct, ◌≡◌, ◌↔◌, ◌⊎◌,
  inl, inr, refl, dec_le, ◌∙◌, ite, sym, ap, subst, arith, Bool-cases,
}
use vitruvio.Planner.Fusion.{Candidate, fresh, improves, contribute}

pub record Contribution (F : Type 0) : Type 0 where
  pub generator : Text
  pub rank : ℕ
  pub score : F
  pub depth : ℕ

-- A rank is held, and is at most the other.
abbrev pub AtMost : Option ℕ → ℕ → Type 0
AtMost none rank = ⊥
AtMost (some held) rank = held ≤ rank

Distinct-snoc :
    {A : Type 0} (a : A) (xs : List A) → (¬ In a xs) → Distinct xs → Distinct (xs ++ a ∷ [])
Distinct-snoc a [] h d = ((λ m. m), tt)
Distinct-snoc a (x ∷ xs) h d = (
  (λ m. elim ((In-append x xs (a ∷ [])).0 m) [
    | inl n ↦ d.0 n
    | inr n ↦ elim n [ inl e ↦ h (inl (sym e)) | inr f ↦ f ]
  ]),
  Distinct-snoc a xs (λ m. h (inr m)) d.1,
)

some_given : {A : Type 0} (a : A) (xs : List A) → In a xs → is_nil xs ≡ false
some_given a [] m = absurd m
some_given a (x ∷ xs) m = refl

snoc_full : {A : Type 0} (xs : List A) (a : A) → is_nil (xs ++ a ∷ []) ≡ false
snoc_full [] a = refl
snoc_full (x ∷ xs) a = refl

module _ {F : Type 0} where
  abbrev pub contributed : Candidate F → List (Contribution F) → Candidate F
  contributed c given = foldl (λ s x. contribute x.generator x.rank x.score x.depth s) c given

  -- The rank held for a generator is the best of its ranks, and is held with that one's score.
  abbrev pub Best : Candidate F → List (Contribution F) → Type 0
  Best c given =
      ((x : Contribution F) → In x given → AtMost (lookup c.ranks x.generator) x.rank)
      × ((g : Text) (r : ℕ)
          → lookup c.ranks g ≡ some r
          → (x : Contribution F) × In x given
            × (x.generator ≡ g)
            × (x.rank ≡ r)
            × (lookup c.signals g ≡ some x.score))

  -- The depth is the least of the depths.
  abbrev pub Shallowest : Candidate F → List (Contribution F) → Type 0
  Shallowest c given =
      ((x : Contribution F) → In x given → c.depth ≤ x.depth)
      × (is_nil given ≡ false → (x : Contribution F) × In x given × (x.depth ≡ c.depth))

  -- The origins are the generators, each once.
  abbrev pub Originated : Candidate F → List (Contribution F) → Type 0
  Originated c given =
      Distinct c.origins
      × ((x : Contribution F) → In x given → In x.generator c.origins)
      × ((g : Text) → In g c.origins → (x : Contribution F) × In x given × (x.generator ≡ g))

  module _ (c : Candidate F) (x : Contribution F) (given : List (Contribution F)) where
    abbrev next : Candidate F
    next = contribute x.generator x.rank x.score x.depth c

    ranks-contribute :
        (g : Text)
        → lookup next.ranks g ≡ (
            if improves c.ranks x.generator x.rank
            then ite (text_eq.dec x.generator g) (some x.rank) (lookup c.ranks g)
            else lookup c.ranks g)
    unfolding contribute
    ranks-contribute g = ground (arith, lookup-insert c.ranks x.generator g x.rank)

    signals-contribute :
        (g : Text)
        → lookup next.signals g ≡ (
            if improves c.ranks x.generator x.rank
            then ite (text_eq.dec x.generator g) (some x.score) (lookup c.signals g)
            else lookup c.signals g)
    unfolding contribute
    signals-contribute g = ground (arith, lookup-insert c.signals x.generator g x.score)

    AtMost-contribute :
        (g : Text) (r : ℕ) → AtMost (lookup c.ranks g) r → AtMost (lookup next.ranks g) r
    AtMost-contribute g r h = rw (ranks-contribute g) (ground arith)

    Best-contribute : Best c given → Best next (x ∷ given)
    Best-contribute w = (
      λ y m. elim m [
        | inl e ↦
            subst (λ (z : Contribution F). AtMost (lookup next.ranks z.generator) z.rank) (sym e)
              own
        | inr n ↦ AtMost-contribute y.generator y.rank (w.0 y n)
      ],
      λ g r h. elim (Bool-cases (improves c.ranks x.generator x.rank)) [
        | inl i ↦ elim (text_eq.dec x.generator g) [
          | yes p ↦ (
            x,
            inl refl,
            p,
            ground (arith, ranks-contribute g),
            ground (arith, signals-contribute g),
          )
          | no p ↦
              kept g r h (ground (arith, ranks-contribute g)) (ground (arith, signals-contribute g))
        ]
        | inr i ↦
            kept g r h (ground (arith, ranks-contribute g)) (ground (arith, signals-contribute g))
      ],
    )
      where
        kept :
            (g : Text) (r : ℕ)
            → lookup next.ranks g ≡ some r
            → lookup next.ranks g ≡ lookup c.ranks g
            → lookup next.signals g ≡ lookup c.signals g
            → (y : Contribution F) × In y (x ∷ given)
              × (y.generator ≡ g)
              × (y.rank ≡ r)
              × (lookup next.signals g ≡ some y.score)
        kept g r h e f = let (y, m, p, q, t) = w.1 g r (sym e ∙ h) in (y, inr m, p, q, f ∙ t)

        own : AtMost (lookup next.ranks x.generator) x.rank
        own = rw (ranks-contribute x.generator) (ground arith)

    In-origins : (g : Text) → In g next.origins ↔ (In g c.origins ⊎ (g ≡ x.generator))
    unfolding contribute
    In-origins g =
        ground (arith, contains_iff c.origins x.generator, In-append g c.origins (x.generator ∷ []))

    origins-Distinct : Distinct c.origins → Distinct next.origins
    unfolding contribute
    origins-Distinct d = elim (Bool-cases (contains c.origins x.generator)) [
      | inl h ↦ rw h d
      | inr h ↦ rw h (
          Distinct-snoc x.generator c.origins
            (λ m. ground (arith, contains_iff c.origins x.generator)) d)
    ]

    Originated-contribute : Originated c given → Originated next (x ∷ given)
    Originated-contribute (d, f, g) = (
      origins-Distinct d,
      λ y m. elim m [
        | inl e ↦ (In-origins y.generator).1 (inr (ap (λ (z : Contribution F). z.generator) e))
        | inr n ↦ (In-origins y.generator).1 (inl (f y n))
      ],
      λ name m. elim ((In-origins name).0 m) [
        | inl n ↦ let (y, k, e) = g name n in (y, inr k, e)
        | inr e ↦ (x, inl refl, sym e)
      ],
    )

    Shallowest-contribute :
        (is_nil c.origins ≡ is_nil given) → Shallowest c given → Shallowest next (x ∷ given)
    unfolding contribute
    Shallowest-contribute e (least, among) = (
      λ y m. elim m [
        | inl f ↦ subst (λ (z : Contribution F). next.depth ≤ z.depth) (sym f) (ground arith)
        | inr n ↦ ground (arith, least y n, some_given y given n)
      ],
      λ _. elim (Bool-cases (is_nil c.origins)) [
        | inl h ↦ rw h (x, inl refl, refl)
        | inr h ↦ rw h (elim (dec_le x.depth c.depth) [
          | yes p ↦ (x, inl refl, omega arith)
          | no p ↦ let (y, m, f) = among (sym e ∙ h) in (y, inr m, omega arith)
        ])
      ],
    )

    next-origins : is_nil next.origins ≡ false
    unfolding contribute
    next-origins = elim (Bool-cases (contains c.origins x.generator)) [
      | inl h ↦ rw h (some_given x.generator c.origins ((contains_iff c.origins x.generator).0 h))
      | inr h ↦ rw h (snoc_full c.origins x.generator)
    ]

  -- A candidate that was made for these contributions, the latest first.
  abbrev pub Records : Candidate F → List (Contribution F) → Type 0
  Records c given =
      Best c given × Shallowest c given × Originated c given × (is_nil c.origins ≡ is_nil given)

  Records-contribute :
      (c : Candidate F) (x : Contribution F) (given : List (Contribution F))
      → Records c given
      → Records (contribute x.generator x.rank x.score x.depth c) (x ∷ given)
  Records-contribute c x given (w, s, o, e) = (
    Best-contribute c x given w,
    Shallowest-contribute c x given e s,
    Originated-contribute c x given o,
    next-origins c x given,
  )

  abbrev reversed_onto : List (Contribution F) → List (Contribution F) → List (Contribution F)
  reversed_onto [] given = given
  reversed_onto (x ∷ xs) given = reversed_onto xs (x ∷ given)

  Records-contributed :
      (xs : List (Contribution F)) (c : Candidate F) (given : List (Contribution F))
      → Records c given
      → Records (contributed c xs) (reversed_onto xs given)
  Records-contributed [] c given w = w
  Records-contributed (x ∷ xs) c given w =
      Records-contributed xs (contribute x.generator x.rank x.score x.depth c) (x ∷ given)
        (Records-contribute c x given w)

  In-reversed_onto :
      (y : Contribution F) (xs given : List (Contribution F))
      → In y (reversed_onto xs given) ↔ (In y xs ⊎ In y given)
  In-reversed_onto y [] given = ground arith
  In-reversed_onto y (x ∷ xs) given = ground (arith, In-reversed_onto y xs (x ∷ given))

  fresh-Records : (id : Text) → Records (fresh id) []
  unfolding lookup
  fresh-Records id = (
    ((λ x m. absurd m), (λ g r h. absurd (ground arith))),
    ((λ x m. absurd m), (λ h. absurd (ground arith))),
    (tt, (λ x m. absurd m), (λ g m. absurd m)),
    refl,
  )

  -- After any contributions to a fresh candidate, the rank held for each generator is the best
  -- that it gave, and is held with a score that came with it; the depth is the least of the
  -- depths, if there are contributions; and the origins are the generators that contributed, each
  -- once.
  pub contribute_exact :
      (id : Text) (xs : List (Contribution F))
      → Best (contributed (fresh id) xs) xs
        × Shallowest (contributed (fresh id) xs) xs
        × Originated (contributed (fresh id) xs) xs
  contribute_exact id xs =
      let ((best, from), (least, among), (once, listed, origin), _) =
        Records-contributed xs (fresh id) [] (fresh-Records id) in
      (
        (
          (λ y m. best y (push y m)),
          (λ g r h. let (y, m, p, q, t) = from g r h in (y, pull y m, p, q, t)),
        ),
        ((λ y m. least y (push y m)), (λ h. let (y, m, e) = among (full xs h) in (y, pull y m, e))),
        (
          once,
          (λ y m. listed y (push y m)),
          (λ g m. let (y, n, e) = origin g m in (y, pull y n, e)),
        ),
      )
    where
      push : (y : Contribution F) → In y xs → In y (reversed_onto xs [])
      push y m = (In-reversed_onto y xs []).1 (inl m)

      pull : (y : Contribution F) → In y (reversed_onto xs []) → In y xs
      pull y m = elim ((In-reversed_onto y xs []).0 m) [ inl n ↦ n | inr n ↦ absurd n ]

      full : (ys : List (Contribution F)) → is_nil ys ≡ false → is_nil (reversed_onto ys []) ≡ false
      full [] h = h
      full (y ∷ ys) h =
          some_given y (reversed_onto ys (y ∷ []))
            ((In-reversed_onto y ys (y ∷ [])).1 (inr (inl refl)))
