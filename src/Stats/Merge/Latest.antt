-- ===== src/Stats/Merge/Latest.antt =====
-- fragment.py, `merge`: a field that later fragments fill, as the latest of what they give.
use vitruvio.Prelude.{
  List, [], ◌∷◌, Option, none, some, true, In, Distinct, keys, Text, le_text, text_eq,
  text_discrete, text_total, text_trans, text_antisymm, text_ord, le_refl, Dict, insert, lookup,
  lookup-insert, lookup-none_of, ◌≡◌, ◌↔◌, ◌⊎◌, ◌∙◌, inl, inr, refl, sym, ap, subst, arith,
  Option-cases, Bool-cases,
}
use vitruvio.Stats.Merge.{updated, or_held, later}

module _ {A B : Type 0} (p : A → Option B) where
  -- The loop `held = p(x) or held`.
  abbrev pub latest : List A → Option B → Option B
  latest [] held = held
  latest (x ∷ xs) held = latest xs (or_held (p x) held)

  -- Two that give a value give the same.
  abbrev pub Agree : List A → Type 0
  Agree xs = (x y : A) (a b : B) → In x xs → In y xs → p x ≡ some a → p y ≡ some b → a ≡ b

  pub latest_cases :
      (xs : List A) (held : Option B)
      → ((latest xs held ≡ held) × ((x : A) → In x xs → p x ≡ none))
        ⊎ ((x : A) × (a : B) × In x xs × (p x ≡ some a) × (latest xs held ≡ some a))
  latest_cases [] held = inl (refl, λ x m. absurd m)
  latest_cases (x ∷ xs) held = elim (latest_cases xs (or_held (p x) held)) [
    | inl (e, n) ↦ elim (Option-cases (p x)) [
      | inl h ↦ inl (ground (arith, e, h), λ y m. elim m [ inl q ↦ ap p q ∙ h | inr k ↦ n y k ])
      | inr (a, h) ↦ inr (x, a, inl refl, h, ground (arith, e, h))
    ]
    | inr (y, a, m, h, e) ↦ inr (y, a, inr m, h, e)
  ]

  -- The latest value depends on the members alone, where they agree.
  pub latest_same :
      (xs ys : List A) → ((x : A) → In x xs ↔ In x ys) → Agree xs → latest xs none ≡ latest ys none
  latest_same xs ys same agree = elim (latest_cases xs none) [
    | inl (e, n) ↦ elim (latest_cases ys none) [
      | inl (f, o) ↦ e ∙ sym f
      | inr (y, b, m, h, f) ↦ absurd (ground (arith, n y ((same y).1 m), h))
    ]
    | inr (x, a, m, h, e) ↦ elim (latest_cases ys none) [
      | inl (f, o) ↦ absurd (ground (arith, o x ((same x).0 m), h))
      | inr (y, b, k, g, f) ↦
          e ∙ ap (λ (c : B). some c) (agree x y a b m ((same y).1 k) h g) ∙ sym f
    ]
  ]

-- `dict.update` reads the given dictionary first.
pub lookup-updated :
    {W : Type 0} (held given : Dict Text W) (key : Text)
    → Distinct (keys given)
    → lookup (updated held given) key ≡ or_held (lookup given key) (lookup held key)
unfolding updated lookup
lookup-updated held [] key d = refl
lookup-updated held ((k, v) ∷ given) key d = elim (text_discrete k key) [
  | yes e ↦ ground (
    arith,
    lookup-updated (insert held k v) given key d.1,
    lookup-insert held k key v,
    lookup-none_of given key (λ m. d.0 (subst (λ t. In t (keys given)) (sym e) m)),
  )
  | no n ↦
      ground (arith, lookup-updated (insert held k v) given key d.1, lookup-insert held k key v)
]

-- The latest time of a list of texts, from one that is held.
abbrev pub latest_time : List Text → Text → Text
latest_time [] held = held
latest_time (t ∷ ts) held = latest_time ts (later held t)

le_self : (t : Text) → le_text t t ≡ true
le_self t = le_refl text_ord t

later_cases :
    (held t : Text)
    → ((later held t ≡ held) ⊎ (later held t ≡ t))
      × (le_text held (later held t) ≡ true)
      × (le_text t (later held t) ≡ true)
later_cases held t = elim (Bool-cases (le_text t held)) [
  | inl c ↦ (inl (ground arith), ground (arith, le_self held), ground arith)
  | inr c ↦ (inr (ground arith), ground (arith, text_total t held), ground (arith, le_self t))
]

-- It is the held one or a member, and none is later.
latest_time-max :
    (ts : List Text) (held : Text)
    → ((latest_time ts held ≡ held) ⊎ In (latest_time ts held) ts)
      × (le_text held (latest_time ts held) ≡ true)
      × ((t : Text) → In t ts → le_text t (latest_time ts held) ≡ true)
latest_time-max [] held = (inl refl, le_self held, λ t m. absurd m)
latest_time-max (t ∷ ts) held =
    let (at, above, all) = latest_time-max ts (later held t) in
    let (which, least, most) = later_cases held t in
    (
      elim at [
        | inl e ↦ elim which [ inl q ↦ inl (e ∙ q) | inr q ↦ inr (inl (e ∙ q)) ]
        | inr m ↦ inr (inr m)
      ],
      text_trans held (later held t) (latest_time ts (later held t)) least above,
      (λ u m. elim m [
        | inl q ↦
            text_trans u (later held t) (latest_time ts (later held t))
              (subst (λ x. le_text x (later held t) ≡ true) (sym q) most) above
        | inr k ↦ all u k
      ]),
    )

pub latest_time-same :
    (ts us : List Text) → ((t : Text) → In t ts ↔ In t us) → latest_time ts [] ≡ latest_time us []
latest_time-same ts us same =
    let (at, above, all) = latest_time-max ts [] in
    let (at', above', all') = latest_time-max us [] in
    text_antisymm (latest_time ts []) (latest_time us [])
      (elim at [
        | inl e ↦ subst (λ x. le_text x (latest_time us []) ≡ true) (sym e) above'
        | inr m ↦ all' _ ((same _).0 m)
      ])
      (elim at' [
        | inl e ↦ subst (λ x. le_text x (latest_time ts []) ≡ true) (sym e) above
        | inr m ↦ all _ ((same _).1 m)
      ])
