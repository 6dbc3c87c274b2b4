-- ===== src/Indices/Graph/Edges.antt =====
-- graph.py, `_on_build_end`: the adjacency that the build compiles, as an expansion reads it.
use vitruvio.Prelude.{
  ℕ, List, [], ◌∷◌, ◌++◌, none, some, map, foldl, In-append, Text, Eq, nat_eq, text_eq, Dict,
  lookup, update, get_or, get_or-insert, In, if_pos, if_neg, ◌≡◌, ◌↔◌, ◌⊎◌, ◌∙◌, inl, inr, refl,
  sym, ap, ap₂, subst, arith, Option-cases,
}
use vitruvio.Indices.Graph.{Raw, Label, Graph, connect, pair_eq}

-- An edge leads from one position to another.
abbrev pub Joins : {F : Type 0} → Dict Text ℕ → Raw F → ℕ → ℕ → Type 0
Joins position e u v = (lookup position e.source ≡ some u) × (lookup position e.target ≡ some v)

abbrev pub label_of : {F : Type 0} → Raw F → Label F
label_of e = (e.kind, e.predicate, e.weight)

-- An edge leads from one position to another with a label.
abbrev pub Carries : {F : Type 0} → Dict Text ℕ → Raw F → ℕ → ℕ → Label F → Type 0
Carries position e u v l = Joins position e u v × (l ≡ label_of e)

module _ {K V : Type 0} ⦃e : Eq K⦄ (f : V → V) where
  pub lookup-map_values :
      (d : Dict K V) (k : K)
      → lookup (map (λ (x : K × V). (x.0, f x.1)) d) k
        ≡ elim (lookup d k) [ none ↦ none | some v ↦ some (f v) ]
  unfolding lookup
  lookup-map_values [] k = refl
  lookup-map_values ((i, v) ∷ d) k = ground (arith, lookup-map_values d k)

module _ {K A : Type 0} ⦃e : Eq K⦄ where
  -- setdefault(k, []).append(b)
  In-appended :
      (d : Dict K (List A)) (k j : K) (a b : A)
      → In a (get_or (update d k [] (λ xs. xs ++ b ∷ [])) j [])
        ↔ (In a (get_or d j []) ⊎ ((k ≡ j) × (a ≡ b)))
  In-appended d k j a b =
      let stored = get_or-insert d k j (get_or d k [] ++ b ∷ []) [] in
      elim (e.dec k j) [
        | yes p ↦
            let put = stored ∙ if_pos (e.dec k j) p _ _ in
            rw (put, p)
              (
                (λ m. elim ((In-append a (get_or d j []) (b ∷ [])).0 m) [
                  | inl n ↦ inl n
                  | inr n ↦ elim n [ inl q ↦ inr (refl, q) | inr f ↦ absurd f ]
                ]),
                (λ c.
                    (In-append a (get_or d j []) (b ∷ [])).1
                      (elim c [ inl n ↦ inl n | inr q ↦ inr (inl q.1) ])),
              )
        | no p ↦
            rw (stored ∙ if_neg (e.dec k j) p _ _)
              (λ m. inl m, λ c. elim c [ inl m ↦ m | inr q ↦ absurd (p q.0) ])
      ]

pub chain : {P Q R : Type 0} → P ↔ Q → Q ↔ R → P ↔ R
chain (f, f') (g, g') = (λ x. g (f x), λ x. f' (g' x))

module _ {A : Type 0} (P : A → Type 0) (X Y : Type 0) (a : A) (xs : List A) where
  -- One more item, with what it adds.
  extended : X ↔ ((x : A) × In x xs × P x) → Y ↔ P a → (X ⊎ Y) ↔ ((x : A) × In x (a ∷ xs) × P x)
  extended (to, from) (into, out) = (
    (λ c. elim c [
      | inl x ↦ (let (b, i, p) = to x in (b, inr i, p))
      | inr y ↦ (a, inl refl, into y)
    ]),
    (λ (b, i, p). elim i [ inl q ↦ inr (out (subst P q p)) | inr k ↦ inl (from (b, k, p)) ]),
  )

  -- One more item, which adds nothing.
  skipped : X ↔ ((x : A) × In x xs × P x) → ¬ P a → X ↔ ((x : A) × In x (a ∷ xs) × P x)
  skipped (to, from) h = (
    (λ x. let (b, i, p) = to x in (b, inr i, p)),
    (λ (b, i, p). elim i [ inl q ↦ absurd (h (subst P q p)) | inr k ↦ from (b, k, p) ]),
  )

module _ {F : Type 0} where
  -- What the adjacency holds, as the edges that were read.
  pub record Linked (position : Dict Text ℕ) (es : List (Raw F)) (g : Graph F) : Type 0 where
    pub at : g.position ≡ position
    pub heads :
        (u v : ℕ) → In v (get_or g.out u []) ↔ ((e : Raw F) × In e es × Joins position e u v)
    pub tails :
        (u v : ℕ) → In u (get_or g.into v []) ↔ ((e : Raw F) × In e es × Joins position e u v)
    pub labels :
        (u v : ℕ) (l : Label F)
        → In l (get_or g.kinds (u, v) []) ↔ ((e : Raw F) × In e es × Carries position e u v l)

  pass-Linked :
      (position : Dict Text ℕ) (es : List (Raw F)) (e : Raw F) (g : Graph F)
      → ((u v : ℕ) → ¬ Joins position e u v)
      → Linked position es g
      → Linked position (e ∷ es) g
  pass-Linked position es e g off h = record {
    at = h.at;
    heads = λ u v. skipped (λ x. Joins position x u v) _ Unit e es (h.heads u v) (off u v);
    tails = λ u v. skipped (λ x. Joins position x u v) _ Unit e es (h.tails u v) (off u v);
    labels = λ u v l.
        skipped (λ x. Carries position x u v l) _ Unit e es (h.labels u v l) (λ q. off u v q.0);
  }

  connect-Linked :
      (position : Dict Text ℕ) (es : List (Raw F)) (e : Raw F) (g : Graph F)
      → Linked position es g
      → Linked position (e ∷ es) (connect e g)
  unfolding connect
  connect-Linked position es e g h = elim (Option-cases (lookup g.position e.source)) [
    | inl p ↦
        rw (p, connect) (pass-Linked position es e g (λ u v q. ground (arith, h.at, p, q.0)) h)
    | inr (tail, p) ↦ elim (Option-cases (lookup g.position e.target)) [
      | inl q ↦
          rw (p, q, connect) (pass-Linked position es e g (λ u v j. ground (arith, h.at, q, j.1)) h)
      | inr (head, q) ↦
          rw (p, q, connect)
            (record {
              at = h.at;
              heads = λ u v. chain (In-appended g.out tail u v head) (
                  extended (λ x. Joins position x u v) _ _ e es (h.heads u v)
                    (at_pair tail head p q u v));
              tails = λ u v. chain (In-appended g.into head v u tail) (
                  extended (λ x. Joins position x u v) _ _ e es (h.tails u v)
                    (ground (arith, at_pair tail head p q u v)));
              labels = λ u v l. chain (In-appended g.kinds (tail, head) (u, v) l (label_of e)) (
                  extended (λ x. Carries position x u v l) _ _ e es (h.labels u v l)
                    (at_label tail head p q u v l));
            })
    ]
  ]
    where
      at_pair :
          (tail head : ℕ)
          → lookup g.position e.source ≡ some tail
          → lookup g.position e.target ≡ some head
          → (u v : ℕ) → ((tail ≡ u) × (v ≡ head)) ↔ Joins position e u v
      at_pair tail head p q u v = ground (arith, h.at)

      at_label :
          (tail head : ℕ)
          → lookup g.position e.source ≡ some tail
          → lookup g.position e.target ≡ some head
          → (u v : ℕ) (l : Label F)
          → ((◌≡◌ {A = ℕ × ℕ} (tail, head) (u, v)) × (l ≡ label_of e)) ↔ Carries position e u v l
      at_label tail head p q u v l = (
        (λ c. (
          (at_pair tail head p q u v).0
              (ap (λ (x : ℕ × ℕ). x.0) c.0, ap (λ (x : ℕ × ℕ). x.1) (sym c.0)),
          c.1,
        )),
        (λ c.
            let (s, t) = (at_pair tail head p q u v).1 c.0 in
            (ap₂ (λ (x y : ℕ). (x, y)) s (sym t), c.1)),
      )

  pub link-Linked :
      (position : Dict Text ℕ) (raw es : List (Raw F)) (g : Graph F)
      → Linked position es g
      → (all : List (Raw F)) × ((e : Raw F) → In e all ↔ (In e es ⊎ In e raw))
        × Linked position all (foldl (λ s e. connect e s) g raw)
  link-Linked position [] es g h =
      (es, (λ e. ((λ m. inl m), (λ c. elim c [ inl m ↦ m | inr f ↦ absurd f ]))), h)
  link-Linked position (e ∷ raw) es g h =
      let (all, same, linked) =
        link-Linked position raw (e ∷ es) (connect e g) (connect-Linked position es e g h) in
      (all, (λ x. ground (arith, same x)), linked)
