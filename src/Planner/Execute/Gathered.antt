-- ===== src/Planner/Execute/Gathered.antt =====
-- fusion.py, `accumulate`, as `Executor.run` uses it: each hit becomes a candidate of its identity.
use vitruvio.Prelude.{
  ℕ, suc, if◌then◌else◌, List, [], ◌∷◌, some, Bool, true, false, Option-cases, In, In-map_of, map,
  Text, text_eq, Dict, values, lookup, update, get_or, lookup-insert, lookup-some-In, ◌≡◌, ◌⊎◌, inl,
  inr, refl, ap, sym, ◌∙◌, if_pos, if_neg,
}
use vitruvio.Planner.Fusion.{Candidate, fresh, contribute, accumulate}

module _ {F : Type 0} where
  -- Each candidate stands under its identity.
  abbrev pub IsKeyed : Dict Text (Candidate F) → Type 0
  IsKeyed d = (id : Text) (c : Candidate F) → lookup d id ≡ some c → c.block_id ≡ id

  abbrev pub Holds : Dict Text (Candidate F) → Text → Type 0
  Holds d id = (c : Candidate F) × (lookup d id ≡ some c)

  -- what one hit does to its candidate
  abbrev receive_hit : Text → ℕ → F → ℕ → Bool → Candidate F → Candidate F
  receive_hit generator rank score depth exact c =
      let c' = contribute generator rank score depth c in
      if exact then record c' { exact = true } else c'

  receive_hit-block_id :
      (generator : Text) (rank : ℕ) (score : F) (depth : ℕ) (exact : Bool) (c : Candidate F)
      → (receive_hit generator rank score depth exact c).block_id ≡ c.block_id
  unfolding contribute
  receive_hit-block_id generator rank score depth true c = refl
  receive_hit-block_id generator rank score depth false c = refl

  get_or-block_id :
      (d : Dict Text (Candidate F)) (id : Text) → IsKeyed d → (get_or d id (fresh id)).block_id ≡ id
  get_or-block_id d id keyed = elim (Option-cases (lookup d id)) [
    | inl e ↦ rw (e, get_or) refl
    | inr (c, e) ↦ rw (e, get_or) (keyed id c e)
  ]

  IsKeyed-update :
      (d : Dict Text (Candidate F)) (id : Text) (f : Candidate F → Candidate F)
      → ((c : Candidate F) → (f c).block_id ≡ c.block_id)
      → IsKeyed d
      → IsKeyed (update d id (fresh id) f)
  IsKeyed-update d id f same keyed j c e =
      let v : Candidate F = f (get_or d id (fresh id)) in
      let g = sym (lookup-insert d id j v) ∙ e in
      elim (text_eq.dec id j) [
        | yes p ↦
            let h : some v ≡ some c = sym (if_pos (text_eq.dec id j) p _ _) ∙ g in
            let k : v ≡ c = cc in
            ap (λ (c : Candidate F). c.block_id) (sym k)
            ∙ same (get_or d id (fresh id))
            ∙ get_or-block_id d id keyed
            ∙ p
        | no n ↦ keyed j c (sym (if_neg (text_eq.dec id j) n _ _) ∙ g)
      ]

  Holds-update :
      (d : Dict Text (Candidate F)) (id j : Text) (f : Candidate F → Candidate F)
      → (j ≡ id) ⊎ Holds d j
      → Holds (update d id (fresh id) f) j
  Holds-update d id j f h =
      let v : Candidate F = f (get_or d id (fresh id)) in
      elim (text_eq.dec id j) [
        | yes p ↦ (v, lookup-insert d id j v ∙ if_pos (text_eq.dec id j) p _ _)
        | no n ↦ elim h [
          | inl e ↦ absurd (n (sym e))
          | inr (c, e) ↦ (c, lookup-insert d id j v ∙ if_neg (text_eq.dec id j) n _ _ ∙ e)
        ]
      ]

  pub IsKeyed-accumulate :
      (generator : Text) (depth : ℕ) (exact : Bool) (rank : ℕ) (hits : List (Text × F))
      (d : Dict Text (Candidate F))
      → IsKeyed d
      → IsKeyed (accumulate generator depth exact rank hits d)
  unfolding accumulate
  IsKeyed-accumulate generator depth exact rank [] d keyed = keyed
  IsKeyed-accumulate generator depth exact rank ((id, score) ∷ hits) d keyed =
      IsKeyed-accumulate generator depth exact (suc rank) hits
        (update d id (fresh id) (receive_hit generator rank score depth exact))
        (IsKeyed-update d id (receive_hit generator rank score depth exact)
          (receive_hit-block_id generator rank score depth exact) keyed)

  -- What is held stays, and each hit is held.
  pub Holds-accumulate :
      (generator : Text) (depth : ℕ) (exact : Bool) (rank : ℕ) (hits : List (Text × F))
      (d : Dict Text (Candidate F)) (j : Text)
      → In j (map (λ (hit : Text × F). hit.0) hits) ⊎ Holds d j
      → Holds (accumulate generator depth exact rank hits d) j
  unfolding accumulate
  Holds-accumulate generator depth exact rank [] d j (inl m) = absurd m
  Holds-accumulate generator depth exact rank [] d j (inr h) = h
  Holds-accumulate generator depth exact rank ((id, score) ∷ hits) d j h =
      Holds-accumulate generator depth exact (suc rank) hits
        (update d id (fresh id) (receive_hit generator rank score depth exact)) j
        (elim h [
          | inl (inl e) ↦
              inr (Holds-update d id j (receive_hit generator rank score depth exact) (inl e))
          | inl (inr m) ↦ inl m
          | inr k ↦ inr (Holds-update d id j (receive_hit generator rank score depth exact) (inr k))
        ])

  -- What is held is a candidate of its identity.
  pub held_candidate :
      (d : Dict Text (Candidate F)) (id : Text)
      → IsKeyed d
      → Holds d id
      → (c : Candidate F) × In c (values d) × (c.block_id ≡ id)
  held_candidate d id keyed (c, e) = (
    c,
    In-map_of (λ (y : Text × Candidate F). y.1) (id, c) d (lookup-some-In d id c e),
    keyed id c e,
  )
