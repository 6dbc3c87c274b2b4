-- ===== src/Planner/Execute/Verification.antt =====
-- execute.py, `_verify`: which candidates are answered, and what is written down of the others.
use vitruvio.Prelude.{
  List, [], ◌∷◌, some, true, false, In, Bool-cases, contains, contains_iff, Text, text, text_eq,
  Dict, ◌≡◌, ◌↔◌, ◌⊎◌, inl, inr, refl, ap, sym, subst, ◌∙◌, arith,
}
use vitruvio.Planner.Fusion.{Candidate}
use vitruvio.Planner.Execute.{
  Attempt, returned, raised, Sdk, Executor, Match, Degradation, has_block_filters, no_content,
  admissible_unresolvable,
}
use vitruvio.Planner.Execute.Tail.{
  answer, matches_block, verify_content, verify_proved, verify_in, verify,
}
use vitruvio.Planner.Execute.Filtering.{Asked, matches_block_exact}

pub Attempt-cases :
    {A : Type 0} (r : Attempt A) → ((e : Text) × (r ≡ raised e)) ⊎ ((a : A) × (r ≡ returned a))
Attempt-cases (returned a) = inr (a, refl)
Attempt-cases (raised e) = inl (e, refl)

-- A candidate that was found by identity or by association.
abbrev pub Associated : {F : Type 0} → Candidate F → Type 0
Associated c = In (text "ExactLookup") c.origins ⊎ In (text "GraphExpand") c.origins

Associated-exact :
    {F : Type 0} (c : Candidate F) → (admissible_unresolvable c ≡ true) ↔ Associated c
unfolding admissible_unresolvable
Associated-exact c = ground (
  arith,
  contains_iff c.origins (text "ExactLookup"),
  contains_iff c.origins (text "GraphExpand"),
)

module _ {F M B : Type 0} (sdk : Sdk M B) (x : Executor F M) where
  -- The first module that holds a block.
  abbrev pub FirstHolder : Dict Text M → Text → Text → M → Type 0
  FirstHolder [] id memory_type m = ⊥
  FirstHolder ((t, n) ∷ rest) id memory_type m =
      (In id (sdk.members n) × (memory_type ≡ t) × (m ≡ n))
      ⊎ ((¬ In id (sdk.members n)) × FirstHolder rest id memory_type m)

  -- The block is there, and the filters are satisfied.
  abbrev pub IsRead : Text → M → Candidate F → F → Match F → Type 0
  IsRead memory_type m c score found =
      (block : B) × (sdk.get m c.block_id ≡ returned block)
      × Asked sdk x c.block_id block
      × (found ≡ answer sdk x c.block_id memory_type score true (sdk.payload block))

  -- The block is proved to be a member; if its bytes are gone, it was not found by its content and
  -- no filter asks for any.
  abbrev pub IsAnswer : Text → M → Candidate F → F → Match F → Type 0
  IsAnswer memory_type m c score found =
      (sdk.proves m c.block_id ≡ returned true)
      × (((sdk.is_resolvable m c.block_id ≡ true) × IsRead memory_type m c score found)
          ⊎ ((sdk.is_resolvable m c.block_id ≡ false)
              × Associated c
              × (has_block_filters x.query.filters ≡ false)
              × (found ≡ answer sdk x c.block_id memory_type score false no_content)))

  verify_content_exact :
      (memory_type : Text) (m : M) (c : Candidate F) (score : F) (ds : List Degradation)
      (found : Match F)
      → ((verify_content sdk x memory_type m c.block_id score ds).0 ≡ some found)
        ↔ IsRead memory_type m c score found
  unfolding verify_content
  verify_content_exact memory_type m c score ds found =
      elim (Attempt-cases (sdk.get m c.block_id)) [
        | inl (e, g) ↦ (λ h. absurd (failed e g h), λ (block, f, _, _). absurd (cc))
        | inr (block, g) ↦ (
          λ h.
              let (a, e) = (at_block block g).0 h in
              (block, g, (matches_block_exact sdk x c.block_id block).0 a, e),
          λ (other, f, a, e).
              let same : other ≡ block = cc in
              (at_block block g).1 (
                (matches_block_exact sdk x c.block_id block).1
                    (subst (Asked sdk x c.block_id) same a),
                e ∙ ap (λ b. answer sdk x c.block_id memory_type score true (sdk.payload b)) same,
              ),
        )
      ]
    where
      failed :
          (e : Text)
          → sdk.get m c.block_id ≡ raised e
          → ¬ ((verify_content sdk x memory_type m c.block_id score ds).0 ≡ some found)
      failed e g h = absurd (ground arith)

      at_block :
          (block : B)
          → sdk.get m c.block_id ≡ returned block
          → ((verify_content sdk x memory_type m c.block_id score ds).0 ≡ some found) ↔ (
              (matches_block sdk x c.block_id block ≡ true)
              × (found ≡ answer sdk x c.block_id memory_type score true (sdk.payload block)))
      at_block block g = elim (Bool-cases (matches_block sdk x c.block_id block)) [
        | inl t ↦ rw (g, t, verify_content) (λ h. (refl, cc), λ (_, e). ap some (sym e))
        | inr t ↦ rw (g, t, verify_content) (λ h. absurd (cc), λ (n, _). absurd (cc))
      ]

  verify_proved_exact :
      (memory_type : Text) (m : M) (c : Candidate F) (score : F) (ds : List Degradation)
      (found : Match F)
      → sdk.proves m c.block_id ≡ returned true
      → ((verify_proved sdk x memory_type m c score ds).0 ≡ some found)
        ↔ IsAnswer memory_type m c score found
  unfolding verify_proved
  verify_proved_exact memory_type m c score ds found p =
      elim (Bool-cases (sdk.is_resolvable m c.block_id)) [
        | inl r ↦
            rw (r, verify_proved)
              (
                λ h. (p, inl (refl, (verify_content_exact memory_type m c score ds found).0 h)),
                λ (_, k). elim k [
                  | inl (_, a) ↦ (verify_content_exact memory_type m c score ds found).1 a
                  | inr (f, _, _, _) ↦ absurd (cc)
                ],
              )
        | inr r ↦ elim (Bool-cases (admissible_unresolvable c)) [
          | inl a ↦ elim (Bool-cases (has_block_filters x.query.filters)) [
            | inl b ↦
                rw (r, a, b, verify_proved)
                  (
                    λ h. absurd (cc),
                    λ (_, k). elim k [ inl (f, _) ↦ absurd (cc) | inr (_, _, f, _) ↦ absurd (cc) ],
                  )
            | inr b ↦
                rw (r, a, b, verify_proved)
                  (
                    λ h. (p, inr (refl, (Associated-exact c).0 a, refl, cc)),
                    λ (_, k). elim k [
                      | inl (f, _) ↦ absurd (cc)
                      | inr (_, _, _, e) ↦ ap some (sym e)
                    ],
                  )
          ]
          | inr a ↦
              rw (r, a, verify_proved)
                (
                  λ h. absurd (cc),
                  λ (_, k). elim k [
                    | inl (f, _) ↦ absurd (cc)
                    | inr (_, s, _, _) ↦ let t = (Associated-exact c).1 s in absurd (cc)
                  ],
                )
        ]
      ]

  verify_in_exact :
      (memory_type : Text) (m : M) (c : Candidate F) (score : F) (ds : List Degradation)
      (found : Match F)
      → ((verify_in sdk x memory_type m c score ds).0 ≡ some found)
        ↔ IsAnswer memory_type m c score found
  unfolding verify_in
  verify_in_exact memory_type m c score ds found = elim (Attempt-cases (sdk.proves m c.block_id)) [
    | inl (e, g) ↦ rw (g, verify_in) (λ h. absurd (cc), λ (f, _). absurd (cc))
    | inr (false, g) ↦ rw (g, verify_in) (λ h. absurd (cc), λ (f, _). absurd (ground arith))
    | inr (true, g) ↦ (
      λ h. (verify_proved_exact memory_type m c score ds found g).0 (rw (g, verify_in) at h),
      λ a. rw (g, verify_in) ((verify_proved_exact memory_type m c score ds found g).1 a),
    )
  ]

  -- A candidate is answered exactly if the first module that holds its block proves it to be a
  -- member, and either the block can be read and is in the filters, or its bytes are gone, it
  -- was found by identity or association, and there are no filters. The match is then that block's.
  pub verify_exact :
      (modules : Dict Text M) (c : Candidate F) (score : F) (ds : List Degradation)
      (found : Match F)
      → ((verify sdk x modules c score ds).0 ≡ some found) ↔ (
          (memory_type : Text) × (m : M) × FirstHolder modules c.block_id memory_type m
          × IsAnswer memory_type m c score found)
  unfolding verify
  verify_exact [] c score ds found = (λ h. absurd (cc), λ (_, _, f, _). absurd f)
  verify_exact ((t, n) ∷ rest) c score ds found =
      elim (Bool-cases (contains (sdk.members n) c.block_id)) [
        | inl e ↦
            rw (e, verify)
              (
                λ h. (
                  t,
                  n,
                  inl ((contains_iff _ _).0 e, refl, refl),
                  (verify_in_exact t n c score ds found).0 h,
                ),
                λ (u, m, k, a). elim k [
                  | inl (_, f, g) ↦ let h = (verify_in_exact u m c score ds found).1 a in cc
                  | inr (n, _) ↦ absurd (n ((contains_iff _ _).0 e))
                ],
              )
        | inr e ↦
            rw (e, verify)
              (
                λ h.
                    let (u, m, k, a) = (verify_exact rest c score ds found).0 h in
                    (
                      u,
                      m,
                      inr (
                        λ i. let f = (contains_iff (sdk.members n) c.block_id).1 i in absurd (cc),
                        k,
                      ),
                      a,
                    ),
                λ (u, m, k, a). elim k [
                  | inl (i, _, _) ↦
                      absurd (let f = (contains_iff (sdk.members n) c.block_id).1 i in cc)
                  | inr (_, k) ↦ (verify_exact rest c score ds found).1 (u, m, k, a)
                ],
              )
      ]

  -- What a candidate is answered with does not depend on its score, but for the score of the match.
  pub rescored :
      (memory_type : Text) (m : M) (c : Candidate F) (score other : F) (found : Match F)
      → IsAnswer memory_type m c score found
      → (shown : Match F) × IsAnswer memory_type m c other shown
  rescored memory_type m c score other found (p, inl (r, (block, g, a, _))) =
      (_, (p, inl (r, (block, g, a, refl))))
  rescored memory_type m c score other found (p, inr (r, s, f, _)) = (_, (p, inr (r, s, f, refl)))
