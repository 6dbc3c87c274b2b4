-- ===== src/Planner/Execute/Records.antt =====
-- execute.py, `_verify`: what is written down of a candidate that is not answered.
use vitruvio.Prelude.{
  List, [], ◌∷◌, ◌++◌, none, true, false, Bool-cases, In, contains, contains_iff, Text, text,
  text_eq, Dict, ◌≡◌, ◌⊎◌, inl, inr, refl,
}
use vitruvio.Planner.Fusion.{Candidate}
use vitruvio.Planner.Execute.{
  returned, Sdk, Executor, Degradation, has_block_filters, admissible_unresolvable,
}
use vitruvio.Planner.Execute.Tail.{matches_block, verify_content, verify_proved, verify_in, verify}
use vitruvio.Planner.Execute.Filtering.{Asked, matches_block_exact}
use vitruvio.Planner.Execute.Verification.{Attempt-cases, FirstHolder}

module _ {F M B : Type 0} (sdk : Sdk M B) (x : Executor F M) where
  -- One more degradation, whose detail begins with the identity.
  abbrev pub IsWritten : Text → List Degradation → List Degradation → Type 0
  IsWritten id ds ds' =
      (d : Degradation) × (rest : Text) × (ds' ≡ ds ++ d ∷ []) × (d.detail ≡ id ++ rest)

  -- The filters turn a proved member away: by its content, or since it has none to look at.
  abbrev pub IsMismatch : M → Text → Type 0
  IsMismatch m id = (block : B) × (sdk.get m id ≡ returned block) × (¬ Asked sdk x id block)

  abbrev pub IsFiltered : M → Text → Type 0
  IsFiltered m id =
      IsMismatch m id
      ⊎ ((sdk.is_resolvable m id ≡ false) × (has_block_filters x.query.filters ≡ true))

  abbrev pub IsRecorded : M → Text → List Degradation → List Degradation → Type 0
  IsRecorded m id ds ds' = IsWritten id ds ds' ⊎ ((ds' ≡ ds) × IsFiltered m id)

  abbrev pub IsUnheld : Dict Text M → Text → Type 0
  IsUnheld [] id = Unit
  IsUnheld ((t, n) ∷ rest) id = (¬ In id (sdk.members n)) × IsUnheld rest id

  verify_content_recorded :
      (memory_type : Text) (m : M) (c : Candidate F) (score : F) (ds : List Degradation)
      → (verify_content sdk x memory_type m c.block_id score ds).0 ≡ none
      → IsWritten c.block_id ds (verify_content sdk x memory_type m c.block_id score ds).1
        ⊎ (((verify_content sdk x memory_type m c.block_id score ds).1 ≡ ds)
            × IsMismatch m c.block_id)
  unfolding verify_content
  verify_content_recorded memory_type m c score ds h = elim (Attempt-cases (sdk.get m c.block_id)) [
    | inl (e, g) ↦ rw (g, verify_content) (inl (_, text ": " ++ e, refl, refl))
    | inr (block, g) ↦ elim (Bool-cases (matches_block sdk x c.block_id block)) [
      | inl t ↦ absurd (let f = rw (g, t, verify_content) at h in cc)
      | inr t ↦
          rw (g, t, verify_content)
            (inr (
              refl,
              (block, refl, λ a. let f = (matches_block_exact sdk x c.block_id block).1 a in cc),
            ))
    ]
  ]

  verify_proved-IsRecorded :
      (memory_type : Text) (m : M) (c : Candidate F) (score : F) (ds : List Degradation)
      → (verify_proved sdk x memory_type m c score ds).0 ≡ none
      → IsRecorded m c.block_id ds (verify_proved sdk x memory_type m c score ds).1
  unfolding verify_proved
  verify_proved-IsRecorded memory_type m c score ds h =
      elim (Bool-cases (sdk.is_resolvable m c.block_id)) [
        | inl r ↦
            rw (r, verify_proved)
              (elim (verify_content_recorded memory_type m c score ds
                (rw (r, verify_proved) at h)) [ inl w ↦ inl w | inr (s, k) ↦ inr (s, inl k) ])
        | inr r ↦ elim (Bool-cases (admissible_unresolvable c)) [
          | inl a ↦ elim (Bool-cases (has_block_filters x.query.filters)) [
            | inl b ↦ rw (r, a, b, verify_proved) (inr (refl, inr (refl, refl)))
            | inr b ↦ absurd (let f = rw (r, a, b, verify_proved) at h in cc)
          ]
          | inr a ↦
              rw (r, a, verify_proved)
                (inl (_, text " matched on content but its bytes are gone", refl, refl))
        ]
      ]

  verify_in-IsRecorded :
      (memory_type : Text) (m : M) (c : Candidate F) (score : F) (ds : List Degradation)
      → (verify_in sdk x memory_type m c score ds).0 ≡ none
      → IsRecorded m c.block_id ds (verify_in sdk x memory_type m c score ds).1
  unfolding verify_in
  verify_in-IsRecorded memory_type m c score ds h = elim (Attempt-cases (sdk.proves m c.block_id)) [
    | inl (e, g) ↦ rw (g, verify_in) (inl (_, text ": " ++ e, refl, refl))
    | inr (false, g) ↦
        rw (g, verify_in) (inl (_, text " does not prove into " ++ memory_type, refl, refl))
    | inr (true, g) ↦
        rw (g, verify_in)
          (verify_proved-IsRecorded memory_type m c score ds (rw (g, verify_in) at h))
  ]

  -- A candidate that `_verify` does not answer is written down with its identity, unless no module
  -- holds its block, or the first that does has it turned away by the filters.
  pub verify_recorded :
      (modules : Dict Text M) (c : Candidate F) (score : F) (ds : List Degradation)
      → (verify sdk x modules c score ds).0 ≡ none
      → IsWritten c.block_id ds (verify sdk x modules c score ds).1
        ⊎ (((verify sdk x modules c score ds).1 ≡ ds)
            × (IsUnheld modules c.block_id
                ⊎ ((memory_type : Text) × (m : M) × FirstHolder sdk x modules c.block_id memory_type
                      m
                    × IsFiltered m c.block_id)))
  unfolding verify
  verify_recorded [] c score ds h = inr (refl, inl tt)
  verify_recorded ((t, n) ∷ rest) c score ds h =
      elim (Bool-cases (contains (sdk.members n) c.block_id)) [
        | inl e ↦
            rw (e, verify)
              (elim (verify_in-IsRecorded t n c score ds (rw (e, verify) at h)) [
                | inl w ↦ inl w
                | inr (s, f) ↦ inr (
                  s,
                  inr (t, n, inl ((contains_iff (sdk.members n) c.block_id).0 e, refl, refl), f),
                )
              ])
        | inr e ↦
            rw (e, verify)
              (elim (verify_recorded rest c score ds (rw (e, verify) at h)) [
                | inl w ↦ inl w
                | inr (s, inl u) ↦ inr (s, inl (missing e, u))
                | inr (s, inr (u, m, k, f)) ↦ inr (s, inr (u, m, inr (missing e, k), f))
              ])
      ]
    where
      missing : contains (sdk.members n) c.block_id ≡ false → ¬ In c.block_id (sdk.members n)
      missing e i = let f = (contains_iff (sdk.members n) c.block_id).1 i in absurd (cc)
