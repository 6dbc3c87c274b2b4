-- ===== src/Planner/Execute/Refinement.antt =====
-- execute.py, `_finalize`: the bundle against what a query asks for.
use vitruvio.Prelude.{
  ℕ, ◌*◌, ◌-◌, ◌≤◌, max, ltb, List, [], Bool, true, false, ◌||◌, not, Bool-cases, filter_some,
  length, length-take, take, take_of_length-le, In, In-take, In-filter_some_of, In-filter_some_inv,
  Text, Dict, values, ◌≡◌, ◌⊎◌, inl, inr, ap, sym, subst, ◌∙◌, arith,
}
use vitruvio.Planner.Ir.{Node}
use vitruvio.Planner.Fusion.{Candidate, Floats, normalize}
use vitruvio.Planner.Execute.{Sdk, Executor, Match, EvidenceBundle, Degradation}
use vitruvio.Planner.Execute.Tail.{scored, finalize}
use vitruvio.Planner.Execute.Verification.{FirstHolder, IsAnswer, verify_exact, rescored}
use vitruvio.Planner.Execute.Bundles.{
  limit, answered, verify_pool_exact, IsVisible, In-scored, In-scored_of, In-normalize,
  In-normalize_of, answer-candidate_matches,
}

within : (reserve n : ℕ) → ltb reserve n ≡ false → n ≤ reserve
within reserve n e = ground arith

untruncated :
    (cut stopped exhausted : Bool)
    → ((cut || stopped) || not exhausted) ≡ false
    → (cut ≡ false) × (stopped ≡ false) × (exhausted ≡ true)
untruncated cut stopped exhausted e = ground arith

module _ {F M B : Type 0} (sdk : Sdk M B) (x : Executor F M) where
  -- A match that a query expects of a candidate: gathered, visible, and the answer of the first
  -- module that holds it.
  abbrev pub IsExpected : Dict Text (Candidate F) → Candidate F → Match F → Type 0
  IsExpected candidates c found =
      In c (values candidates)
      × IsVisible sdk x c
      × ((memory_type : Text) × (m : M) × (score : F) × FirstHolder sdk x x.modules c.block_id
            memory_type m
          × IsAnswer sdk x memory_type m c score found)

  -- At most the limit of matches, each expected of a gathered candidate; and the bundle is
  -- truncated, or the generators were exhausted and what is expected of a candidate is there,
  -- under its score in the bundle.
  abbrev pub Refines : Dict Text (Candidate F) → Bool → EvidenceBundle F → Type 0
  Refines candidates exhausted bundle =
      (length bundle.matches ≤ max 1 x.query.limit)
      × ((found : Match F)
          → In found bundle.matches
          → (c : Candidate F) × IsExpected candidates c found)
      × ((bundle.truncated ≡ true)
          ⊎ ((exhausted ≡ true)
              × ((c : Candidate F) (found : Match F)
                  → IsExpected candidates c found
                  → (shown : Match F) × In shown bundle.matches × IsExpected candidates c shown)))

module _ {F M B : Type 0} (sdk : Sdk M B) (x : Executor F M) (floats : Floats F) {V : Type 0}
    (nodes : List (Node V)) where
  -- `_finalize` answers with the verified candidates among the first of the ranking, twice the
  -- limit of them, in order and up to the limit. If the bundle is not truncated, the generators
  -- were exhausted and the matches are all verified candidates of the whole ranking.
  pub finalize_exact :
      (candidates : Dict Text (Candidate F)) (searched : List Text) (exhausted : Bool)
      (ds : List Degradation)
      → ((finalize sdk x floats nodes candidates searched exhausted ds).0.matches
          ≡ take (limit sdk x) (
              filter_some
                (answered sdk x)
                (normalize floats (take (limit sdk x * 2) (scored sdk x floats nodes candidates)))))
        × (((finalize sdk x floats nodes candidates searched exhausted ds).0.truncated ≡ true)
            ⊎ ((exhausted ≡ true)
                × ((finalize sdk x floats nodes candidates searched exhausted ds).0.matches
                    ≡ filter_some
                        (answered sdk x)
                        (normalize floats (scored sdk x floats nodes candidates)))))
  unfolding finalize
  finalize_exact candidates searched exhausted ds =
      let ranked : List (Candidate F × F) = scored sdk x floats nodes candidates in
      let (same, all) =
        verify_pool_exact sdk x (normalize floats (take (limit sdk x * 2) ranked)) [] ds in
      let e : max 1 x.query.limit - 0 ≡ max 1 x.query.limit = omega arith in
      (
        same
            ∙ ap
                (λ n.
                  take n (
                    filter_some (answered sdk x)
                      (normalize floats (take (limit sdk x * 2) ranked))))
                e,
        elim (Bool-cases
            (finalize sdk x floats nodes candidates searched exhausted ds).0.truncated) [
              | inl t ↦ inl t
              | inr t ↦
                  let (f, g, h) = untruncated _ _ _ t in
                  let short = within (limit sdk x * 2) (length ranked) f in
                  inr (
                    h,
                    all g
                        ∙ ap (λ pool. filter_some (answered sdk x) (normalize floats pool))
                            (take_of_length-le (limit sdk x * 2) ranked short),
                  )
            ],
      )

  IsExpected-of :
      (candidates : Dict Text (Candidate F)) (pool : List (Candidate F × F)) (found : Match F)
      → ((c : Candidate F) (s : F)
          → In (c, s) pool
          → In (c, s) (scored sdk x floats nodes candidates))
      → In found (filter_some (answered sdk x) (normalize floats pool))
      → (c : Candidate F) × IsExpected sdk x candidates c found
  IsExpected-of candidates pool found within i =
      let ((c, s), n, e) = In-filter_some_inv (answered sdk x) found _ i in
      let (t, k) = In-normalize floats pool c s n in
      let (held, visible) = In-scored sdk x floats nodes candidates c t (within c t k) in
      let (memory_type, m, first, is_answer) = (verify_exact sdk x x.modules c s [] found).0 e in
      (c, (held, visible, (memory_type, m, s, first, is_answer)))

  bounded :
      (matches rest : List (Match F))
      → matches ≡ take (max 1 x.query.limit) rest
      → length matches ≤ max 1 x.query.limit
  bounded matches rest e = omega (arith, ap length e, length-take (max 1 x.query.limit) rest)

  shown_of :
      (candidates : Dict Text (Candidate F)) (c : Candidate F) (found : Match F)
      → IsExpected sdk x candidates c found
      → (shown : Match F) × In shown
          (filter_some (answered sdk x) (normalize floats (scored sdk x floats nodes candidates)))
        × IsExpected sdk x candidates c shown
  shown_of candidates c found (held, visible, (memory_type, m, score, first, is_answer)) =
      let (t, k) =
        In-scored_of sdk x floats nodes candidates c held visible
          (answer-candidate_matches sdk x c memory_type m score found first is_answer) in
      let (s, n) = In-normalize_of floats (scored sdk x floats nodes candidates) c t k in
      let (shown, again) = rescored sdk x memory_type m c score s found is_answer in
      (
        shown,
        In-filter_some_of (answered sdk x) shown (c, s) _ n
            ((verify_exact sdk x x.modules c s [] shown).1 (memory_type, m, first, again)),
        (held, visible, (memory_type, m, s, first, again)),
      )

  -- The bundle refines what the query asks for: it has at most the limit of matches, each the
  -- expected one of a gathered candidate; and it is truncated, or the generators were exhausted
  -- and each candidate of which a match is expected has one.
  pub finalize-Refines :
      (candidates : Dict Text (Candidate F)) (searched : List Text) (exhausted : Bool)
      (ds : List Degradation)
      → Refines sdk x candidates exhausted
          (finalize sdk x floats nodes candidates searched exhausted ds).0
  finalize-Refines candidates searched exhausted ds =
      let (same, all) = finalize_exact candidates searched exhausted ds in
      (
        bounded _ _ same,
        λ found m.
            IsExpected-of candidates (take (limit sdk x * 2) (scored sdk x floats nodes candidates))
              found (λ c s n. In-take _ _ (c, s) n)
              (In-take (limit sdk x) _ found (subst (In found) same m)),
        elim all [
          | inl t ↦ inl t
          | inr (h, e) ↦ inr (
            h,
            λ c found k.
                let (shown, n, f) = shown_of candidates c found k in
                (shown, subst (In shown) (sym e) n, f),
          )
        ],
      )
