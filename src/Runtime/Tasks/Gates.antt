-- ===== src/Runtime/Tasks/Gates.antt =====
-- tasks.py, `commit_candidates` and `ingest_run`: what reaches the brain, and what is refused.
use vitruvio.Prelude.{
  ℕ, ◌+◌, List, [], ◌∷◌, Option, none, some, Bool, true, false, In, filterb, length, not, ◌&&◌,
  is_nil, text_discrete, ℕ_discrete, Text, ◌≡◌, ◌≢◌, ◌↔◌, ◌⊎◌, ◌∙◌, inl, inr, refl, ap, subst,
  arith, Bool-cases, Option-cases,
}
use vitruvio.Runtime.Tasks.{
  Verdict, duplicate, all_duplicate, already_held, triage, Outcome, returned, raised, Refusal,
  rejected_document, Op, ◌>>=◌, pure, define_and_propose, propose_and_conclude, Sdk, Config,
  attributed, commit_candidates, ingest_run, conclude, blocked, rejection,
}

-- A verdict stands in the way if it is no commit, and names no reason or one that is no duplicate.
abbrev pub Blocks : Verdict → Type 0
Blocks v =
    (v.is_committable ≡ false)
    × ((v.issues ≡ []) ⊎ ((code : Text) × In code v.issues × (code ≢ duplicate)))

all_duplicate-exact :
    (codes : List Text)
    → (all_duplicate codes ≡ false) ↔ ((code : Text) × In code codes × (code ≢ duplicate))
all_duplicate-exact [] = ground arith
all_duplicate-exact (c ∷ cs) = (
  (λ h. elim (text_discrete c duplicate) [
    | yes p ↦ let (x, m, n) = (all_duplicate-exact cs).0 (ground (arith, p, h)) in (x, inr m, n)
    | no p ↦ (c, inl refl, p)
  ]),
  (λ (x, m, n). elim m [
    | inl q ↦ ground arith
    | inr k ↦ ground (arith, (all_duplicate-exact cs).1 (x, k, n))
  ]),
)

empty_or :
    {P : Type 0} (codes : List Text)
    → (all_duplicate codes ≡ false → P)
    → not (is_nil codes) && all_duplicate codes ≡ false
    → (codes ≡ []) ⊎ P
empty_or [] f h = inl refl
empty_or (c ∷ cs) f h = inr (f h)

-- Whether a verdict that is no commit stands in the way.
already_held-exact : (v : Verdict) → v.is_committable ≡ false → (already_held v ≡ false) ↔ Blocks v
already_held-exact v c = (
  (λ h. (c, empty_or v.issues (all_duplicate-exact v.issues).0 h)),
  (λ b. elim b.1 [
    | inl e ↦ ground (arith, e)
    | inr d ↦ ground (arith, (all_duplicate-exact v.issues).1 d)
  ]),
)

-- `_triage` finds a blocking rejection exactly if some verdict stands in the way, and counts each
-- verdict that is no commit once, as held or as blocking.
pub triage_exact :
    (vs : List Verdict)
    → (((triage vs).1 ≢ 0) ↔ ((v : Verdict) × In v vs × Blocks v))
      × ((triage vs).0 + (triage vs).1 ≡ length (filterb (λ v. not v.is_committable) vs))
unfolding triage
triage_exact [] = (((λ n. absurd (n refl)), (λ (v, m, b). absurd m)), refl)
triage_exact (v ∷ vs) =
    let (ih, total) = triage_exact vs in
    (
      (
        (λ n. elim (Bool-cases v.is_committable) [
          | inl c ↦ let (x, m, b) = ih.0 (ground arith) in (x, inr m, b)
          | inr c ↦ elim (Bool-cases (already_held v)) [
            | inl h ↦ let (x, m, b) = ih.0 (ground arith) in (x, inr m, b)
            | inr h ↦ (v, inl refl, (already_held-exact v c).0 h)
          ]
        ]),
        (λ (x, m, b) e. elim m [
          | inl q ↦
              let here = subst Blocks q b in
              ground (arith, here.0, (already_held-exact v here.0).1 here)
          | inr k ↦ ground (arith, ih.1 (x, k, b))
        ]),
      ),
      ground (arith, total),
    )

Outcome-cases :
    {A : Type 0} (o : Outcome A) → ((a : A) × (o ≡ returned a)) ⊎ ((r : Refusal) × (o ≡ raised r))
Outcome-cases (returned a) = inl (a, refl)
Outcome-cases (raised r) = inr (r, refl)

module _ {B Doc Bytes Task Candidates Report Receipt Reg : Type 0}
    (sdk : Sdk B Doc Bytes Task Candidates Report Receipt Reg) where
  -- No verdict of the report stands in the way.
  abbrev pub Clean : Report → Type 0
  Clean report = (v : Verdict) → In v (sdk.results report) → ¬ Blocks v

  blocked_cases :
      (report : Report)
      → ((blocked sdk report ≡ false) × Clean report)
        ⊎ ((blocked sdk report ≡ true) × ((v : Verdict) × In v (sdk.results report) × Blocks v))
  blocked_cases report =
      let (exact, total) = triage_exact (sdk.results report) in
      elim (ℕ_discrete (triage (sdk.results report)).1 0) [
        | yes p ↦ inl (ground (arith, p), λ v m b. exact.1 (v, m, b) p)
        | no p ↦ inr (ground (arith, p), exact.0 p)
      ]

  module _ (config : Config) (document : Doc) (task : Task) (b : B) where
    -- What a commit raises or returns, with the report and the number of candidates already held.
    abbrev pub committed : Report → Outcome Receipt × B → Outcome (Receipt × Report × ℕ) × B
    committed report (returned receipt, after) =
        (returned (receipt, report, (triage (sdk.results report)).0), after)
    committed report (raised r, after) = (raised r, after)

    ended :
        (report : Report) (x : Outcome Receipt × B)
        → ◌>>=◌
            (λ (_ : B). x)
            (λ receipt. pure (receipt, report, (triage (sdk.results report)).0))
            b
          ≡ committed report x
    ended report (returned receipt, after) = refl
    ended report (raised r, after) = refl

    -- Why a commit of candidates is refused.
    abbrev pub Refused : Refusal → Type 0
    Refused r =
        (attributed config ≡ some r)
        ⊎ ((sdk.parse document ≡ none) × (r ≡ rejected_document))
        ⊎ ((parsed : Candidates) × (sdk.parse document ≡ some parsed)
            × (sdk.validate parsed task b ≡ raised r))
        ⊎ ((parsed : Candidates) × (report : Report) × (v : Verdict) × (sdk.validate parsed task b
              ≡ returned report)
            × In v (sdk.results report)
            × Blocks v
            × (r ≡ rejection sdk report))

    -- A commit of candidates either is refused with the brain as it was, because the attribution, the
    -- document or the validation fails or some verdict stands in the way; or the validation gave a
    -- report in which no verdict does, duplicates of what is held aside, and what happens is the
    -- brain's own commit of that report.
    pub commit_candidates_outcome :
        ((r : Refusal) × (commit_candidates sdk config document task b ≡ (raised r, b)) × Refused r)
        ⊎ ((parsed : Candidates) × (report : Report) × (attributed config ≡ none)
            × (sdk.parse document ≡ some parsed)
            × (sdk.validate parsed task b ≡ returned report)
            × Clean report
            × (commit_candidates sdk config document task b
                ≡ committed report (sdk.commit report b)))
    unfolding commit_candidates
    commit_candidates_outcome = elim (Option-cases (attributed config)) [
      | inr (r, p) ↦ inl (r, rw (p, commit_candidates) refl, inl p)
      | inl p ↦ elim (Option-cases (sdk.parse document)) [
        | inl q ↦ inl (rejected_document, rw (p, q, commit_candidates) refl, inr (inl (q, refl)))
        | inr (parsed, q) ↦ elim (Outcome-cases (sdk.validate parsed task b)) [
          | inr (r, v) ↦
              inl (r, rw (p, q, v, commit_candidates) refl, inr (inr (inl (parsed, q, v))))
          | inl (report, v) ↦ elim (blocked_cases report) [
            | inl (clean, free) ↦ inr (
              parsed,
              report,
              p,
              q,
              v,
              free,
              rw (p, q, v, clean, commit_candidates) (ended report (sdk.commit report b)),
            )
            | inr (blocks, found) ↦
                let (x, m, c) = found in
                inl (
                  rejection sdk report,
                  rw (p, q, v, blocks, commit_candidates) refl,
                  inr (inr (inr (parsed, report, x, v, m, c, refl))),
                )
          ]
        ]
      ]
    ]

  -- The brain's operations up to the conclusion of an ingest: the evidence is registered and a task
  -- defined, and a proposal is validated.
  abbrev pub Proposed : Bytes → B → Reg → Report → B → Type 0
  Proposed given b registration report b'' =
      (task : Task) × (source : Bytes) × (candidates : Candidates) × (b' : B) × (sdk.register given
          b
        ≡ (returned registration, b'))
      × (sdk.define_task registration b' ≡ (returned task, b''))
      × (sdk.source_of registration given b'' ≡ returned source)
      × (sdk.propose task source ≡ returned candidates)
      × (sdk.validate candidates task b'' ≡ returned report)

  bind_returned :
      {A C : Type 0} (m : Op B A) (f : A → Op B C) (b : B) (a : A) (b' : B)
      → m b ≡ (returned a, b')
      → ◌>>=◌ m f b ≡ f a b'
  bind_returned m f b a b' e = ap (λ x. ◌>>=◌ (λ (_ : B). x) f b) e

  concluded :
      (config : Config) (given : Bytes) (dry_run : Bool) (b b'' : B) (registration : Reg)
      (report : Report)
      → attributed config ≡ none
      → Proposed given b registration report b''
      → ingest_run sdk config (returned given) dry_run b
        ≡ conclude sdk dry_run registration report b''
  unfolding ingest_run define_and_propose propose_and_conclude
  concluded config given dry_run b b'' registration report p
        (task, source, candidates, b', r, t, s, c, v) =
      rw (p, ingest_run)
        (bind_returned (sdk.register given) (define_and_propose sdk dry_run given) b registration b'
          r)
      ∙ (bind_returned (sdk.define_task registration)
            (propose_and_conclude sdk dry_run given registration) b' task b'' t
          ∙ rw (s, c, v, propose_and_conclude) refl)

  kept :
      (registration : Reg) (report : Report) (b : B) (x : Outcome Receipt × B)
      → (◌>>=◌ {C = Reg × Report × ℕ × Option Receipt}
          (λ (_ : B). x)
          (λ receipt. pure (registration, report, (triage (sdk.results report)).0, some receipt))
          b).1
        ≡ x.1
  kept registration report b (returned receipt, after) = refl
  kept registration report b (raised r, after) = refl

  -- When the attribution passes and the evidence was registered, a task defined and a proposal
  -- validated, an ingest ends with the brain as it is then, with nothing committed, on a dry run, and
  -- also, raising how many candidates were rejected, if some verdict stands in the way; and otherwise
  -- with what the brain's own commit of the report leaves.
  pub ingest_run_outcome :
      (config : Config) (given : Bytes) (dry_run : Bool) (b b'' : B) (registration : Reg)
      (report : Report)
      → attributed config ≡ none
      → Proposed given b registration report b''
      → ((dry_run ≡ true)
          × (ingest_run sdk config (returned given) dry_run b
              ≡ (returned (registration, report, (triage (sdk.results report)).0, none), b'')))
        ⊎ ((dry_run ≡ false)
            × ((v : Verdict) × In v (sdk.results report) × Blocks v)
            × (ingest_run sdk config (returned given) dry_run b
                ≡ (raised (rejection sdk report), b'')))
        ⊎ ((dry_run ≡ false)
            × Clean report
            × ((ingest_run sdk config (returned given) dry_run b).1 ≡ (sdk.commit report b'').1))
  unfolding ingest_run conclude
  ingest_run_outcome config given dry_run b b'' registration report p proposed =
      elim (Bool-cases dry_run) [
        | inl d ↦ inl (
          d,
          concluded config given dry_run b b'' registration report p proposed
              ∙ rw (d, conclude) refl,
        )
        | inr d ↦ elim (blocked_cases report) [
          | inl (clean, free) ↦ inr (
              inr (
                d,
                free,
                ap (λ (x : Outcome (Reg × Report × ℕ × Option Receipt) × B). x.1)
                      (concluded config given dry_run b b'' registration report p proposed)
                    ∙ rw (d, conclude, clean)
                        (kept registration report b'' (sdk.commit report b'')),
              ))
          | inr (blocks, found) ↦ inr (
              inl (
                d,
                found,
                concluded config given dry_run b b'' registration report p proposed
                    ∙ rw (d, conclude, blocks) refl,
              ))
        ]
      ]
