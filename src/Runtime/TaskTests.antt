-- ===== src/Runtime/TaskTests.antt =====
-- tasks.py: a brain that counts its blocks, and the theorems at it.
use vitruvio.Prelude.{
  ℕ, ◌+◌, List, [], ◌∷◌, none, some, true, false, Text, text_eq, text_discrete, ℕ_discrete, In, ◌≡◌,
  ◌≢◌, ◌↔◌, ◌⊎◌, refl, text,
}
use vitruvio.Runtime.Tasks.{
  flag, environment, Refusal, returned, raised, Verdict, duplicate, triage, Project, Config,
  attributed, Sdk, commit_candidates, ingest_run, rejection,
}
use vitruvio.Runtime.Tasks.Attribution.{attributed_exact, Governs}
use vitruvio.Runtime.Tasks.Gates.{
  commit_candidates_outcome, Refused, Clean, committed, ingest_run_outcome, Blocks,
}

abbrev ada : Text
ada = text "ada"

abbrev declared : Project
declared = record { brains = []; brain = some []; actor = some ada }

abbrev config : Config
config = record {
  declared_file = some declared;
  brain_name = none;
  actor_id = some ada;
  collaborators_origin = flag;
}

attributed_exact_example : (attributed config ≡ none) ↔ (
    (file : Project) × (id : Text) × (config.declared_file ≡ some file)
    × (id ≢ [])
    × Governs file none id
    × (some ada ≡ some id)
    × ((flag ≡ flag) ⊎ (flag ≡ environment)))
attributed_exact_example = attributed_exact config

abbrev new : Verdict
new = record { is_committable = true; issues = [] }

abbrev held : Verdict
held = record { is_committable = false; issues = duplicate ∷ [] }

abbrev broken : Verdict
broken = record { is_committable = false; issues = duplicate ∷ text "shape" ∷ [] }

-- a report is its verdicts, a commit adds a block, and so does a registration
abbrev sdk : Sdk ℕ (List Verdict) Text ℕ (List Verdict) (List Verdict) ℕ ℕ
sdk = record {
  parse = λ d. some d;
  validate = λ c t b. returned c;
  results = λ r. r;
  commit = λ r b. (returned b, b + 1);
  register = λ x b. (returned b, b + 1);
  define_task = λ r b. (returned r, b);
  source_of = λ r x b. returned x;
  propose = λ t x. returned (new ∷ held ∷ []);
}

accepted :
    commit_candidates sdk config (new ∷ held ∷ []) 0 7 ≡ (returned (7, new ∷ held ∷ [], 1), 8)
unfolding commit_candidates text_discrete ℕ_discrete
accepted = refl

refused :
    commit_candidates sdk config (new ∷ broken ∷ []) 0 7
    ≡ (raised (rejection sdk (new ∷ broken ∷ [])), 7)
unfolding commit_candidates text_discrete ℕ_discrete
refused = refl

commit_candidates_outcome_example :
    ((r : Refusal) × (commit_candidates sdk config (new ∷ held ∷ []) 0 7 ≡ (raised r, 7))
      × Refused sdk config (new ∷ held ∷ []) 0 7 r)
    ⊎ ((parsed report : List Verdict) × (attributed config ≡ none)
        × (sdk.parse (new ∷ held ∷ []) ≡ some parsed)
        × (sdk.validate parsed 0 7 ≡ returned report)
        × Clean sdk report
        × (commit_candidates sdk config (new ∷ held ∷ []) 0 7
            ≡ committed sdk config (new ∷ held ∷ []) 0 7 report (sdk.commit report 7)))
commit_candidates_outcome_example = commit_candidates_outcome sdk config (new ∷ held ∷ []) 0 7

ingest_run_outcome_example :
    ((true ≡ true)
      × (ingest_run sdk config (returned ada) true 7 ≡ (returned (7, new ∷ held ∷ [], 1, none), 8)))
    ⊎ ((true ≡ false)
        × ((v : Verdict) × In v (new ∷ held ∷ []) × Blocks v)
        × (ingest_run sdk config (returned ada) true 7
            ≡ (raised (rejection sdk (new ∷ held ∷ [])), 8)))
    ⊎ ((true ≡ false)
        × Clean sdk (new ∷ held ∷ [])
        × ((ingest_run sdk config (returned ada) true 7).1 ≡ 9))
unfolding attributed triage text_discrete ℕ_discrete
ingest_run_outcome_example =
    ingest_run_outcome sdk config ada true 7 8 7 (new ∷ held ∷ []) refl
      (7, ada, new ∷ held ∷ [], 8, refl, refl, refl, refl, refl)
