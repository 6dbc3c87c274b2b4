-- ===== src/Runtime/Tasks.antt =====
-- packages/runtime/src/vitruvio/runtime/ops/tasks.py, `TaskOps`: the gates between a proposal and a
-- commit. The brain's own operations are the SDK's, and stand as parameters: each gives a result or
-- fails, and each but `validate` can change the brain.
pub mod Attribution
pub mod Gates
use vitruvio.Prelude.{
  ℕ, zero, suc, ◌+◌, ◌==◌, List, [], ◌∷◌, Option, none, some, Bool, true, false, if◌then◌else◌, not,
  ◌&&◌, ◌||◌, Text, text_eq, text_discrete, is_nil, length, lookup, Dict, ite, text, arith,
}

-- config.py, Origin
pub data Origin : Type 0 where
  default state file environment flag : Origin

-- What an operation raises: the kernel's errors by class, or an error of the SDK, translated.
pub data Refusal : Type 0 where
  actor_not_declared collaborator_required : Refusal
  rejected_document : Refusal
  candidates_rejected : ℕ → ℕ → Refusal
  failed : Text → Refusal

pub data Outcome (A : Type 0) : Type 0 where
  returned : A → Outcome A
  raised : Refusal → Outcome A

-- The brain comes back after a raise too: what was written stays written.
abbrev pub Op : Type 0 → Type 0 → Type 0
Op B A = B → Outcome A × B

module _ {B A : Type 0} where
  abbrev pub pure : A → Op B A
  pure a b = (returned a, b)

  abbrev pub raise : Refusal → Op B A
  raise r b = (raised r, b)

  abbrev pub or_raise : Option A → Refusal → Op B A
  or_raise none r = raise r
  or_raise (some a) _ = pure a

infixl 5 ◌>>=◌ ◌>>◌
abbrev pub ◌>>=◌ : {B A C : Type 0} → Op B A → (A → Op B C) → Op B C
◌>>=◌ m f b = let (r, b') = m b in elim r [ returned a ↦ f a b' | raised e ↦ raise e b' ]

abbrev pub ◌>>◌ : {B A C : Type 0} → Op B A → Op B C → Op B C
m >> k = m >>= λ _. k

abbrev pub refuse_if : {B : Type 0} → Bool → Refusal → Op B Unit
refuse_if c r b = (if c then raised r else returned tt, b)

-- one entry of a validation report
pub record Verdict : Type 0 where
  pub is_committable : Bool
  pub issues : List Text

-- DUPLICATE
abbrev pub duplicate : Text
duplicate = text "duplicate"

-- result.issues and all(issue.code == cls.DUPLICATE for issue in result.issues)
abbrev pub all_duplicate : List Text → Bool
all_duplicate [] = true
all_duplicate (code ∷ codes) =
    (ite (text_discrete code duplicate) true false) && all_duplicate codes

abbrev pub already_held : Verdict → Bool
already_held v = not (is_nil v.issues) && all_duplicate v.issues

-- `_triage`: duplicates, then blocking rejections
unfoldable pub triage : List Verdict → ℕ × ℕ
triage [] = (0, 0)
triage (v ∷ rest) =
    let (duplicates, blocking) = triage rest in
    if v.is_committable
    then (duplicates, blocking)
    else if already_held v
    then (suc duplicates, blocking)
    else (duplicates, suc blocking)

-- the actor of `[brains.<name>.actor]` or `[brain.actor]`, and that of the project: their ids
pub record Project : Type 0 where
  pub brains : Dict Text (Option Text)
  pub brain : Option Text
  pub actor : Option Text

-- an id that is there and not empty
abbrev pub stated : Option Text → Bool
stated none = false
stated (some id) = not (is_nil id)

-- config.py, `declared_actor`: the id of the declaration that governs
unfoldable pub declared_actor : Project → Option Text → Option Text
declared_actor p none = if stated p.brain then p.brain else p.actor
declared_actor p (some name) = elim (lookup p.brains name) [
  | none ↦ p.actor
  | some id ↦ if stated id then id else p.actor
]

-- What the configuration says of an invocation, with the declarations of the file as it is now.
pub record Config : Type 0 where
  pub declared_file : Option Project
  pub brain_name : Option Text
  pub actor_id : Option Text
  pub collaborators_origin : Origin

abbrev pub same_id : Option Text → Option Text → Bool
same_id none none = true
same_id none (some _) = false
same_id (some _) none = false
same_id (some a) (some b) = ite (text_discrete a b) true false

abbrev pub says_who : Origin → Bool
says_who flag = true
says_who environment = true
says_who _ = false

-- `_attributed`; none if it passes
unfoldable pub attributed : Config → Option Refusal
unfolding declared_actor
attributed config = elim config.declared_file [
  | none ↦ some actor_not_declared
  | some declared_file ↦
      let declared = declared_actor declared_file config.brain_name in
      if not (stated declared)
      then some actor_not_declared
      else if not (same_id config.actor_id declared)
      then some actor_not_declared
      else if not (says_who config.collaborators_origin)
      then some collaborator_required
      else none
]

-- The SDK's brain, the wire's parser and the proposers.
pub record Sdk (B Doc Bytes Task Candidates Report Receipt Reg : Type 0) : Type 0 where
  pub parse : Doc → Option Candidates
  pub validate : Candidates → Task → B → Outcome Report
  pub results : Report → List Verdict
  pub commit : Report → Op B Receipt
  pub register : Bytes → Op B Reg
  pub define_task : Reg → Op B Task
  pub source_of : Reg → Bytes → B → Outcome Bytes
  pub propose : Task → Bytes → Outcome Candidates

abbrev pub reads : {B A : Type 0} → (B → Outcome A) → Op B A
reads f b = (f b, b)

abbrev pub refuse : {B : Type 0} → Option Refusal → Op B Unit
refuse none = pure tt
refuse (some r) = raise r

module _ {B Doc Bytes Task Candidates Report Receipt Reg : Type 0}
    (sdk : Sdk B Doc Bytes Task Candidates Report Receipt Reg) where
  abbrev pub rejection : Report → Refusal
  rejection report =
      candidates_rejected (triage (sdk.results report)).1 (length (sdk.results report))

  abbrev pub blocked : Report → Bool
  blocked report = not ((triage (sdk.results report)).1 == 0)

  -- `commit_candidates`, after the checks that open no brain: the report, and how many were held
  unfoldable pub commit_candidates : Config → Doc → Task → Op B (Receipt × Report × ℕ)
  unfolding attributed triage
  commit_candidates config document task = do
    refuse (attributed config)
    parsed ← or_raise (sdk.parse document) rejected_document
    report ← reads (sdk.validate parsed task)
    refuse_if (blocked report) (rejection report)
    receipt ← sdk.commit report
    pure (receipt, report, (triage (sdk.results report)).0)

  -- the end of `ingest_run`: nothing is committed on a dry run
  unfoldable pub conclude : Bool → Reg → Report → Op B (Reg × Report × ℕ × Option Receipt)
  unfolding triage
  conclude true registration report =
      pure (registration, report, (triage (sdk.results report)).0, none)
  conclude false registration report = do
    refuse_if (blocked report) (rejection report)
    receipt ← sdk.commit report
    pure (registration, report, (triage (sdk.results report)).0, some receipt)

  -- a proposal for the task, and its validation
  unfoldable pub propose_and_conclude :
      Bool → Bytes → Reg → Task → Op B (Reg × Report × ℕ × Option Receipt)
  unfolding conclude
  propose_and_conclude dry_run given registration task = do
    source ← reads (sdk.source_of registration given)
    candidates ← reads (λ _. sdk.propose task source)
    report ← reads (sdk.validate candidates task)
    conclude dry_run registration report

  -- a task for the evidence that was registered
  unfoldable pub define_and_propose : Bool → Bytes → Reg → Op B (Reg × Report × ℕ × Option Receipt)
  unfolding propose_and_conclude
  define_and_propose dry_run given registration = do
    task ← sdk.define_task registration
    propose_and_conclude dry_run given registration task

  -- `ingest_run`: the registration, the report, how many were held, and what was committed. The
  -- evidence as bounded bytes, or what its reading or the choice of the proposer raises, is given.
  unfoldable pub ingest_run :
      Config → Outcome Bytes → Bool → Op B (Reg × Report × ℕ × Option Receipt)
  unfolding attributed define_and_propose
  ingest_run config evidence dry_run = do
    refuse (attributed config)
    given ← reads (λ _. evidence)
    registration ← sdk.register given
    define_and_propose dry_run given registration
