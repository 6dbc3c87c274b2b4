-- ===== src/Runtime/Session.antt =====
-- packages/runtime/src/vitruvio/runtime/session.py, `BrainSession`: one cache of opened brains,
-- which several threads and tasks share. A section that a lock guards is one operation. What opens
-- a brain is a parameter: it is given the durable head and can fail.
pub mod Steps
pub mod Exclusion
pub mod Coherence
use vitruvio.Prelude.{
  ℕ, zero, suc, ◌+◌, ◌-◌, ◌==◌, if◌then◌else◌, List, [], ◌∷◌, Option, none, some, Bool, true, false,
  not, ◌&&◌, ◌≡◌, Eq, Dict, lookup, insert, ℕ_discrete, ite, arith,
}

pub data Capability : Type 0 where
  inspect browse retrieve write : Capability

unfoldable pub Capability-discrete : Discrete Capability
Capability-discrete = hlevel

instance abbrev pub capability_eq : Eq Capability
capability_eq = record { dec = Capability-discrete }

-- the thread, and the task on it
abbrev pub Writer : Type 0
Writer = ℕ × ℕ

unfoldable pub Writer-discrete : Discrete Writer
Writer-discrete = hlevel (ℕ_discrete)

pub record Session (B : Type 0) : Type 0 where
  pub cache : Dict Capability B
  pub generation : ℕ
  pub writer : Option Writer
  pub depth : ℕ

-- self._writer not in (None, me)
abbrev pub busy : Writer → Option Writer → Bool
busy me none = false
busy me (some held) = ite (Writer-discrete held me) false true

module _ {B : Type 0} where
  -- `__init__`
  unfoldable pub init : Session B
  init = record { cache = []; generation = 0; writer = none; depth = 0 }

  -- `invalidate`
  unfoldable pub invalidate : Session B → Session B
  invalidate s = record s { cache = []; generation = suc s.generation }

  -- the first section of `write`; none if it raises SessionBusyError
  unfoldable pub acquire : Writer → Session B → Option (Session B)
  acquire me s =
      if busy me s.writer then none else some (record s { writer = some me; depth = suc s.depth })

  -- the last section of `write`
  unfoldable pub release : Session B → Session B
  release s = record s { depth = s.depth - 1; writer = if s.depth - 1 == 0 then none else s.writer }

  -- the end of `pinned`: whether the result is accepted, or StaleBrainError is raised
  unfoldable pub accepts : ℕ → Session B → Bool
  accepts generation s = s.generation == generation

  module _ {H : Type 0} (open_brain : Capability → H → Option B) where
    -- `brain`; none if opening it raises
    unfoldable pub brain : Capability → H → Session B → Option (B × Session B)
    brain capability head s = elim (lookup s.cache capability) [
      | some cached ↦ some (cached, s)
      | none ↦ elim (open_brain capability head) [
        | none ↦ none
        | some opened ↦ some (opened, record s { cache = insert s.cache capability opened })
      ]
    ]

    -- the brain of a `write`
    unfoldable pub write_brain :
        (Capability → H → Option B) → Bool → H → Session B → Option (B × Session B)
    unfolding brain
    write_brain open_install install head s =
        if install
        then elim (open_install write head) [ none ↦ none | some opened ↦ some (opened, s) ]
        else brain write head s

    -- the start of `pinned`: the brain, and the generation that the result must still have
    unfoldable pub pin : Capability → H → Session B → Option ((B × ℕ) × Session B)
    unfolding brain
    pin capability head s = elim (brain capability head s) [
      | none ↦ none
      | some (opened, after) ↦ some ((opened, after.generation), after)
    ]

  -- if brain.store.read_pointer(HEAD_POINTER) != before: self.invalidate()
  unfoldable pub settle : {H : Type 0} → ⦃e : Eq H⦄ → H → H → Session B → Session B
  unfolding invalidate
  settle ⦃e⦄ head before s = ite (e.dec head before) s (invalidate s)
