-- ===== src/Runtime/Tests.antt =====
-- packages/runtime: a session with a write and a read, and the theorems at it.
use vitruvio.Prelude.{
  ℕ, [], ◌∷◌, Option, none, some, false, In, nat_eq, ℕ_discrete, length, lookup, insert, ◌≡◌, ◌↔◌,
  refl, inl, arith,
}
use vitruvio.Runtime.Session.{
  Capability, inspect, write, Writer, Session, init, acquire, release, settle, brain, write_brain,
  pin, invalidate, accepts, Capability-discrete, Writer-discrete,
}
use vitruvio.Runtime.Session.Steps.{
  entering, leaving, running, Call, call, World, world, Step, Reachable,
}
use vitruvio.Runtime.Session.Exclusion.{write_exclusive}
use vitruvio.Runtime.Session.Coherence.{cache_current, accepted_current, IsOpening}

-- a brain is the number of the composition that it describes
abbrev opens : Capability → ℕ → Option ℕ
opens c h = some h

abbrev me : Writer
me = (1, 0)

abbrev unlocked : Session ℕ
unlocked = record { cache = []; generation = 0; writer = none; depth = 0 }

abbrev locked : Session ℕ
locked = record { cache = []; generation = 0; writer = some me; depth = 1 }

abbrev writing : Session ℕ
writing = record { cache = (write, 0) ∷ []; generation = 0; writer = some me; depth = 1 }

abbrev cleared : Session ℕ
cleared = record { cache = []; generation = 1; writer = some me; depth = 1 }

abbrev after : Session ℕ
after = record { cache = []; generation = 1; writer = none; depth = 0 }

abbrev reading : Session ℕ
reading = record { cache = (inspect, 1) ∷ []; generation = 1; writer = none; depth = 0 }

-- the head moves from 0 to 1 inside a write, and a read follows
abbrev done : World ℕ ℕ
done = world reading 1 [] ((1, 1) ∷ [])

abbrev midway : World ℕ ℕ
midway = world writing 1 (call me (running 0) ∷ []) []

reach_midway : Reachable opens opens midway
unfolding init acquire write_brain brain lookup insert Writer-discrete Capability-discrete
reach_midway =
    Reachable.next (world writing 0 (call me (running 0) ∷ []) []) midway
      (Reachable.next (world locked 0 (call me entering ∷ []) [])
        (world writing 0 (call me (running 0) ∷ []) [])
        (Reachable.next (world unlocked 0 [] []) (world locked 0 (call me entering ∷ []) [])
          (Reachable.start 0) (Step.acquired unlocked locked 0 [] [] me refl))
        (Step.began locked writing 0 [] [] [] me false 0 refl))
      (Step.advanced writing 0 1 (call me (running 0) ∷ []) [] me 0 (inl refl)
        (λ w b m. ground arith))

reach_done : Reachable opens opens done
unfolding settle invalidate release pin brain lookup insert Writer-discrete Capability-discrete
    ℕ_discrete
reach_done =
    Reachable.next (world after 1 [] []) done
      (Reachable.next (world cleared 1 (call me leaving ∷ []) []) (world after 1 [] [])
        (Reachable.next midway (world cleared 1 (call me leaving ∷ []) []) reach_midway
          (Step.settled writing 1 [] [] [] me 0))
        (Step.released cleared 1 [] [] [] me))
      (Step.pinned after reading 1 [] [] inspect (1, 1) refl)

write_exclusive_example :
    ((c d : Call ℕ) → In c midway.calls → In d midway.calls → c.owner ≡ d.owner)
    × (1 ≡ length midway.calls)
    × ((some me ≡ none) ↔ (midway.calls ≡ []))
write_exclusive_example = write_exclusive opens opens midway reach_midway

opening : IsOpening opens opens (λ b. b)
opening c h b p = ground arith

cache_current_example : ◌≡◌ {A = ℕ} 1 done.head
unfolding lookup Capability-discrete
cache_current_example =
    cache_current opens opens (λ b. b) opening done reach_done (λ w b m. m) inspect 1 refl

accepted_current_example : ◌≡◌ {A = ℕ} 1 done.head
unfolding accepts
accepted_current_example =
    accepted_current opens opens (λ b. b) opening done reach_done (1, 1) (inl refl) refl
      (λ w b m. m)
