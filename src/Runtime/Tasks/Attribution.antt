-- ===== src/Runtime/Tasks/Attribution.antt =====
-- tasks.py, `_attributed`: when an ingest may be attributed.
use vitruvio.Prelude.{
  Option, none, some, [], Text, lookup, text_eq, ◌≡◌, ◌≢◌, ◌↔◌, ◌⊎◌, inl, inr, arith, Option-cases,
}
use vitruvio.Runtime.Tasks.{Project, Config, flag, environment, declared_actor, attributed}

-- The declaration that governs a brain: its own, if it states an id, or else the project's.
abbrev pub Governs : Project → Option Text → Text → Type 0
Governs p none id =
    (p.brain ≡ some id) ⊎ (((p.brain ≡ none) ⊎ (p.brain ≡ some [])) × (p.actor ≡ some id))
Governs p (some name) id =
    (lookup p.brains name ≡ some (some id))
    ⊎ (((lookup p.brains name ≡ none)
          ⊎ (lookup p.brains name ≡ some none)
          ⊎ (lookup p.brains name ≡ some (some [])))
        × (p.actor ≡ some id))

declared_actor-Governs :
    (p : Project) (name : Option Text) (id : Text)
    → id ≢ []
    → (declared_actor p name ≡ some id) ↔ Governs p name id
unfolding declared_actor
declared_actor-Governs p none id n = ground arith
declared_actor-Governs p (some name) id n = ground arith

-- An ingest passes exactly if the file declares, for this brain or else for the project, an actor
-- whose id is not empty, the invocation acts as just that actor, and a flag or the environment says
-- who assisted.
pub attributed_exact :
    (config : Config)
    → ((attributed config ≡ none) ↔ (
        (file : Project) × (id : Text) × (config.declared_file ≡ some file)
        × (id ≢ [])
        × Governs file config.brain_name id
        × (config.actor_id ≡ some id)
        × ((config.collaborators_origin ≡ flag) ⊎ (config.collaborators_origin ≡ environment))))
unfolding attributed declared_actor
attributed_exact config = (
  (λ h. elim (Option-cases config.declared_file) [
    | inl p ↦ absurd (ground arith)
    | inr (file, p) ↦ elim (Option-cases (declared_actor file config.brain_name)) [
      | inl q ↦ absurd (ground arith)
      | inr (id, q) ↦
          let full : id ≢ [] = ground arith in
          (
            file,
            id,
            p,
            full,
            (declared_actor-Governs file config.brain_name id full).0 q,
            ground arith,
            ground arith,
          )
    ]
  ]),
  (λ (file, id, p, full, g, a, o).
      let q = (declared_actor-Governs file config.brain_name id full).1 g in
      ground (arith, p, q, a, o, full)),
)
