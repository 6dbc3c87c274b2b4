-- ===== src/Indices/Base/Build.antt =====
-- base.py, `VitruvioIndex.build`: what an index holds after it, whatever it held before.
use vitruvio.Prelude.{
  List, map, length, none, true, Bool-cases, ◌≡◌, ◌↔◌, ◌⊎◌, inl, inr, refl, ◌∙◌, In, Distinct,
  arith, Text, ◌==◌, ◌&&◌, length_of_same, text_discrete, Bool,
}
use vitruvio.Indices.Ordinals
use vitruvio.Indices.Ordinals.{OrdinalTable}
use vitruvio.Indices.Ordinals.Laws.{init_canonical, In-identities, identities-Distinct}
use vitruvio.Indices.Queries.{between, is_noop}
use vitruvio.Indices.Queries.Delta.{is_noop_iff}
use vitruvio.Indices.Base.{Kind, Index, population, rebuild, build}

module _ {P S : Type 0} (kind : Kind P S) where
  abbrev pub ids : List P → List Text
  ids = map kind.block_id

  -- If the index has the table of some identities, then after `build` the table is that of the
  -- incoming blocks. Either the state is that of a clean rebuild, with the old root and refusal
  -- forgotten, or the incoming identities are the ones already held, and the index is untouched.
  pub build_outcome :
      (ix : Index S) (held : List Text) (blocks : List P)
      → ix.table ≡ Ordinals.init held
      → ((build kind ix blocks).table ≡ Ordinals.init (ids blocks))
        × ((((build kind ix blocks).state ≡ rebuild kind (Ordinals.init (ids blocks)) blocks)
              × ((build kind ix blocks).bound_root ≡ none)
              × ((build kind ix blocks).refused_tag ≡ none))
            ⊎ ((build kind ix blocks ≡ ix) × ((x : Text) → In x held ↔ In x (ids blocks))))
  unfolding build
  build_outcome ix held blocks e = elim (Bool-cases unchanged) [
    | inl h ↦ rw (h, build) (e ∙ init_canonical held (ids blocks) (same h), inr (refl, same h))
    | inr h ↦ rw (h, build) (refl, inl (refl, refl, refl))
  ]
    where
      unchanged : Bool
      unchanged =
          is_noop (between ix.table.identities (ids blocks))
          && (population ix == length (ids blocks))

      held_in : (x : Text) → In x ix.table.identities ↔ In x held
      held_in x = rw e (In-identities held x)

      same : unchanged ≡ true → (x : Text) → In x held ↔ In x (ids blocks)
      same h x =
          ground
            (arith, held_in x, (is_noop_iff ix.table.identities (ids blocks)).0 (ground arith) x)

  -- If the index has the table of some identities, a second `build` with the same blocks, each
  -- identity once, changes nothing.
  pub build_idempotent :
      (ix : Index S) (held : List Text) (blocks : List P)
      → ix.table ≡ Ordinals.init held
      → Distinct (ids blocks)
      → build kind (build kind ix blocks) blocks ≡ build kind ix blocks
  build_idempotent ix held blocks e d = ground (arith, noop, as_many, build_again)
    where
      built : Index S
      built = build kind ix blocks

      members : (x : Text) → In x built.table.identities ↔ In x (ids blocks)
      members x = rw ((build_outcome ix held blocks e).0) (In-identities (ids blocks) x)

      noop : is_noop (between built.table.identities (ids blocks)) ≡ true
      noop = (is_noop_iff built.table.identities (ids blocks)).1 members

      as_many : population built ≡ length (ids blocks)
      as_many =
          length_of_same text_discrete built.table.identities (ids blocks)
            (rw ((build_outcome ix held blocks e).0) (identities-Distinct (ids blocks))) d members

      build_again :
          is_noop (between built.table.identities (ids blocks)) ≡ true
          → population built ≡ length (ids blocks)
          → build kind built blocks ≡ built
      build_again h k = unfold build in ground arith
