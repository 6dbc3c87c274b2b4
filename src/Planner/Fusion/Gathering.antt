-- ===== src/Planner/Fusion/Gathering.antt =====
-- fusion.py, `accumulate` and `normalize`: what each block receives, and the final scores.
use vitruvio.Prelude.{
  ℕ, suc, if◌then◌else◌, List, [], ◌∷◌, Bool, true, map, foldl, Text, text_eq, text_discrete, ite,
  Dict, get_or, get_or-insert, insert, ◌≡◌, inl, inr, refl, ap, ◌∙◌, arith, Bool-cases, All,
}
use vitruvio.Planner.Fusion.{Candidate, Floats, fresh, contribute, accumulate, normalize}
use vitruvio.Planner.Fusion.Ranking.{IsOrdered}

module _ {F : Type 0} where
  -- The hits of one block, with the ranks that they have.
  abbrev pub hits_of : Text → ℕ → List (Text × F) → List (ℕ × F)
  hits_of id rank [] = []
  hits_of id rank ((block_id, score) ∷ hits) =
      let rest = hits_of id (suc rank) hits in
      ite (text_discrete block_id id) ((rank, score) ∷ rest) rest

  module _ (generator : Text) (depth : ℕ) (exact : Bool) where
    abbrev pub receive : Candidate F → ℕ × F → Candidate F
    receive c (rank, score) =
        let c' = contribute generator rank score depth c in
        if exact then record c' { exact = true } else c'

    -- Each block receives exactly its own hits, in order, each at its place in the list; a block
    -- without hits keeps its candidate.
    pub accumulate_exact :
        (rank : ℕ) (hits : List (Text × F)) (candidates : Dict Text (Candidate F)) (id : Text)
        → get_or (accumulate generator depth exact rank hits candidates) id (fresh id)
          ≡ foldl receive (get_or candidates id (fresh id)) (hits_of id rank hits)
    unfolding accumulate
    accumulate_exact rank [] candidates id = refl
    accumulate_exact rank ((block_id, score) ∷ hits) candidates id =
        accumulate_exact (suc rank) hits next id
        ∙ ap (λ c. foldl receive c rest) (get_or-insert candidates block_id id received (fresh id))
        ∙ split (text_discrete block_id id)
      where
        rest : List (ℕ × F)
        rest = hits_of id (suc rank) hits

        received : Candidate F
        received = receive (get_or candidates block_id (fresh block_id)) (rank, score)

        next : Dict Text (Candidate F)
        next = insert candidates block_id received

        start : Candidate F
        start = get_or candidates id (fresh id)

        split :
            (d : Dec (block_id ≡ id))
            → foldl receive (ite d received start) rest
              ≡ foldl receive start (ite d ((rank, score) ∷ rest) rest)
        split (yes p) =
            ap (λ j. foldl receive (receive (get_or candidates j (fresh j)) (rank, score)) rest) p
        split (no p) = refl

  module _ (floats : Floats F) (ordered : IsOrdered floats) where
    le_self : (x : F) → floats.le x x ≡ true
    le_self x = elim (Bool-cases (floats.le x x)) [ inl h ↦ h | inr h ↦ ordered.total x x h ]

    abbrev rescaled : F → Candidate F × F → Candidate F × F
    rescaled top x = (
      x.0,
      if floats.le top floats.zero
          then floats.zero
          else if floats.le floats.one (floats.div x.1 top)
          then floats.one
          else floats.div x.1 top,
    )

    map-rescaled :
        (top : F) (xs : List (Candidate F × F))
        → floats.le floats.zero floats.one ≡ true
        → (map (λ (x : Candidate F × F). x.0) (map (rescaled top) xs)
            ≡ map (λ (x : Candidate F × F). x.0) xs)
          × All (λ (x : Candidate F × F). floats.le x.1 floats.one ≡ true) (map (rescaled top) xs)
    map-rescaled top [] z = (refl, tt)
    map-rescaled top (x ∷ xs) z =
        let (e, a) = map-rescaled top xs z in
        (
          ap (◌∷◌ x.0) e,
          (ground (arith, le_self floats.one, ordered.total floats.one (floats.div x.1 top)), a),
        )

    -- If the floats compared are ordered and zero is at most one, normalisation keeps the
    -- candidates in their order and leaves no score above one.
    pub normalize_exact :
        (xs : List (Candidate F × F))
        → floats.le floats.zero floats.one ≡ true
        → (map (λ (x : Candidate F × F). x.0) (normalize floats xs)
            ≡ map (λ (x : Candidate F × F). x.0) xs)
          × All (λ (x : Candidate F × F). floats.le x.1 floats.one ≡ true) (normalize floats xs)
    unfolding normalize
    normalize_exact [] z = (refl, tt)
    normalize_exact ((c, top) ∷ xs) z = map-rescaled top ((c, top) ∷ xs) z
