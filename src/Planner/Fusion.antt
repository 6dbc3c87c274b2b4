-- ===== src/Planner/Fusion.antt =====
-- fusion.py: candidates gather evidence from several generators and are ranked by it.
pub mod Evidence
pub mod Ranking
pub mod Floor
pub mod Gathering
use vitruvio.Prelude.{
  ℕ, suc, ◌+◌, min, ltb, ◌==◌, if◌then◌else◌, List, [], ◌∷◌, ◌++◌, Option, none, some, Bool, true,
  false, ◌||◌, not, map, foldl, is_nil, sort, Text, le_text, text_eq, Dict, lookup, insert, get_or,
  update, values, contains, leb,
}

pub record Candidate (F : Type 0) : Type 0 where
  pub block_id : Text
  pub signals : Dict Text F
  pub ranks : Dict Text ℕ
  pub depth : ℕ
  pub exact : Bool
  pub origins : List Text

-- The operations on floats that the code uses; `le` is the order of its comparisons.
pub record Floats (F : Type 0) : Type 0 where
  pub zero : F
  pub one : F
  pub half : F
  pub of_nat : ℕ → F
  pub add : F → F → F
  pub mul : F → F → F
  pub div : F → F → F
  pub pow : F → ℕ → F
  pub le : F → F → Bool

-- RRF_K
abbrev pub rrf_k : ℕ
rrf_k = 60

-- generator not in self.ranks or rank < self.ranks[generator]
abbrev pub improves : Dict Text ℕ → Text → ℕ → Bool
improves ranks generator rank = elim (lookup ranks generator) [
  | none ↦ true
  | some held ↦ ltb rank held
]

module _ {F : Type 0} where
  -- Candidate(block_id=block_id)
  abbrev pub fresh : Text → Candidate F
  fresh block_id = record {
    block_id = block_id;
    signals = [];
    ranks = [];
    depth = 0;
    exact = false;
    origins = [];
  }

  unfoldable pub contribute : Text → ℕ → F → ℕ → Candidate F → Candidate F
  contribute generator rank score depth c = record c {
    ranks = if improves c.ranks generator rank then insert c.ranks generator rank else c.ranks;
    signals =
        if improves c.ranks generator rank then insert c.signals generator score else c.signals;
    depth = if is_nil c.origins then depth else min c.depth depth;
    origins = if contains c.origins generator then c.origins else c.origins ++ generator ∷ [];
  }

  -- the loop of `accumulate` over the hits, from the rank that the next one has
  unfoldable pub accumulate :
      Text → ℕ → Bool → ℕ → List (Text × F) → Dict Text (Candidate F) → Dict Text (Candidate F)
  unfolding contribute
  accumulate generator depth exact rank [] candidates = candidates
  accumulate generator depth exact rank ((block_id, score) ∷ hits) candidates =
      accumulate generator depth exact (suc rank) hits (
        update candidates block_id (fresh block_id) λ c.
          let c' = contribute generator rank score depth c in
          if exact then record c' { exact = true } else c')

  module _ (floats : Floats F) where
    -- the reciprocal ranks of a candidate, weighted and added up
    unfoldable pub weighted : Dict Text F → ℕ → Dict Text ℕ → F → F
    weighted weights k [] total = total
    weighted weights k ((generator, rank) ∷ ranks) total = weighted weights k ranks (
        floats.add total
          (floats.div (get_or weights generator floats.half) (floats.of_nat (k + rank))))

    unfoldable pub score_of : Dict Text F → ℕ → F → Candidate F → F
    unfolding weighted
    score_of weights k decay c =
        let total = weighted weights k c.ranks floats.zero in
        let near = if c.depth == 0 then total else floats.mul total (floats.pow decay c.depth) in
        if c.exact then floats.add near floats.one else near

    -- (-score, depth, block_id), compared as tuples
    abbrev pub le_scored : Candidate F × F → Candidate F × F → Bool
    le_scored (a, s) (b, t) =
        if floats.le t s
        then (if floats.le s t
            then (if leb a.depth b.depth
                then (if leb b.depth a.depth then le_text a.block_id b.block_id else true)
                else false)
            else true)
        else false

    unfoldable pub fuse : Dict Text (Candidate F) → Dict Text F → ℕ → F → List (Candidate F × F)
    unfolding score_of
    fuse candidates weights k decay =
        sort le_scored (map (λ c. (c, score_of weights k decay c)) (values candidates))

    unfoldable pub normalize : List (Candidate F × F) → List (Candidate F × F)
    normalize [] = []
    normalize ((first, top) ∷ rest) =
        map
          (λ (x : Candidate F × F). (
            x.0,
            if floats.le top floats.zero
                then floats.zero
                else if floats.le floats.one (floats.div x.1 top)
                then floats.one
                else floats.div x.1 top,
          ))
          ((first, top) ∷ rest)
