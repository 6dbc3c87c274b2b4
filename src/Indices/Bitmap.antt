-- ===== src/Indices/Bitmap.antt =====
-- bitmap.py, `BitmapIndex`: conjunctive filtering over categorical facets, with the sets of the
-- engine as lists without repetition.
pub mod Held
pub mod Filter
pub mod Answers
use vitruvio.Prelude.{
  ℕ, suc, ◌+◌, ltb, leb, ◌==◌, if◌then◌else◌, List, [], ◌∷◌, Option, none, some, Bool, true, false,
  ◌&&◌, ◌||◌, not, map, foldl, length, is_nil, sort, Text, text_eq, nat_eq, Dict, lookup, insert,
  get_or, update, contains, add, union, inter, diff, set_of, range_from, String, le_text, take,
}
use vitruvio.Indices.Projection.{
  Facet, memory_type, subject, tag, semantic_kind, media_type, record_type, has_normalized_view,
  has_evidence, participant, predicate, facet_eq, Projection,
}
use vitruvio.Indices.Ordinals
use vitruvio.Indices.Ordinals.{OrdinalTable}
use vitruvio.Indices.Queries.{Combine, any, all, FacetClause, FacetQuery}
use vitruvio.Indices.Base.{Kind}

pub record Bitmap : Type 0 where
  pub facets : Dict Facet (Dict Text (List ℕ))
  pub unindexed : List Facet
  pub null_counts : Dict Facet ℕ
  pub populated_counts : Dict Facet ℕ
  pub total_values : Dict Facet ℕ

unfoldable pub reset : Bitmap
reset = record {
  facets = [];
  unindexed = [];
  null_counts = [];
  populated_counts = [];
  total_values = [];
}

-- MAX_DISTINCT_PER_FACET
abbrev pub max_distinct : ℕ
max_distinct = 4096

-- the members of Facet, in their order
abbrev pub every_facet : List Facet
every_facet =
    memory_type ∷ subject ∷ tag ∷ semantic_kind ∷ media_type ∷ record_type ∷ has_normalized_view
    ∷ has_evidence ∷ participant ∷ predicate ∷ []

-- key in table
abbrev pub has_key : Dict Text (List ℕ) → Text → Bool
has_key table key = elim (lookup table key) [ none ↦ false | some _ ↦ true ]

-- the sets of a clause's values, combined
unfoldable pub combined : Combine → List (List ℕ) → Option (List ℕ)
combined how [] = none
combined all (s ∷ sets) = some (foldl inter s sets)
combined any (s ∷ sets) = some (foldl union [] (s ∷ sets))

-- the loop that intersects, left as soon as nothing survives
unfoldable pub intersect : List ℕ → List (List ℕ) → List ℕ
intersect surviving [] = surviving
intersect surviving (other ∷ others) =
    let smaller = inter surviving other in
    let rest = intersect smaller others in if is_nil smaller then smaller else rest

abbrev pub smallest_first : List (List ℕ) → List (List ℕ)
smallest_first = sort (λ x y. leb (length x) (length y))

abbrev pub surviving_of : List (List ℕ) → List ℕ
surviving_of [] = []
surviving_of (s ∷ sets) = intersect s sets

-- `fold` of projection.py rests on Unicode's tables.
module _ (fold : Text → Text) where
  -- one value of a facet: past the cap a new one marks the facet
  unfoldable pub record_value : ℕ → Facet → Text → Bitmap → Bitmap
  record_value ordinal facet value b =
      let table = get_or b.facets facet [] in
      let key = fold value in
      if not (has_key table key) && leb max_distinct (length table)
      then record b { unindexed = add b.unindexed facet }
      else record b {
        facets = insert b.facets facet (update table key [] (λ held. add held ordinal));
      }

  -- the values of one facet: a block without any is counted
  unfoldable pub record_values : ℕ → Facet → List Text → Bitmap → Bitmap
  unfolding record_value
  record_values ordinal facet values b =
      let ready = record b { facets = update b.facets facet [] (λ table. table) } in
      if is_nil values
      then record ready { null_counts = update b.null_counts facet 0 (λ n. n + 1) }
      else foldl (λ s value. record_value ordinal facet value s)
          (record ready {
            populated_counts = update b.populated_counts facet 0 (λ n. n + 1);
            total_values = update b.total_values facet 0 (λ n. n + length values);
          })
          values

  -- one facet of the projection
  unfoldable pub record_facet : ℕ → Dict Facet (List Text) → Facet → Bitmap → Bitmap
  unfolding record_values
  record_facet ordinal facets facet b = record_values ordinal facet (get_or facets facet []) b

  module _ {W : Type 0} where
    -- `_apply`
    unfoldable pub apply : OrdinalTable → Projection W → Bitmap → Bitmap
    unfolding record_facet
    apply table projection b = elim (Ordinals.ordinal table projection.block_id) [
      | none ↦ b
      | some ordinal ↦
          foldl (λ s facet. record_facet ordinal projection.facets facet s) b every_facet
    ]

    abbrev pub bitmap : Kind (Projection W) Bitmap
    bitmap = record { block_id = λ p. p.block_id; reset = reset; apply = apply; finish = λ _ b. b }

  -- `_clause_set`: none where the facet cannot be answered
  unfoldable pub clause_set : OrdinalTable → Bitmap → FacetClause → Option (List ℕ)
  unfolding combined
  clause_set table b clause = elim (lookup b.facets clause.facet) [
    | none ↦ none
    | some values ↦
        let matched =
          combined clause.combine (map (λ v. get_or values (fold v) []) clause.values) in
        if contains b.unindexed clause.facet then none else elim matched [
          | none ↦ none
          | some m ↦ some (if clause.negate then diff (range_from 0 (Ordinals.size table)) m else m)
        ]
  ]

  -- the loop over the clauses, left at the first that cannot be answered
  unfoldable pub clause_sets : OrdinalTable → Bitmap → List FacetClause → Option (List (List ℕ))
  unfolding clause_set
  clause_sets table b [] = some []
  clause_sets table b (clause ∷ rest) = elim (clause_set table b clause) [
    | none ↦ none
    | some m ↦ elim (clause_sets table b rest) [ none ↦ none | some ms ↦ some (m ∷ ms) ]
  ]

  -- `filter`
  unfoldable pub filter : OrdinalTable → Bitmap → FacetQuery → Option (List ℕ)
  unfolding clause_sets intersect
  filter table b query =
      if is_nil query.clauses then query.allow else elim (clause_sets table b query.clauses) [
        | none ↦ none
        | some evaluated ↦
            let surviving = surviving_of (smallest_first evaluated) in
            some
              (elim query.allow [ none ↦ surviving | some allow ↦ inter surviving (set_of allow) ])
      ]

  -- `matching`
  unfoldable pub matching : OrdinalTable → Bitmap → FacetQuery → Option (List Text)
  unfolding filter
  matching table b query = elim (filter table b query) [
    | none ↦ none
    | some surviving ↦ some (Ordinals.resolve table surviving)
  ]

  -- `estimate`: its rows, and whether they are exact
  unfoldable pub estimate : OrdinalTable → Bitmap → FacetQuery → ℕ × Bool
  unfolding filter
  estimate table b query = elim (filter table b query) [
    | none ↦ (Ordinals.size table, false)
    | some surviving ↦ (length surviving, true)
  ]

-- `values`
unfoldable pub values : Bitmap → Facet → List (Text × ℕ)
values b facet =
    map (λ (e : Text × List ℕ). (e.0, length e.1))
      (sort (λ (x y : Text × List ℕ). le_text x.0 y.0) (get_or b.facets facet []))
