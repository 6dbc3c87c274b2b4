-- ===== src/Planner/Execute/Tail.antt =====
-- execute.py, `_verify` and `_finalize`: the residual filters, the verification of a candidate, and
-- the bundle.
use vitruvio.Prelude.{
  ◌*◌, max, ltb, leb, if◌then◌else◌, List, [], ◌∷◌, ◌++◌, Option, none, some, Bool, true, false,
  ◌||◌, ◌&&◌, not, map, filterb, filter_some, is_nil, length, take, Text, text, text_eq, nat_eq,
  Dict, lookup, contains, inter,
}
use vitruvio.Planner.Ir.{Node, date_scan}
use vitruvio.Planner.Fusion.{Candidate, Floats, fuse, normalize}
use vitruvio.Planner.Execute.{
  Content, no_content, Sdk, Degradation, Match, EvidenceBundle, Executor, has_block_filters,
  is_blank, date_only_filters, runs, matches_filters, intersection, admissible_unresolvable,
  returned, raised,
}

module _ {F M B : Type 0} (sdk : Sdk M B) (x : Executor F M) where
  -- `_catalog_sources`
  unfoldable pub catalog_sources : Option (List Text)
  unfolding intersection
  catalog_sources =
      if is_nil x.query.filters.classes
      then none
      else some (intersection (map sdk.sources_for x.query.filters.classes))

  unfoldable pub matches_catalog : Text → B → Bool
  unfolding catalog_sources
  matches_catalog id block =
      if is_nil x.query.filters.classes
      then true
      else not (
          is_nil (
            inter (sdk.evidence_sources id block)
              (elim catalog_sources [ none ↦ [] | some eligible ↦ eligible ])))

  abbrev pub matches_block : Text → B → Bool
  matches_block id block =
      matches_filters x.query.filters (sdk.payload block) && matches_catalog id block

  -- `_candidate_matches_filters`, over the modules that are left
  unfoldable pub candidate_matches : Dict Text M → Text → Bool
  unfolding matches_filters matches_catalog
  candidate_matches [] id = false
  candidate_matches ((memory_type, m) ∷ rest) id =
      let later = candidate_matches rest id in
      if not (contains (sdk.members m) id) || not (sdk.is_resolvable m id)
      then later
      else elim (sdk.get m id) [ raised _ ↦ false | returned block ↦ matches_block id block ]

  abbrev pub cite : Text → Text → Text × Option Text
  cite id cited = (cited, lookup x.ledger.locators id)

  -- the match that `_verify` makes
  abbrev pub answer : Text → Text → F → Bool → Content → Match F
  answer id memory_type score resolvable content = record {
    block_id = id;
    memory_type = memory_type;
    content = content;
    score = score;
    sources = map (cite id) content.evidence;
    verified = true;
    resolvable = resolvable;
    superseded_by = lookup x.ledger.superseded_by id;
  }

  abbrev pub Checked : Type 0
  Checked = Option (Match F) × List Degradation

  abbrev pub drop_as : Text → Text → List Degradation → Checked
  drop_as kind detail ds = (none, ds ++ record { kind = kind; detail = detail } ∷ [])

  -- the rest of `_verify` for a block whose bytes are there
  unfoldable pub verify_content : Text → M → Text → F → List Degradation → Checked
  unfolding matches_filters matches_catalog
  verify_content memory_type m id score ds = elim (sdk.get m id) [
    | raised error ↦ drop_as (text "verification_failed") (id ++ (text ": " ++ error)) ds
    | returned block ↦
        if matches_block id block
        then (some (answer id memory_type score true (sdk.payload block)), ds)
        else (none, ds)
  ]

  -- the rest of `_verify` once the membership is proved
  unfoldable pub verify_proved : Text → M → Candidate F → F → List Degradation → Checked
  unfolding verify_content admissible_unresolvable
  verify_proved memory_type m c score ds =
      if sdk.is_resolvable m c.block_id
      then verify_content memory_type m c.block_id score ds
      else if not (admissible_unresolvable c)
      then drop_as (text "index_stale")
          (c.block_id ++ text " matched on content but its bytes are gone") ds
      else if has_block_filters x.query.filters
      then (none, ds)
      else (some (answer c.block_id memory_type score false no_content), ds)

  -- `_verify` in the module that holds the block
  unfoldable pub verify_in : Text → M → Candidate F → F → List Degradation → Checked
  unfolding verify_proved
  verify_in memory_type m c score ds = elim (sdk.proves m c.block_id) [
    | raised error ↦ drop_as (text "verification_failed") (c.block_id ++ (text ": " ++ error)) ds
    | returned proved ↦
        if proved
        then verify_proved memory_type m c score ds
        else drop_as (text "verification_failed")
            (c.block_id ++ (text " does not prove into " ++ memory_type)) ds
  ]

  -- `_verify`, over the modules that are left
  unfoldable pub verify : Dict Text M → Candidate F → F → List Degradation → Checked
  unfolding verify_in
  verify [] c score ds = (none, ds)
  verify ((memory_type, m) ∷ rest) c score ds =
      let later = verify rest c score ds in
      if contains (sdk.members m) c.block_id then verify_in memory_type m c score ds else later

  abbrev pub with_match : List (Match F) → Option (Match F) → List (Match F)
  with_match matches none = matches
  with_match matches (some found) = matches ++ found ∷ []

  -- the loop of `_finalize`: the matches, and whether the limit stopped it
  unfoldable pub verify_pool :
      List (Candidate F × F)
      → List (Match F)
      → List Degradation
      → List (Match F) × Bool × List Degradation
  unfolding verify
  verify_pool [] matches ds = (matches, false, ds)
  verify_pool ((c, score) ∷ rest) matches ds =
      let verdict = verify x.modules c score ds in
      let more = verify_pool rest (with_match matches verdict.0) verdict.1 in
      if leb (max 1 x.query.limit) (length matches) then (matches, true, ds) else more

  -- `verified_against`
  abbrev pub roots : List Text → List (Text × Text)
  roots searched =
      filter_some
        (λ (memory_type : Text). elim (lookup x.modules memory_type) [
          | none ↦ none
          | some m ↦ some (memory_type, sdk.root m)
        ])
        searched

  module _ (floats : Floats F) {V : Type 0} (nodes : List (Node V)) where
    -- `_finalize` up to the cut: what is accessible and passes the residual filters, in fused order
    unfoldable pub scored : Dict Text (Candidate F) → List (Candidate F × F)
    unfolding runs candidate_matches is_blank
    scored candidates =
        let fused = fuse floats candidates x.weights x.rrf_k x.decay in
        let accessible =
          if x.query.filters.include_superseded
          then fused
          else filterb (λ (s : Candidate F × F). x.ledger.is_accessible s.0.block_id) fused in
        let date_scan_exact = date_only_filters x.query && runs date_scan nodes in
        if has_block_filters x.query.filters && not date_scan_exact
        then filterb (λ (s : Candidate F × F). candidate_matches x.modules s.0.block_id) accessible
        else accessible

    -- `_finalize`
    unfoldable pub finalize :
        Dict Text (Candidate F)
        → List Text
        → Bool
        → List Degradation
        → EvidenceBundle F × List Degradation
    unfolding scored verify_pool
    finalize candidates searched exhausted ds =
        let ranked = scored candidates in
        let reserve = max 1 x.query.limit * 2 in
        let (matches, stopped, ds') = verify_pool (normalize floats (take reserve ranked)) [] ds in
        (
          record {
            matches = matches;
            verified_against = roots searched;
            truncated = (ltb reserve (length ranked) || stopped) || not exhausted;
          },
          ds',
        )
