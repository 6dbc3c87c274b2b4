-- ===== src/Planner/Templates/Nodes.antt =====
-- templates.py, `_mask_for` and `_generator_node`: the nodes of one scope.
use vitruvio.Prelude.{
  ℕ, zero, suc, ◌+◌, ◌-◌, ◌/◌, min, max, leb, ◌==◌, if◌then◌else◌, List, [], ◌∷◌, Option, none,
  some, Bool, true, false, ◌||◌, ◌&&◌, not, is_nil, length, get_elem?, Text, text, text_eq, Eq,
}
use vitruvio.Stats.{selectivity, range_selectivity}
use vitruvio.Planner.Ir.{
  Op, op_eq, Node, seq_scan, date_scan, term_scan, vector_search, brute_vector, bitmap_filter,
  graph_expand,
}
use vitruvio.Planner.Execute.{has_text, is_blank}
use vitruvio.Planner.Templates.{
  Value, VectorView, Request, number_of_words, Build, return_built, raise_built, ◌>>=◌, when,
  fed_by, add, count, real, flag, word, btree, bitmap, inverted, vector, graph,
}

module _ {F : Type 0} ⦃e : Eq (Node (Value F))⦄ (r : Request F) where
  abbrev pub cardinality_of : Text → ℕ
  cardinality_of scope = elim (r.statistics scope) [ none ↦ 0 | some s ↦ s.cardinality ]

  -- the estimated rows of the subject, and whether they are exact
  unfoldable pub subject_rows : Text → ℕ × Bool
  unfolding selectivity
  subject_rows scope = elim r.query.filters.subject [
    | none ↦ (cardinality_of scope, false)
    | some subject ↦
        if is_nil subject then (cardinality_of scope, false) else elim (r.statistics scope) [
          | none ↦ (0, false)
          | some s ↦
              let estimated = selectivity s.subject subject s.cardinality in
              (estimated.rows, estimated.exact)
        ]
  ]

  unfoldable pub facet_rows : Text → ℕ × Bool
  unfolding subject_rows
  facet_rows scope =
      let (rows, exact) = subject_rows scope in
      (if is_nil r.query.filters.tags then rows else min rows (max 1 (rows / 2)), exact)

  -- the bitmap filter of `_mask_for`, and the rows after it
  unfoldable pub facet_mask : Text → Build F (Option ℕ × ℕ)
  unfolding facet_rows
  facet_mask scope =
      let clauses =
        (if has_text r.query.filters.subject then 1 else 0) + length r.query.filters.tags in
      let (rows, exact) = facet_rows scope in
      if not (r.has scope bitmap)
      then return_built (none, cardinality_of scope)
      else if clauses == 0
      then return_built (none, rows)
      else (add bitmap_filter (some scope) [] (some (r.value bitmap)) (
            (text "clauses", count clauses)
            ∷ (text "rows", count rows)
            ∷ (text "exact", flag exact)
            ∷ [])
          >>= (λ mask. return_built (some mask, rows)))

  -- the rows of the range scan, and whether they are exact
  unfoldable pub range_rows : Text → Option ℕ → ℕ → ℕ × Bool
  unfolding range_selectivity
  range_rows scope mask rows = elim (r.statistics scope) [
    | none ↦ (rows, false)
    | some s ↦ elim s.occurred_at [
      | none ↦ (rows, false)
      | some t ↦
          let estimated =
            range_selectivity t r.query.filters.since r.query.filters.until s.cardinality in
          (elim mask [ none ↦ estimated.rows | some _ ↦ min rows estimated.rows ], estimated.exact)
    ]
  ]

  -- the range scan of `_mask_for`
  unfoldable pub range_mask : Text → Bool → Option ℕ × ℕ → Build F (Option ℕ)
  unfolding range_rows
  range_mask scope include_time (mask, rows) =
      let (rows', exact) = range_rows scope mask rows in
      if include_time
        && ((has_text r.query.filters.since || has_text r.query.filters.until) && r.has scope btree)
      then (add Op.range_scan (some scope) (fed_by mask) (some (r.value btree)) (
            (text "key", word (some (text "occurred_at")))
            ∷ (text "low", word r.query.filters.since)
            ∷ (text "high", word r.query.filters.until)
            ∷ (text "rows", count rows')
            ∷ (text "exact", flag exact)
            ∷ [])
          >>= (λ id. return_built (some id)))
      else return_built mask

  -- `_mask_for`
  unfoldable pub mask_for : Text → Bool → Build F (Option ℕ)
  unfolding facet_mask range_mask
  mask_for scope include_time = facet_mask scope >>= range_mask scope include_time

  -- the nodes of `_generator_node`
  abbrev pub seq_scan_node : Text → Build F ℕ
  seq_scan_node scope = add seq_scan (some scope) [] none (
      (text "terms", count (number_of_words r.query.query_text))
      ∷ (text "selectivity", real (r.hundredths 100))
      ∷ [])

  abbrev pub date_scan_node : Text → Build F ℕ
  date_scan_node scope = add date_scan (some scope) [] (some (r.value btree)) (
      (text "low", word r.query.filters.since)
      ∷ (text "high", word r.query.filters.until)
      ∷ (text "rows", count (cardinality_of scope))
      ∷ [])

  abbrev pub postings_of : Text → ℕ
  postings_of scope = elim (r.statistics scope) [ none ↦ 0 | some s ↦ s.postings ]

  abbrev pub term_scan_node : Text → Option ℕ → ℕ → Build F ℕ
  term_scan_node scope mask pool =
      add term_scan (some scope) (fed_by mask) (some (r.value inverted)) (
        (text "terms", count (max 1 (number_of_words r.query.query_text)))
        ∷ (text "postings", count (postings_of scope))
        ∷ (text "rows", count (cardinality_of scope))
        ∷ (text "k", count pool)
        ∷ (text "recall", real (r.hundredths 95))
        ∷ [])

  -- the first vector view of a scope, if there is one
  abbrev pub view_of : Text → Option (VectorView F)
  view_of scope = elim (r.statistics scope) [ none ↦ none | some s ↦ s.view ]

  -- vectors, dimensions and expected recall
  abbrev pub vector_sizes : Text → ℕ × ℕ × F
  vector_sizes scope = elim (view_of scope) [
    | none ↦ (cardinality_of scope, 384, r.hundredths 80)
    | some v ↦ (v.vectors, v.dimensions, v.recall)
  ]

  unfoldable pub vector_node : Text → Option ℕ → ℕ → Build F ℕ
  vector_node scope mask pool =
      let (vectors, dimensions, recall) = vector_sizes scope in
      if not (vectors == 0) && leb vectors r.config.brute_threshold
      then add brute_vector (some scope) (fed_by mask) (some (r.value vector)) (
          (text "vectors", count vectors)
          ∷ (text "dimensions", count dimensions)
          ∷ (text "k", count pool)
          ∷ [])
      else add vector_search (some scope) (fed_by mask) (some (r.value vector)) (
          (text "vectors", count vectors)
          ∷ (text "dimensions", count dimensions)
          ∷ (text "effort", count 64)
          ∷ (text "k", count pool)
          ∷ (text "recall", real recall)
          ∷ [])

  abbrev pub or_unmeasured : Option F → F
  or_unmeasured none = r.hundredths 150
  or_unmeasured (some held) = held

  -- reach_by_depth[depth - 1], or 1.5 where the depth was not measured; at depth 0 the index is -1,
  -- which reads the last entry, or raises where there is none
  abbrev pub reach_at : List F → ℕ → Option F
  reach_at reach zero = get_elem? reach (length reach - 1)
  reach_at reach (suc depth) = some (or_unmeasured (get_elem? reach depth))

  abbrev pub reach_and_degree : Text → ℕ → Build F (F × F)
  reach_and_degree scope depth = elim (r.statistics scope) [
    | none ↦ return_built (r.hundredths 150, r.hundredths 100)
    | some s ↦ elim (reach_at s.graph.reach_by_depth depth) [
      | none ↦ raise_built
      | some reach ↦ return_built (reach, s.graph.out_degree_mean)
    ]
  ]

  unfoldable pub graph_node : Text → Build F ℕ
  graph_node scope =
      let depth = min r.expand_depth r.config.graph_expand_max in
      reach_and_degree scope depth >>= λ (reach, degree).
      add graph_expand (some scope) [] (some (r.value graph)) (
        (text "depth", count depth)
        ∷ (text "reach", real reach)
        ∷ (text "degree", real degree)
        ∷ (text "recall", real (r.hundredths 70))
        ∷ [])

  -- `_generator_node`
  unfoldable pub generator_node : Text → Option ℕ → ℕ → Op → Build F (Option ℕ)
  unfolding vector_node graph_node is_blank
  generator_node scope mask pool generator = elim generator [
    | seq_scan ↦ when true (seq_scan_node scope)
    | date_scan ↦ when (r.has scope btree) (date_scan_node scope)
    | term_scan ↦
        when (r.has scope inverted && not (is_blank r.query.query_text))
          (term_scan_node scope mask pool)
    | vector_search ↦
        when (r.has scope vector && not (is_blank r.query.query_text)) (vector_node scope mask pool)
    | graph_expand ↦ when (not (r.expand_depth == 0) && r.has scope graph) (graph_node scope)
    | _ ↦ when false (seq_scan_node scope)
  ]
