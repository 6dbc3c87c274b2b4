-- ===== src/Planner/Execute/Run.antt =====
-- execute.py, `Executor.run`: the nodes of a plan in order, each with its generator, its mask and
-- what it adds to the candidates. What the open indices answer, and the mask of a module, stand
-- as parameters.
use vitruvio.Prelude.{
  ℕ, ◌+◌, ◌*◌, ◌==◌, ltb, leb, if◌then◌else◌, List, [], ◌∷◌, ◌++◌, Option, none, some, Bool, true,
  false, ◌&&◌, not, map, filterb, is_nil, length, take, sort, Text, text, le_text, text_eq, Dict,
  lookup, insert, contains, values,
}
use vitruvio.Planner.Ir.{
  Op, Op-discrete, Node, is_generator, seq_scan, exact_lookup, date_scan, term_scan, vector_search,
  brute_vector, graph_expand, empty,
}
use vitruvio.Planner.Fusion.{Candidate, Floats, accumulate}
use vitruvio.Planner.Execute.{
  Attempt, returned, raised, Sdk, Executor, Degradation, EvidenceBundle, date_only_filters,
}
use vitruvio.Planner.Execute.Tail.{finalize}

-- What the modules' indices answer for the query; a B-tree or a graph that is missing gives none.
pub record Indices (F M V : Type 0) : Type 0 where
  pub exact : M → List (Text × F)
  pub sequential : M → List (Text × F)
  pub dated : M → Option (List Text)
  pub occurred_at : M → Text → Option Text
  pub lexical : M → ℕ → List (Text × F) × Bool
  pub semantic : Op → List (Text × V) → M → ℕ → Option (Attempt (List (Text × F)))
  -- the seeds, the depth, and the ceiling on the nodes visited
  pub expand : List Text → ℕ → ℕ → Option (List (Text × F))
  -- `_mask`
  pub mask : M → Option (List Text)
  -- int(...)
  pub number : V → ℕ

-- op.value
unfoldable pub op_value : Op → Text
op_value exact_lookup = text "ExactLookup"
op_value seq_scan = text "SeqScan"
op_value Op.range_scan = text "RangeScan"
op_value date_scan = text "DateScan"
op_value term_scan = text "TermScan"
op_value vector_search = text "VectorSearch"
op_value brute_vector = text "BruteVector"
op_value Op.bitmap_filter = text "BitmapFilter"
op_value Op.mask_apply = text "MaskApply"
op_value Op.residual = text "Residual"
op_value graph_expand = text "GraphExpand"
op_value Op.fuse = text "Fuse"
op_value Op.top_k = text "TopK"
op_value Op.merge_modules = text "MergeModules"
op_value Op.accessibility = text "Accessibility"
op_value Op.resolve = text "Resolve"
op_value Op.verify = text "Verify"
op_value Op.bundle = text "Bundle"
op_value empty = text "Empty"

abbrev pub is_op : Op → Op → Bool
is_op a b = elim (Op-discrete a b) [ yes _ ↦ true | no _ ↦ false ]

-- What `run` keeps while it goes through the nodes.
pub record Progress (F : Type 0) : Type 0 where
  pub candidates : Dict Text (Candidate F)
  pub exhausted : Bool
  pub searched : List Text
  pub masks : Dict Text (Option (List Text))
  pub date_hits : List (Text × Text)
  pub degradations : List Degradation

abbrev pub no_progress : {F : Type 0} → Progress F
no_progress = record {
  candidates = [];
  exhausted = true;
  searched = [];
  masks = [];
  date_hits = [];
  degradations = [];
}

-- The hits of a generator, whether it enumerated its domain, and what it could not do.
pub record Generated (F : Type 0) : Type 0 where
  pub hits : List (Text × F)
  pub exhausted : Bool
  pub degraded : List Degradation

abbrev pub all_of : {F : Type 0} → List (Text × F) → Generated F
all_of hits = record { hits = hits; exhausted = true; degraded = [] }

abbrev pub admits : Option (List Text) → Text → Bool
admits none id = true
admits (some allowed) id = contains allowed id

module _ {F M B V : Type 0} (sdk : Sdk M B) (x : Executor F M) (floats : Floats F)
    (idx : Indices F M V) where
  -- `_semantic`
  unfoldable pub semantic : Node V → Text → M → ℕ → Generated F
  semantic node scope m limit = elim (idx.semantic node.op node.params m limit) [
    | none ↦ all_of []
    | some (raised error) ↦ record {
      hits = [];
      exhausted = true;
      degraded =
          record { kind = text "embedder_unavailable"; detail = scope ++ (text ": " ++ error) }
          ∷ [];
    }
    | some (returned results) ↦ record {
      hits = results;
      exhausted = ltb (length results) limit;
      degraded = [];
    }
  ]

  abbrev pub parameter : Node V → Text → ℕ → ℕ
  parameter node name default = elim (lookup node.params name) [
    | none ↦ default
    | some value ↦ idx.number value
  ]

  abbrev pub seeds : Dict Text (Candidate F) → List Text
  seeds candidates =
      map (λ (c : Candidate F). c.block_id)
        (filterb (λ (c : Candidate F). c.depth == 0) (values candidates))

  abbrev pub is_installed : Dict Text M → Text → Bool
  is_installed [] id = false
  is_installed ((memory_type, m) ∷ rest) id =
      let later = is_installed rest id in if contains (sdk.members m) id then true else later

  -- `_associative`
  unfoldable pub associative : Node V → Dict Text (Candidate F) → Generated F
  associative node candidates =
      let from = seeds candidates in
      let limit = parameter node (text "k") 20 in
      let max_nodes = limit * 4 in
      if is_nil candidates
      then all_of []
      else if is_nil from
      then all_of []
      else elim (idx.expand from (parameter node (text "depth") 1) max_nodes) [
        | none ↦ all_of []
        | some reached ↦
            let installed = filterb (λ (hit : Text × F). is_installed x.modules hit.0) reached in
            record {
              hits = take limit installed;
              exhausted =
                  leb (length installed) limit && ltb (length reached + length from) max_nodes;
              degraded = [];
            }
      ]

  -- `_generate`
  unfoldable pub generate : Node V → Text → M → Dict Text (Candidate F) → Generated F
  unfolding semantic associative
  generate node scope m candidates =
      let limit = parameter node (text "k") x.query.limit in
      elim node.op [
        | exact_lookup ↦ all_of (idx.exact m)
        | seq_scan ↦ all_of (idx.sequential m)
        | date_scan ↦ elim (idx.dated m) [
          | none ↦ all_of []
          | some held ↦ all_of (map (λ (id : Text). (id, floats.one)) held)
        ]
        | term_scan ↦
            let (hits, exhausted) = idx.lexical m limit in
            record { hits = hits; exhausted = exhausted; degraded = [] }
        | vector_search ↦ semantic node scope m limit
        | brute_vector ↦ semantic node scope m limit
        | graph_expand ↦ associative node candidates
        | _ ↦ all_of []
      ]

  abbrev pub Masks : Type 0
  Masks = Dict Text (Option (List Text))

  -- The mask of a module, evaluated once.
  unfoldable pub mask_of : Masks → Text → M → Option (List Text) × Masks
  mask_of masks memory_type m = elim (lookup masks memory_type) [
    | some held ↦ (held, masks)
    | none ↦ (idx.mask m, insert masks memory_type (idx.mask m))
  ]

  -- the loop over the owners of a block
  unfoldable pub admitted : Dict Text M → Masks → Text → Bool × Masks
  unfolding mask_of
  admitted [] masks id = (false, masks)
  admitted ((memory_type, m) ∷ rest) masks id =
      let (allowed, masks') = mask_of masks memory_type m in
      let skipped = admitted rest masks id in
      let refused = admitted rest masks' id in
      if contains (sdk.members m) id
      then (if admits allowed id then (true, masks') else refused)
      else skipped

  -- `_filter_federated_hits`
  unfoldable pub federated : List (Text × F) → Masks → List (Text × F) × Masks
  unfolding admitted
  federated [] masks = ([], masks)
  federated ((id, score) ∷ hits) masks =
      let (kept, masks') = admitted x.modules masks id in
      let (rest, masks'') = federated hits masks' in
      (if kept then (id, score) ∷ rest else rest, masks'')

  -- the hits that are left of a node's, and the masks
  unfoldable pub masked : Node V → Text → M → List (Text × F) → Masks → List (Text × F) × Masks
  unfolding federated mask_of
  masked node memory_type m hits masks =
      let (allowed, masks') = mask_of masks memory_type m in
      if is_op node.op graph_expand
      then federated hits masks
      else if is_op node.op date_scan && date_only_filters x.query
      then (hits, masks)
      else (filterb (λ (hit : Text × F). admits allowed hit.0) hits, masks')

  -- the identities of the hits with their dates
  unfoldable pub dated : M → List (Text × F) → List (Text × Text)
  dated m [] = []
  dated m ((id, score) ∷ hits) =
      let rest = dated m hits in
      elim (idx.occurred_at m id) [ none ↦ rest | some at ↦ (id, at) ∷ rest ]

  -- one node's generator, once its module is found
  unfoldable pub generated : Node V → Text → M → Progress F → Progress F
  unfolding generate masked dated accumulate op_value
  generated node memory_type m p =
      let g = generate node memory_type m p.candidates in
      let (hits, masks) = masked node memory_type m g.hits p.masks in
      let is_date = is_op node.op date_scan in
      record {
        candidates =
            if is_date
            then p.candidates
            else accumulate (op_value node.op) (if is_op node.op graph_expand then 1 else 0)
                (is_op node.op exact_lookup) 1 hits p.candidates;
        exhausted = p.exhausted && g.exhausted;
        searched =
            if contains p.searched memory_type then p.searched else p.searched ++ memory_type ∷ [];
        masks = masks;
        date_hits = if is_date then p.date_hits ++ dated m hits else p.date_hits;
        degradations = p.degradations ++ g.degraded;
      }

  -- the body of the loop over the nodes
  unfoldable pub run_node : Progress F → Node V → Progress F
  unfolding generated is_generator
  run_node p node = elim node.scope [
    | none ↦ p
    | some scope ↦
        if not (is_generator node.op) && not (is_op node.op exact_lookup)
        then p
        else elim (lookup x.modules scope) [ none ↦ p | some m ↦ generated node scope m p ]
  ]

  unfoldable pub run_nodes : List (Node V) → Progress F → Progress F
  unfolding run_node
  run_nodes [] p = p
  run_nodes (node ∷ rest) p = run_nodes rest (run_node p node)

  -- date_hits, latest first, by identity among equals
  abbrev pub by_date : List (Text × Text) → List (Text × Text)
  by_date hits =
      sort (λ (a : Text × Text) b. le_text b.1 a.1)
        (sort (λ (a : Text × Text) b. le_text a.0 b.0) hits)

  -- the candidates that `run` finalizes
  unfoldable pub all_candidates : Progress F → Dict Text (Candidate F)
  unfolding accumulate
  all_candidates p =
      if is_nil p.date_hits
      then p.candidates
      else accumulate (text "DateScan") 0 false 1
          (map (λ (hit : Text × Text). (hit.0, floats.one)) (by_date p.date_hits)) p.candidates

  -- `run`
  unfoldable pub run : List (Node V) → EvidenceBundle F × List Degradation
  unfolding run_nodes all_candidates
  run nodes =
      let p = run_nodes nodes no_progress in
      finalize sdk x floats nodes (all_candidates p) p.searched p.exhausted p.degradations
