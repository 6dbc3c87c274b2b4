-- ===== src/Indices/Graph.antt =====
-- graph.py, `GraphIndex`: typed traversal over one module's edges. Scores and weights are floats,
-- a parameter with the operations that the code uses; they are no NaN and no infinity, for which
-- rounding raises.
pub mod Walks
pub mod Found
pub mod Fuel
pub mod Edges
pub mod Expansion
pub mod Compiled
pub mod Stored
pub mod Restored
use vitruvio.Prelude.{
  ℕ, ℤ, pos, zero, suc, ◌+◌, ◌*◌, ltb, leb, ◌==◌, if◌then◌else◌, List, [], ◌∷◌, ◌++◌, Option, none,
  some, Bool, true, false, ◌&&◌, ◌||◌, not, map, foldl, length, is_nil, filterb, filter_some,
  get_elem?, sort, take, Text, le_text, text_eq, nat_eq, ℕ_discrete, text, Eq, Dict, lookup, insert,
  get_or, update, keys, values, contains, union, set_of, enumerate, diff,
}
use vitruvio.Indices.Projection.{
  EdgeKind, relation, evidence, uses, derived_from, supersedes, edge_kind_eq, Edge, Projection,
}
use vitruvio.Indices.Ordinals
use vitruvio.Indices.Ordinals.{OrdinalTable}
use vitruvio.Indices.Queries.{TraversalQuery}
use vitruvio.Indices.Base.{Kind}

pub record Floats (F : Type 0) : Type 0 where
  pub zero : F
  pub one : F
  pub of_int : ℤ → F
  pub mul : F → F → F
  pub div : F → F → F
  pub round : F → ℤ
  pub le : F → F → Bool

unfoldable pub pair_discrete : Discrete (ℕ × ℕ)
pair_discrete = hlevel (ℕ_discrete)

instance abbrev pub pair_eq : Eq (ℕ × ℕ)
pair_eq = record { dec = pair_discrete }

-- an edge of the list: `_edges`
pub record Raw (F : Type 0) : Type 0 where
  pub source : Text
  pub target : Text
  pub kind : EdgeKind
  pub predicate : Option Text
  pub weight : F

-- what `_kinds` holds for a pair of nodes
abbrev pub Label : Type 0 → Type 0
Label F = EdgeKind × Option Text × F

pub record Graph (F : Type 0) : Type 0 where
  pub raw : List (Raw F)
  pub nodes : List Text
  pub position : Dict Text ℕ
  pub out : Dict ℕ (List ℕ)
  pub into : Dict ℕ (List ℕ)
  pub kinds : Dict (ℕ × ℕ) (List (Label F))
  pub external : List ℕ

-- WEIGHT_SCALE
abbrev pub weight_scale : ℤ
weight_scale = pos 1000

-- the value of an EdgeKind
abbrev pub kind_value : EdgeKind → Text
kind_value relation = text "relation"
kind_value evidence = text "evidence"
kind_value uses = text "uses"
kind_value derived_from = text "derived_from"
kind_value supersedes = text "supersedes"

-- predicate or ""
abbrev pub or_empty : Option Text → Text
or_empty none = []
or_empty (some p) = p

-- adjacency[node] = sorted(set(adjacency[node])), for each node
abbrev pub sort_adjacency : Dict ℕ (List ℕ) → Dict ℕ (List ℕ)
sort_adjacency = map (λ (e : ℕ × List ℕ). (e.0, sort leb (set_of e.1)))

module _ {F : Type 0} where
  unfoldable pub reset : Graph F
  reset = record {
    raw = [];
    nodes = [];
    position = [];
    out = [];
    into = [];
    kinds = [];
    external = [];
  }

  -- one edge, in the loop that compiles the adjacency
  unfoldable pub connect : Raw F → Graph F → Graph F
  connect e g = elim (lookup g.position e.source) [
    | none ↦ g
    | some tail ↦ elim (lookup g.position e.target) [
      | none ↦ g
      | some head ↦ record g {
        out = update g.out tail [] (λ heads. heads ++ head ∷ []);
        into = update g.into head [] (λ tails. tails ++ tail ∷ []);
        kinds =
            update g.kinds (tail, head) []
              (λ labels. labels ++ (e.kind, e.predicate, e.weight) ∷ []);
      }
    ]
  ]

  -- the set of the sources, and of the targets, after that of the members
  abbrev pub mentioned : List Text → List (Raw F) → List Text
  mentioned members raw =
      union (union (set_of members) (map (λ (e : Raw F). e.source) raw))
        (map (λ (e : Raw F). e.target) raw)

  module _ (floats : Floats F) where
    abbrev pub quantize : F → F
    quantize weight =
        floats.div (floats.of_int (floats.round (floats.mul weight (floats.of_int weight_scale))))
          (floats.of_int weight_scale)

    -- `_apply`
    unfoldable pub apply : Projection F → Graph F → Graph F
    apply projection g = record g {
      raw =
          g.raw
          ++ map
              (λ (e : Edge F). record {
                source = projection.block_id;
                target = e.target;
                kind = e.kind;
                predicate = e.predicate;
                weight = quantize e.weight;
              })
              projection.edges;
    }

    -- the order of (kind, predicate or "", weight)
    abbrev pub le_label : Label F → Label F → Bool
    le_label (k, p, w) (k', p', w') =
        if not (le_text (kind_value k') (kind_value k))
        then true
        else if not (le_text (kind_value k) (kind_value k'))
        then false
        else if not (le_text (or_empty p') (or_empty p))
        then true
        else if not (le_text (or_empty p) (or_empty p'))
        then false
        else floats.le w w'

    -- the numbering of the nodes, and the external ones
    abbrev pub number : OrdinalTable → Graph F → Graph F
    number table g =
        let nodes = sort le_text (mentioned table.identities g.raw) in
        let position = enumerate nodes in
        record g {
          nodes = nodes;
          position = position;
          external =
              filter_some (λ x. if contains table.identities x then none else lookup position x)
                nodes;
        }

    -- `_on_build_end`
    unfoldable pub finish : OrdinalTable → Graph F → Graph F
    unfolding connect
    finish table g =
        let linked = foldl (λ s e. connect e s) (number table g) g.raw in
        record linked {
          out = sort_adjacency linked.out;
          into = sort_adjacency linked.into;
          kinds = map (λ (e : (ℕ × ℕ) × List (Label F)). (e.0, sort le_label e.1)) linked.kinds;
        }

    abbrev pub graph : Kind (Projection F) (Graph F)
    graph = record {
      block_id = λ p. p.block_id;
      reset = reset;
      apply = λ _ p g. apply p g;
      finish = λ table g. finish table g;
    }

  -- whether an expansion follows an edge: a given list of kinds or predicates restricts it
  abbrev pub follows : TraversalQuery F → Label F → Bool
  follows query (kind, predicate, _) =
      (is_nil query.kinds || contains query.kinds kind)
      && (is_nil query.predicates
          || elim predicate [ none ↦ false | some p ↦ contains query.predicates p ])

  -- _kinds.get((neighbour, node) if inbound else (node, neighbour), ())
  abbrev pub labels_between : Graph F → Bool → ℕ → ℕ → List (Label F)
  labels_between g inbound node neighbour =
      get_or g.kinds (if inbound then (neighbour, node) else (node, neighbour)) []

  abbrev pub adjacent : Graph F → Bool → ℕ → List ℕ
  adjacent g inbound node = get_or (if inbound then g.into else g.out) node []

  -- the neighbours and weights of the two inner loops, in their order
  unfoldable pub steps_to : Graph F → TraversalQuery F → ℕ → List ℕ → List (ℕ × F)
  steps_to g query node [] = []
  steps_to g query node (neighbour ∷ rest) =
      map (λ (l : Label F). (neighbour, l.2))
        (filterb (follows query) (labels_between g query.inbound node neighbour))
      ++ steps_to g query node rest

  unfoldable pub steps : Graph F → TraversalQuery F → ℕ → List (ℕ × F)
  unfolding steps_to
  steps g query node = steps_to g query node (adjacent g query.inbound node)

-- a node that is pending: its number, score and depth
abbrev pub Entry : Type 0 → Type 0
Entry F = ℕ × F × ℕ

abbrev pub Best : Type 0 → Type 0
Best F = Dict ℕ (F × ℕ)

module _ {F : Type 0} (floats : Floats F) (decay : F) where
  abbrev pub hop : F → F → F
  hop score weight = floats.mul (floats.mul score weight) decay

  -- held is not None and held[0] >= reached
  abbrev pub dominated : Best F → ℕ → F → Bool
  dominated best node reached = elim (lookup best node) [
    | none ↦ false
    | some held ↦ floats.le reached held.0
  ]

  -- the two inner loops, at a node with a score and a depth
  unfoldable pub relax : F → ℕ → List (ℕ × F) → Best F → List (Entry F) → Best F × List (Entry F)
  relax score depth [] best pending = (best, pending)
  relax score depth ((node, weight) ∷ rest) best pending =
      let reached = hop score weight in
      let skipped = relax score depth rest best pending in
      let taken =
        relax score depth rest (insert best node (reached, suc depth))
          (pending ++ (node, reached, suc depth) ∷ []) in
      if dominated best node reached then skipped else taken

  -- the loop over the queue; none if the fuel has run out
  unfoldable pub explore :
      (ℕ → List (ℕ × F)) → ℕ → ℕ → ℕ → List (Entry F) → Best F → Option (Best F)
  unfolding relax
  explore from limit ceiling fuel [] best = some best
  explore from limit ceiling zero (x ∷ pending) best = none
  explore from limit ceiling (suc fuel) ((node, score, depth) ∷ pending) best =
      let (best', pending') = relax score depth (from node) best pending in
      let passed = explore from limit ceiling fuel pending best in
      let went = explore from limit ceiling fuel pending' best' in
      if leb ceiling (length best) then some best else if leb limit depth then passed else went

-- how often the loop can run for one entry, with so many hops left
abbrev pub budget : ℕ → ℕ → ℕ
budget k zero = 1
budget k (suc hops) = suc (k * budget k hops)

module _ {F : Type 0} where
  -- _nodes[node]; every position read is in range
  abbrev pub name_of : Graph F → ℕ → Text
  name_of g node = elim (get_elem? g.nodes node) [ none ↦ [] | some x ↦ x ]

  abbrev pub seeds_of : Graph F → TraversalQuery F → List ℕ
  seeds_of g query = filter_some (lookup g.position) query.seeds

  -- The most steps that any pending entry can lead to.
  abbrev pub fan : Graph F → TraversalQuery F → ℕ
  fan g query =
      foldl (λ n (e : ℕ × List ℕ). n + length (steps g query e.0)) 0
        (if query.inbound then g.into else g.out)

module _ {F : Type 0} (floats : Floats F) where
  -- (-score, identity), compared as tuples
  abbrev pub le_reached : Text × F × ℕ → Text × F × ℕ → Bool
  le_reached (a, s, _) (b, t, _) =
      if floats.le t s then (if floats.le s t then le_text a b else true) else false

  abbrev pub seed_entries : List ℕ → List (Entry F)
  seed_entries = map (λ node. (node, floats.one, 0))

  unfoldable pub reach : Graph F → TraversalQuery F → Option (Best F)
  unfolding explore steps
  reach g query =
      let seeds = seeds_of g query in
      explore floats query.decay (steps g query) query.depth query.max_nodes
        (length seeds * budget (fan g query) query.depth) (seed_entries seeds) []

  -- `expand`
  unfoldable pub expand : Graph F → TraversalQuery F → Option (List (Text × F × ℕ))
  unfolding reach
  expand g query = elim (reach g query) [
    | none ↦ none
    | some best ↦ some (
        sort le_reached (
          map (λ (e : ℕ × (F × ℕ)). (name_of g e.0, e.1.0, e.1.1))
            (filterb (λ (e : ℕ × (F × ℕ)). not (contains (seeds_of g query) e.0)) best)))
  ]

  -- `search`, over the blocks of this module
  unfoldable pub search : OrdinalTable → Graph F → TraversalQuery F → ℕ → Option (List (Text × F))
  unfolding expand
  search table g query limit = elim (expand g query) [
    | none ↦ none
    | some reached ↦ some (
        filter_some
          (λ (e : Text × F × ℕ). if Ordinals.holds table e.0 then some (e.0, e.1) else none)
          (take limit reached))
  ]

  -- `neighbours`
  unfoldable pub neighbours_of : Graph F → Bool → ℕ → List ℕ → List (Text × EdgeKind × Option Text)
  neighbours_of g inbound node [] = []
  neighbours_of g inbound node (neighbour ∷ rest) =
      map (λ (l : Label F). (name_of g neighbour, l.0, l.1))
        (labels_between g inbound node neighbour)
      ++ neighbours_of g inbound node rest

  unfoldable pub neighbours : Graph F → Text → Bool → List (Text × EdgeKind × Option Text)
  unfolding neighbours_of
  neighbours g identity inbound = elim (lookup g.position identity) [
    | none ↦ []
    | some node ↦ neighbours_of g inbound node (adjacent g inbound node)
  ]

  -- `external`
  unfoldable pub external_names : Graph F → List Text
  external_names g = sort le_text (map (name_of g) g.external)
