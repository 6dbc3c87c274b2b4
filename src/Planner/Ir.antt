-- ===== src/Planner/Ir.antt =====
-- ir.py: the operator algebra, and a plan as an arena of interned nodes.
pub mod Arena
use vitruvio.Prelude.{
  ℕ, suc, ◌+◌, ◌-◌, if◌then◌else◌, List, [], ◌∷◌, ◌++◌, Option, none, some, Bool, true, false, map,
  foldl, length, get_elem?, filterb, filter_some, is_nil, sort, Text, le_text, text_eq, nat_eq, Eq,
  Dict, lookup, insert, contains, add, update, In, ◌||◌, range_from,
}

pub data Output : Type 0 where
  mask rows bundle : Output

pub data Op : Type 0 where
  seq_scan exact_lookup range_scan date_scan term_scan vector_search brute_vector bitmap_filter : Op
  mask_apply residual graph_expand fuse top_k merge_modules accessibility resolve verify : Op
  bundle empty : Op

unfoldable pub Op-discrete : Discrete Op
Op-discrete = hlevel

instance abbrev pub op_eq : Eq Op
op_eq = record { dec = Op-discrete }

unfoldable pub is_generator : Op → Bool
is_generator term_scan = true
is_generator vector_search = true
is_generator brute_vector = true
is_generator graph_expand = true
is_generator seq_scan = true
is_generator date_scan = true
is_generator _ = false

unfoldable pub output : Op → Output
output Op.bundle = Output.bundle
output bitmap_filter = mask
output range_scan = mask
output _ = rows

-- V is the type of parameter values, with the equality and the order of pairs that Python has.
pub record Node (V : Type 0) : Type 0 where
  pub op : Op
  pub scope : Option Text
  pub params : List (Text × V)
  pub inputs : List ℕ
  pub index : Option Text

pub record Plan (V : Type 0) : Type 0 where
  pub nodes : List (Node V)
  pub root : ℕ

-- `_nodes` and `_interned`
pub record PlanBuilder (V : Type 0) : Type 0 where
  pub nodes : List (Node V)
  pub interned : Dict (Node V) ℕ

module _ {V : Type 0} where
  unfoldable pub init : PlanBuilder V
  init = record { nodes = []; interned = [] }

  module _ ⦃e : Eq (Node V)⦄ where
    -- `add`, once the node is made: the id that an identical node has, or the next one
    unfoldable pub intern : PlanBuilder V → Node V → PlanBuilder V × ℕ
    intern b node = elim (lookup b.interned node) [
      | some id ↦ (b, id)
      | none ↦ (
        record { nodes = b.nodes ++ node ∷ []; interned = insert b.interned node (length b.nodes) },
        length b.nodes,
      )
    ]

    module _ (le_param : Text × V → Text × V → Bool) where
      -- `add`, with the parameters in order
      unfoldable pub add_node :
          PlanBuilder V
          → Op
          → Option Text
          → List ℕ
          → Option Text
          → List (Text × V)
          → PlanBuilder V × ℕ
      unfolding intern
      add_node b op scope inputs index params = intern b (record {
        op = op;
        scope = scope;
        params = sort le_param params;
        inputs = inputs;
        index = index;
      })

  abbrev pub finish : PlanBuilder V → ℕ → Plan V
  finish b root = record { nodes = b.nodes; root = root }

  -- the positions of the nodes with a property
  unfoldable pub positions : (Node V → Bool) → ℕ → List (Node V) → List ℕ
  positions test i [] = []
  positions test i (node ∷ rest) =
      let later = positions test (suc i) rest in if test node then i ∷ later else later

  unfoldable pub generators : Plan V → List ℕ
  unfolding positions is_generator
  generators plan = positions (λ node. is_generator node.op) 0 plan.nodes

  unfoldable pub dependents : Plan V → ℕ → List ℕ
  unfolding positions
  dependents plan id = positions (λ node. contains node.inputs id) 0 plan.nodes

  -- the dictionary of `indices_consulted`, before it is sorted
  unfoldable pub consulted : List (Node V) → Dict Text (List Text) → Dict Text (List Text)
  consulted [] d = d
  consulted (node ∷ rest) d = consulted rest (elim node.index [
    | none ↦ d
    | some index ↦ elim node.scope [
      | none ↦ d
      | some scope ↦
          if is_nil index || is_nil scope then d else update d scope [] (λ kinds. add kinds index)
    ]
  ])

  abbrev pub rescope : Node V → Text → Node V
  rescope node scope = record node { scope = some scope }

  unfoldable pub parameters_of : Plan V → Op → List (List (Text × V))
  parameters_of plan op =
      filter_some
        (λ (node : Node V). elim (Op-discrete node.op op) [
          | yes _ ↦ some node.params
          | no _ ↦ none
        ])
        plan.nodes
