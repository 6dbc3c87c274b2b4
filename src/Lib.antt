-- ===== src/Lib.antt =====
-- Vitruvio keeps knowledge modules as sets of content-addressed blocks and answers queries over
-- them. Each module has indices that are built from its blocks, statistics that the indices
-- measure on the way, and a planner that turns a query into an arena of operators over the
-- indices and fuses their rankings.
--
-- Indices.Projection   packages/indices/src/vitruvio/indices/projection.py, the data
-- Indices.Ordinals     packages/indices/src/vitruvio/indices/base.py, OrdinalTable
-- Indices.Queries      packages/indices/src/vitruvio/indices/queries.py
-- Indices.Base         packages/indices/src/vitruvio/indices/base.py, VitruvioIndex
-- Indices.HashMap      packages/indices/src/vitruvio/indices/hash_map.py
-- Indices.BTree        packages/indices/src/vitruvio/indices/btree.py
-- Indices.Bitmap       packages/indices/src/vitruvio/indices/bitmap.py
-- Indices.Graph        packages/indices/src/vitruvio/indices/graph.py, GraphIndex
-- Planner.Ir           packages/planner/src/vitruvio/planner/ir.py
-- Planner.Fusion       packages/planner/src/vitruvio/planner/fusion.py
-- Planner.Intent       packages/planner/src/vitruvio/planner/intent.py
-- Planner.Templates    packages/planner/src/vitruvio/planner/templates.py
-- Planner.Choice       packages/planner/src/vitruvio/planner/planner.py, _run, and cost.py, admissible
-- Planner.Execute      packages/planner/src/vitruvio/planner/execute.py, Executor
-- Stats                packages/stats/src/vitruvio/stats/catalog.py
-- Stats.Merge          packages/stats/src/vitruvio/stats/fragment.py, merge
-- Runtime.Session      packages/runtime/src/vitruvio/runtime/session.py, BrainSession
-- Runtime.Tasks        packages/runtime/src/vitruvio/runtime/ops/tasks.py, TaskOps
--
-- An index kind is a record of hooks (Indices.Base.Kind): the state after `_reset`, `_apply` on
-- one projection, and `_on_build_end`. `build` folds `_apply` over the blocks. Text is a list of
-- code points, compared as Python compares it. A dict is an association list in insertion order,
-- a set is a list without repetition, and `sorted` is insertion sort, which is stable. Scores and
-- other floats are a parameter with the order that the code relies on; `fold`, which rests on
-- Unicode's tables, is a parameter of the lookup and of the filter. A loop that halves or consumes
-- a range runs on fuel, and each is given the length of the range, which its theorems show to be enough;
-- the digits of a number are counted on the number itself as fuel. The expansion of a graph runs on
-- the number of its seeds times what one entry of the queue can lead to within the depth, each node
-- having no more steps than the graph has in all.
--
-- A query is enumerated into candidate plans (Planner.Templates), which are built in the arena of
-- Planner.Ir by functions that pass it on, or give none where the code raises: Templates.Nodes has
-- the nodes of one scope, Templates.Assembly one plan, Templates.Enumeration the plans that are
-- costed. One is chosen by its
-- price (Planner.Choice) and run (Planner.Execute.Run): each node's generator adds hits to the
-- candidates of Planner.Fusion, and the fixed tail (Planner.Execute.Tail) ranks, hides, cuts and
-- verifies them. The SDK's modules, proofs and catalogue, and what the open indices answer, are
-- parameters there; a call of the SDK gives a value or an exception with its message, and what is
-- dropped is written to the list of degradations.
--
-- The session that all operations share is a record (Runtime.Session), each section of its code
-- that a lock guards is an operation on it, and Runtime.Session.Steps says how the sections of
-- several threads interleave, with the durable head and the calls under way. The head moves only
-- inside a write of the session, and inside one write never back to where a write under way began:
-- a head that leaves and returns would not be noticed by a comparison of its two readings. The
-- operations of Runtime.Tasks pass the brain on and give a result or what they raise; the brain's
-- own operations, which are the SDK's, the wire's parser and the proposers are parameters.
--
-- Not modelled: files and their envelopes, clocks, messages, the embedding and vector libraries, the
-- inverted index with its text analyser, the cost formulas over floats, the weights of the intent
-- profiles, the explanation of a plan, the federation of graphs, and the runtime's other
-- operations, which act on the SDK's stores.
pub mod Prelude
pub mod Indices
pub mod Planner
pub mod Stats
pub mod Runtime
