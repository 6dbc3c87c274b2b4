-- ===== src/Indices/Graph/Stored.antt =====
-- graph.py, `_dump_state` and `_load_body`: the edges as they are kept on disk. The nodes of the
-- body are not read back, and its identities are those of the base class.
use vitruvio.Prelude.{
  ℤ, leb_ℤ, if◌then◌else◌, not, List, map, sort, Option, Text, le_text, Bool, true, false,
}
use vitruvio.Indices.Projection.{EdgeKind}
use vitruvio.Indices.Ordinals
use vitruvio.Indices.Graph.{Floats, Raw, Graph, reset, finish, kind_value, or_empty, weight_scale}

-- an edge of the body, with its weight in thousandths
pub record Stored : Type 0 where
  pub source : Text
  pub target : Text
  pub kind : EdgeKind
  pub predicate : Option Text
  pub thousandths : ℤ

-- a before b, and by the rest if they are equal
abbrev pub then_by : Text → Text → Bool → Bool
then_by a b rest = if not (le_text b a) then true else if not (le_text a b) then false else rest

-- the order of (source, target, kind, predicate or "", weight)
abbrev pub le_stored : Stored → Stored → Bool
le_stored x y = then_by x.source y.source (
    then_by x.target y.target (
      then_by (kind_value x.kind) (kind_value y.kind) (
        then_by (or_empty x.predicate) (or_empty y.predicate) (leb_ℤ x.thousandths y.thousandths))))

module _ {F : Type 0} (floats : Floats F) where
  abbrev pub store : Raw F → Stored
  store e = record {
    source = e.source;
    target = e.target;
    kind = e.kind;
    predicate = e.predicate;
    thousandths = floats.round (floats.mul e.weight (floats.of_int weight_scale));
  }

  abbrev pub restore : Stored → Raw F
  restore s = record {
    source = s.source;
    target = s.target;
    kind = s.kind;
    predicate = s.predicate;
    weight = floats.div (floats.of_int s.thousandths) (floats.of_int weight_scale);
  }

  -- `_dump_state`, the edges
  unfoldable pub dump : Graph F → List Stored
  dump g = sort le_stored (map store g.raw)

  -- `_load_body`
  unfoldable pub load : List Text → List Stored → Graph F
  load identities edges =
      finish floats (Ordinals.init identities) (record reset { raw = map restore edges })
