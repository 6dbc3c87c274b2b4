-- ===== src/Indices/GraphTests.antt =====
-- graph.py: a small graph whose scores are thousandths, and the theorems at it.
use native.Mathlib.Nat.{le-div_iff_mul-le, div-mul-le_self}
use vitruvio.Prelude.{
  ℕ, ℤ, pos, negsuc, magnitude, leb_ℤ, Bool, not, if◌then◌else◌, ◌==◌, ◌-◌, nat_eq, ◌+◌, ◌*◌, ◌/◌,
  ◌≤◌, ◌<◌, leb, List, [], ◌∷◌, none, some, true, false, Text, le_text, lookup, insert, sort,
  enumerate, union, In, text_discrete, ℕ_discrete, ◌≡◌, ◌↔◌, refl, subst, sym, inl, inr, arith,
}
use vitruvio.Indices.Projection.{Edge, Projection, relation, evidence}
use vitruvio.Indices.Ordinals.{OrdinalTable, init}
use vitruvio.Indices.Base.{rebuild}
use vitruvio.Indices.Queries.{TraversalQuery}
use vitruvio.Indices.Graph.{
  Floats, Graph, graph, weight_scale, Raw, Best, apply, reset, finish, steps, expand, reach,
  follows, pair_discrete,
}
use vitruvio.Indices.Graph.Walks.{IsScoring}
use vitruvio.Indices.Graph.Expansion.{expand-returns, expand-Exact, Exact}
use vitruvio.Indices.Graph.Stored.{load, dump}
use vitruvio.Indices.Graph.Restored.{load-dump, IsExact, IsWithin}
use vitruvio.Indices.Graph.Compiled.{steps-finish, Leads}

abbrev thousandths : Floats ℕ
thousandths = record {
  zero = 0;
  one = 1000;
  of_int = λ n. magnitude n * 1000;
  mul = λ a b. a * b / 1000;
  div = λ a b. a * 1000 / b;
  round = λ a. pos ((a + 500) / 1000);
  le = leb;
}

div_mono : (x y k : ℕ) → 0 < k → x ≤ y → x / k ≤ y / k
div_mono x y k large h = (le-div_iff_mul-le large).1 (ground (arith, div-mul-le_self x k))

mul_mono : (x y w : ℕ) → x ≤ y → x * w / 1000 ≤ y * w / 1000
mul_mono x y w h = div_mono (x * w) (y * w) 1000 (omega arith) (grind arith)

abbrev a : Text
a = 97 ∷ []

abbrev b : Text
b = 98 ∷ []

abbrev c : Text
c = 99 ∷ []

-- a uses b and c, b has a better path to c
abbrev of_a : Projection ℕ
of_a = record {
  block_id = a;
  facets = [];
  keys = [];
  identities = [];
  edges =
      record { target = b; kind = relation; predicate = some c; weight = 1000 }
      ∷ record { target = c; kind = evidence; predicate = none; weight = 300 }
      ∷ [];
  size = 0;
}

abbrev of_b : Projection ℕ
of_b = record {
  block_id = b;
  facets = [];
  keys = [];
  identities = [];
  edges = record { target = c; kind = relation; predicate = none; weight = 1000 } ∷ [];
  size = 0;
}

abbrev held : OrdinalTable
held = record { identities = a ∷ b ∷ []; ordinals = (a, 0) ∷ (b, 1) ∷ [] }

abbrev collected : Graph ℕ
collected = apply thousandths of_b (apply thousandths of_a reset)

abbrev compiled : Graph ℕ
compiled = finish thousandths held collected

abbrev query : TraversalQuery ℕ
query = record {
  seeds = a ∷ [];
  depth = 2;
  kinds = [];
  predicates = [];
  inbound = false;
  decay = 500;
  max_nodes = 10;
}

expanded : expand thousandths compiled query ≡ some ((b, 500, 1) ∷ (c, 250, 2) ∷ [])
unfolding expand lookup finish apply reset enumerate sort union text_discrete ℕ_discrete le_text
    insert pair_discrete
expanded = refl

scoring : IsScoring thousandths 500 (steps compiled query)
scoring = record {
  total = λ x y h. ground arith;
  trans = λ x y z g h. ground arith;
  mono = λ n m w x y i h.
      let weighed : x * w / 1000 ≤ y * w / 1000 = mul_mono x y w (ground arith) in
      let decayed = mul_mono (x * w / 1000) (y * w / 1000) 500 weighed in ground (arith, decayed);
}

expand-returns_example :
    (reached : List (Text × ℕ × ℕ)) × (expand thousandths compiled query ≡ some reached)
expand-returns_example = expand-returns thousandths compiled query

abbrev best : Best ℕ
best = (1, (500, 1)) ∷ (2, (250, 2)) ∷ []

reached_best : reach thousandths compiled query ≡ some best
unfolding reach lookup finish apply reset enumerate sort union text_discrete ℕ_discrete le_text
    insert pair_discrete
reached_best = refl

expand-Exact_example : Exact thousandths compiled query ((b, 500, 1) ∷ (c, 250, 2) ∷ [])
expand-Exact_example =
    expand-Exact thousandths compiled query best ((b, 500, 1) ∷ (c, 250, 2) ∷ []) scoring
      reached_best (omega arith) expanded

steps-finish_example : ◌↔◌ (In {A = ℕ × ℕ} (1, 1000) (steps compiled query 0)) (
    (e : Raw ℕ) × Leads thousandths held collected false 0 1 e
    × (follows query (e.kind, e.predicate, e.weight) ≡ true)
    × (1000 ≡ e.weight))
unfolding apply reset
steps-finish_example =
    steps-finish thousandths held collected query 0 1 1000
      (record { out = refl; into = refl; kinds = refl })

-- thousandths with a sign
abbrev with_sign : Bool → ℕ → ℤ
with_sign true n = if n == 0 then pos 0 else negsuc (n - 1)
with_sign false n = pos n

abbrev below_zero : ℤ → Bool
below_zero (pos n) = false
below_zero (negsuc n) = true

abbrev unlike : Bool → Bool → Bool
unlike x y = if x then not y else y

abbrev signed : Floats ℤ
signed = record {
  zero = pos 0;
  one = pos 1000;
  of_int = λ n. with_sign (below_zero n) (magnitude n * 1000);
  mul = λ x y. with_sign (unlike (below_zero x) (below_zero y)) (magnitude x * magnitude y / 1000);
  div = λ x y. with_sign (unlike (below_zero x) (below_zero y)) (magnitude x * 1000 / magnitude y);
  round = λ x. with_sign (below_zero x) ((magnitude x + 500) / 1000);
  le = leb_ℤ;
}

-- a relates to b, and against c
abbrev opposed : Projection ℤ
opposed = record {
  block_id = a;
  facets = [];
  keys = [];
  identities = [];
  edges =
      record { target = b; kind = relation; predicate = none; weight = pos 900 }
      ∷ record { target = c; kind = relation; predicate = none; weight = negsuc 299 }
      ∷ [];
  size = 0;
}

exact : IsExact signed 900
exact (pos n) h = ground arith
exact (negsuc n) h = ground arith

abbrev Bounded : Edge ℤ → Type 0
Bounded x = magnitude (signed.round (signed.mul x.weight (signed.of_int weight_scale))) ≤ 900

opposed-Bounded : (e : Edge ℤ) → In e opposed.edges → Bounded e
opposed-Bounded e (inl r) = subst Bounded (sym r) (omega arith)
opposed-Bounded e (inr (inl r)) = subst Bounded (sym r) (omega arith)
opposed-Bounded e (inr (inr z)) = absurd z

within : IsWithin signed 900 (opposed ∷ [])
within p e (inl q) k = opposed-Bounded e (subst (λ (x : Projection ℤ). In e x.edges) q k)
within p e (inr z) k = absurd z

abbrev signed_query : TraversalQuery ℤ
signed_query = record {
  seeds = a ∷ [];
  depth = 2;
  kinds = [];
  predicates = [];
  inbound = false;
  decay = pos 500;
  max_nodes = 10;
}

load-dump_example :
    let built = rebuild (graph signed) (init (a ∷ b ∷ [])) (opposed ∷ []) in
    ◌↔◌
      (In {A = ℕ × ℤ}
        (2, negsuc 299)
        (steps (load signed (init (a ∷ b ∷ [])).identities (dump signed built)) signed_query 0))
      (In {A = ℕ × ℤ} (2, negsuc 299) (steps built signed_query 0))
load-dump_example =
    load-dump signed 900 (a ∷ b ∷ []) (opposed ∷ []) signed_query 0 2 (negsuc 299) exact within
