-- ===== src/Planner/TemplateTests.antt =====
-- packages/planner, templates.py: a query over one scope, and the theorems at it.
use vitruvio.Prelude.{
  ℕ, inl, inr, some, arith, refl, List, [], ◌∷◌, none, Bool, true, false, In, Text, text_eq,
  ℕ_discrete, text_discrete, Eq, ◌≡◌, ◌↔◌, ◌⊎◌,
}
use vitruvio.Planner.Ir.{Node, Plan, Op, Op-discrete, term_scan, vector_search, date_scan, seq_scan}
use vitruvio.Planner.Intent.{Asking, classify, RetrievalMode, IntentKind}
use vitruvio.Planner.Templates.{Value, Request, IndexKind, inverted, vector}
use vitruvio.Planner.Templates.Enumeration.{
  available, date_scans, permitted_for, generator_sets, build_templates,
}
use vitruvio.Planner.Templates.Subsets.{IsOffered, generator_sets_exact}
use vitruvio.Planner.Templates.Navigational.{IsTextless, generators-IsTextless}
use vitruvio.Planner.Templates.Plans.{IsValid, build_templates-IsValid}

unfoldable Value-discrete : Discrete (Value ℕ)
Value-discrete = hlevel (ℕ_discrete, text_discrete)

unfoldable Node-discrete : Discrete (Node (Value ℕ))
Node-discrete = hlevel (ℕ_discrete, text_discrete, Op-discrete, Value-discrete)

instance abbrev node_eq : Eq (Node (Value ℕ))
node_eq = record { dec = Node-discrete }

abbrev has_index : Text → IndexKind → Bool
has_index scope inverted = true
has_index scope vector = true
has_index scope _ = false

abbrev request : Request ℕ
request = record {
  query = record {
    query_text = 97 ∷ [];
    filters = record {
      subject = none;
      tags = [];
      since = none;
      until = none;
      classes = [];
      evidence = [];
      include_superseded = false;
    };
    limit = 5;
  };
  mode = RetrievalMode.auto;
  expand_depth = 0;
  kind = IntentKind.lexical;
  scopes = (98 ∷ []) ∷ [];
  has = has_index;
  statistics = λ _. none;
  config = record { overfetch = 4; brute_threshold = 2048; rrf_k = 60; graph_expand_max = 3 };
  value = λ _. [];
  hundredths = λ n. n;
}

-- a stand-in for the hash of a plan: its root
abbrev signature : Plan (Value ℕ) → Text
signature plan = plan.root ∷ []

-- a query that asks for an expansion of two hops
abbrev expanding : Request ℕ
expanding = record request { expand_depth = 2; has = λ _ _. true }

build_templates-IsValid_example :
    (plans : List (Plan (Value ℕ))) × (build_templates expanding signature ≡ some plans)
    × ((plan : Plan (Value ℕ)) × In plan plans)
    × ((plan : Plan (Value ℕ)) → In plan plans → IsValid expanding plan)
build_templates-IsValid_example =
    build_templates-IsValid expanding signature (inr (inl (omega arith)))

abbrev both : List Op
both = term_scan ∷ vector_search ∷ []

generator_sets_exact_example : In both (generator_sets request none []) ↔ (
    ((date_scans request ≡ true) × (both ≡ date_scan ∷ []))
    ⊎ ((date_scans request ≡ false)
        × (IsOffered request (available request none) [] both
            ⊎ (((other : List Op) → ¬ IsOffered request (available request none) [] other)
                × (both ≡ seq_scan ∷ [])))))
generator_sets_exact_example = generator_sets_exact request none [] both

-- filters with no text
abbrev asking : Asking
asking = record {
  stripped = [];
  tokens = [];
  mode = RetrievalMode.auto;
  has_filters = true;
  expand_depth = 0;
  unseen = false;
  known_predicates = [];
}

abbrev blank_request : Request ℕ
blank_request = record request { kind = IntentKind.navigational }

generators-IsTextless_example : IsTextless blank_request seq_scan
unfolding classify generator_sets ℕ_discrete permitted_for Op-discrete
generators-IsTextless_example =
    generators-IsTextless blank_request asking (seq_scan ∷ []) seq_scan refl refl refl refl
      (inl refl) (inl refl)
