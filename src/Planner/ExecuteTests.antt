-- ===== src/Planner/ExecuteTests.antt =====
-- packages/planner, execute.py: one module with one block, and the theorems at it.
use vitruvio.Prelude.{
  ℕ, ◌*◌, [], ◌∷◌, none, some, true, false, In, filter_some, take, Text, text_eq, Dict, lookup,
  insert, sort, contains, text_discrete, ℕ_discrete, ◌≡◌, ◌↔◌, ◌⊎◌, inl, inr, refl,
}
use vitruvio.Planner.Ir.{Node, Op-discrete, is_generator, seq_scan}
use vitruvio.Planner.Fusion.{Candidate, fresh, fuse, normalize}
use vitruvio.Planner.Execute.{
  returned, raised, Filters, Content, Sdk, Executor, Match, matches_filters,
}
use vitruvio.Planner.Execute.Tail.{scored, verify, finalize, matches_block, matches_catalog}
use vitruvio.Planner.Execute.Filtering.{Asked, matches_block_exact}
use vitruvio.Planner.Execute.Verification.{FirstHolder, IsAnswer, verify_exact}
use vitruvio.Planner.Execute.Records.{IsWritten, IsUnheld, IsFiltered, verify_recorded}
use vitruvio.Planner.Execute.Bundles.{limit, answered}
use vitruvio.Planner.Execute.Refinement.{Refines, finalize_exact}
use vitruvio.Planner.Execute.Run.{Indices, all_candidates, generate, masked, run_nodes, run}
use vitruvio.Planner.Execute.Completeness.{IsWanted, Ran, reached, run_complete, run-Refines}
use vitruvio.Planner.Tests.{numbers}

abbrev a : Text
a = 97 ∷ []

abbrev b : Text
b = 98 ∷ []

abbrev filters : Filters
filters = record {
  subject = some b;
  tags = b ∷ [];
  since = none;
  until = none;
  classes = [];
  evidence = [];
  include_superseded = false;
}

abbrev content : Content
content = record { subject = some b; tags = a ∷ b ∷ []; occurred_at = none; evidence = [] }

abbrev executor : Executor ℕ Unit
executor = record {
  modules = (b, tt) ∷ [];
  query = record { query_text = a; filters = filters; limit = 1 };
  weights = [];
  rrf_k = 60;
  decay = 1;
  ledger = record { is_accessible = λ _. true; superseded_by = []; locators = [] };
}

abbrev sdk : Sdk Unit Content
sdk = record {
  members = λ _. a ∷ [];
  root = λ _. [];
  proves = λ _ _. returned true;
  is_resolvable = λ _ _. true;
  get = λ _ _. returned content;
  payload = λ c. c;
  evidence_sources = λ _ _. [];
  sources_for = λ _. [];
}

-- a module whose proofs fail
abbrev broken : Sdk Unit Content
broken = record sdk { proves = λ _ _. raised b }

abbrev indices : Indices ℕ Unit Unit
indices = record {
  exact = λ _. [];
  sequential = λ _. (a, 1) ∷ [];
  dated = λ _. none;
  occurred_at = λ _ _. none;
  lexical = λ _ _. ([], true);
  semantic = λ _ _ _ _. none;
  expand = λ _ _ _. none;
  mask = λ _. none;
  number = λ _. 0;
}

abbrev scan_node : Node Unit
scan_node = record { op = seq_scan; scope = some b; params = []; inputs = []; index = none }

abbrev candidates : Dict Text (Candidate ℕ)
candidates = (a, fresh a) ∷ []

matches_block_exact_example :
    (matches_block sdk executor a content ≡ true) ↔ Asked sdk executor a content
matches_block_exact_example = matches_block_exact sdk executor a content

abbrev expected_match : Match ℕ
expected_match = record {
  block_id = a;
  memory_type = b;
  content = content;
  score = 7;
  sources = [];
  verified = true;
  resolvable = true;
  superseded_by = none;
}

verify_exact_example :
    ((verify sdk executor executor.modules (fresh a) 7 []).0 ≡ some expected_match) ↔ (
      (memory_type : Text) × (m : Unit) × FirstHolder sdk executor executor.modules a memory_type m
      × IsAnswer sdk executor memory_type m (fresh a) 7 expected_match)
verify_exact_example = verify_exact sdk executor executor.modules (fresh a) 7 [] expected_match

verify_recorded_example :
    IsWritten broken executor a [] (verify broken executor executor.modules (fresh a) 7 []).1
    ⊎ (((verify broken executor executor.modules (fresh a) 7 []).1 ≡ [])
        × (IsUnheld broken executor executor.modules a
            ⊎ ((memory_type : Text) × (m : Unit) × FirstHolder broken executor executor.modules a
                  memory_type m
                × IsFiltered broken executor m a)))
unfolding verify contains text_discrete ℕ_discrete
verify_recorded_example = verify_recorded broken executor executor.modules (fresh a) 7 [] refl

finalize_exact_example :
    ((finalize sdk executor numbers {V = Unit} [] candidates [] true []).0.matches
      ≡ take (limit sdk executor) (
          filter_some (answered sdk executor) (
            normalize numbers (
              take
                (limit sdk executor * 2)
                (scored sdk executor numbers {V = Unit} [] candidates)))))
    × (((finalize sdk executor numbers {V = Unit} [] candidates [] true []).0.truncated ≡ true)
        ⊎ ((true ≡ true)
            × ((finalize sdk executor numbers {V = Unit} [] candidates [] true []).0.matches
                ≡ filter_some
                    (answered sdk executor)
                    (normalize numbers (scored sdk executor numbers {V = Unit} [] candidates)))))
finalize_exact_example = finalize_exact sdk executor numbers {V = Unit} [] candidates [] true []

run-Refines_example :
    Refines sdk executor
      (all_candidates sdk executor numbers indices
        (reached sdk executor numbers indices (scan_node ∷ [])))
      (reached sdk executor numbers indices (scan_node ∷ [])).exhausted
      (run sdk executor numbers indices (scan_node ∷ [])).0
run-Refines_example = run-Refines sdk executor numbers indices (scan_node ∷ [])

scan_node-Ran : Ran sdk executor numbers indices scan_node b tt
unfolding lookup text_discrete ℕ_discrete is_generator
scan_node-Ran = record { scoped = refl; generates = refl; installed = refl }

content-Asked : Asked sdk executor a content
unfolding matches_filters text_discrete ℕ_discrete contains matches_catalog
content-Asked = (matches_block_exact sdk executor a content).0 refl

a-IsWanted : IsWanted sdk executor numbers indices a b tt content
a-IsWanted = (inr refl, inl (inl refl, refl, refl), refl, refl, refl, content-Asked)

run_complete_example :
    (shown : Match ℕ) × In shown (run sdk executor numbers indices (scan_node ∷ [])).0.matches
    × (shown.block_id ≡ a)
unfolding Op-discrete masked generate lookup run_nodes run finalize contains ℕ_discrete fuse sort
    text_discrete insert normalize
run_complete_example =
    run_complete sdk executor numbers indices [] [] scan_node b tt a b tt content scan_node-Ran
      (inl refl) a-IsWanted refl
