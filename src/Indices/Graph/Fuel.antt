-- ===== src/Indices/Graph/Fuel.antt =====
-- graph.py, `expand`: how often the loop over the queue runs.
use vitruvio.Prelude.{
  ℕ, zero, suc, ◌+◌, ◌-◌, ◌*◌, ◌≤◌, ◌<◌, leb, if◌then◌else◌, List, [], ◌∷◌, ◌++◌, none, some, foldl,
  length, nat_eq, ℕ_discrete, Dict, lookup, insert, ◌≡◌, ◌≢◌, inl, inr, refl, arith, Bool-cases,
  Option-cases,
}
use vitruvio.Indices.Queries.{TraversalQuery}
use vitruvio.Indices.Graph.{
  Floats, Graph, Entry, Best, hop, dominated, relax, explore, budget, fan, steps, steps_to,
  seed_entries, seeds_of, reach,
}

budget-pos : (k hops : ℕ) → 0 < budget k hops
budget-pos k zero = omega arith
budget-pos k (suc hops) = omega arith

-- One round at a depth within the limit pays for the entries that it adds.
paid :
    (k limit d m : ℕ)
    → d < limit
    → m ≤ k
    → suc (m * budget k (limit - suc d)) ≤ budget k (limit - d)
paid k limit d m l b =
    let spare : limit - d ≡ suc (limit - suc d) = omega arith in
    rw spare (ground (arith, le_mul m k (budget k (limit - suc d)) b))
  where
    le_mul : (m k x : ℕ) → m ≤ k → m * x ≤ k * x
    le_mul m k x h = grind arith

module _ {F : Type 0} (k limit : ℕ) where
  -- How often the loop can still run for the entries of the queue.
  abbrev debt : List (Entry F) → ℕ
  debt [] = 0
  debt (x ∷ xs) = budget k (limit - x.2) + debt xs

  debt-append : (xs ys : List (Entry F)) → debt (xs ++ ys) ≡ debt xs + debt ys
  debt-append [] ys = omega arith
  debt-append (x ∷ xs) ys = ground (arith, debt-append xs ys)

  debt-seed_entries :
      (floats : Floats F) (ns : List ℕ) → debt (seed_entries floats ns) ≡ length ns * budget k limit
  debt-seed_entries floats [] = omega arith
  debt-seed_entries floats (n ∷ ns) = ground (arith, debt-seed_entries floats ns)

  module _ (floats : Floats F) (decay : F) where
    debt-relax :
        (score : F) (d : ℕ) (steps : List (ℕ × F)) (best : Best F) (pending : List (Entry F))
        → debt (relax floats decay score d steps best pending).1
          ≤ debt pending + length steps * budget k (limit - suc d)
    unfolding relax
    debt-relax score d [] best pending = omega arith
    debt-relax score d ((u, w) ∷ rest) best pending =
        elim (Bool-cases (dominated floats decay best u r)) [
          | inl e ↦ rw e (ground (arith, debt-relax score d rest best pending))
          | inr e ↦
              let ih =
                debt-relax score d rest (insert best u (r, suc d))
                  (pending ++ (u, r, suc d) ∷ []) in
              rw e (ground (arith, ih, debt-append pending ((u, r, suc d) ∷ [])))
        ]
      where
        r : F
        r = hop floats decay score w

    explore-returns :
        (from : ℕ → List (ℕ × F))
        → ((n : ℕ) → length (from n) ≤ k)
        → (ceiling fuel : ℕ) (pending : List (Entry F)) (best : Best F) → debt pending ≤ fuel
        → explore floats decay from limit ceiling fuel pending best ≢ none
    unfolding explore
    explore-returns from fits ceiling fuel [] best h e = ground arith
    explore-returns from fits ceiling zero (x ∷ pending) best h e =
        absurd (ground (arith, budget-pos k (limit - x.2)))
    explore-returns from fits ceiling (suc fuel) ((n, s, d) ∷ pending) best h e =
        elim (Bool-cases (leb ceiling (length best))) [
          | inl c ↦ ground arith
          | inr c ↦ elim (Bool-cases (leb limit d)) [
            | inl l ↦
                explore-returns from fits ceiling fuel pending best
                  (ground (arith, budget-pos k (limit - d))) (ground arith)
            | inr l ↦
                explore-returns from fits ceiling fuel
                  (relax floats decay s d (from n) best pending).1
                  (relax floats decay s d (from n) best pending).0
                  (ground (
                    arith,
                    paid k limit d (length (from n)) (ground arith) (fits n),
                    debt-relax s d (from n) best pending,
                  ))
                  (ground arith)
          ]
        ]

module _ {F : Type 0} (floats : Floats F) (g : Graph F) (query : TraversalQuery F) where
  abbrev total_from : ℕ → Dict ℕ (List ℕ) → ℕ
  total_from n [] = n
  total_from n (e ∷ es) = total_from (n + length (steps g query e.0)) es

  fan-total :
      (n : ℕ) (es : Dict ℕ (List ℕ))
      → foldl (λ n (e : ℕ × List ℕ). n + length (steps g query e.0)) n es ≡ total_from n es
  fan-total n [] = refl
  fan-total n (e ∷ es) = fan-total (n + length (steps g query e.0)) es

  total-le : (n : ℕ) (es : Dict ℕ (List ℕ)) → n ≤ total_from n es
  total-le n [] = omega arith
  total-le n (e ∷ es) = ground (arith, total-le (n + length (steps g query e.0)) es)

  total-fits :
      (n : ℕ) (es : Dict ℕ (List ℕ)) (v : ℕ) (x : List ℕ)
      → lookup es v ≡ some x
      → length (steps g query v) ≤ total_from n es
  unfolding lookup
  total-fits n [] v x h = absurd (ground arith)
  total-fits n ((u, y) ∷ es) v x h = elim (ℕ_discrete u v) [
    | yes p ↦ ground (arith, total-le (n + length (steps g query u)) es)
    | no p ↦ total-fits (n + length (steps g query u)) es v x (ground arith)
  ]

  fan-fits : (n : ℕ) → length (steps g query n) ≤ fan g query
  unfolding steps steps_to
  fan-fits n = elim (Option-cases (lookup (if query.inbound then g.into else g.out) n)) [
    | inl h ↦ ground arith
    | inr (x, h) ↦ ground (
      arith,
      fan-total 0 (if query.inbound then g.into else g.out),
      total-fits 0 (if query.inbound then g.into else g.out) n x h,
    )
  ]

  pub reach-returns : reach floats g query ≢ none
  unfolding reach
  reach-returns =
      explore-returns (fan g query) query.depth floats query.decay (steps g query) fan-fits
        query.max_nodes (length (seeds_of g query) * budget (fan g query) query.depth)
        (seed_entries floats (seeds_of g query)) []
        (ground (arith, debt-seed_entries (fan g query) query.depth floats (seeds_of g query)))
