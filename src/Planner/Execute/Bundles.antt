-- ===== src/Planner/Execute/Bundles.antt =====
-- execute.py, `_finalize`: the bundle is what verification answers, in fused order, up to the limit.
use vitruvio.Prelude.{
  ℕ, suc, ◌-◌, ◌≤◌, max, leb, if◌then◌else◌, List, [], ◌∷◌, ◌++◌, Option, some, Bool, true, false,
  filterb, filter_some, length, length-append, take, take_of_length-le, In, In-sort, In-map_of,
  In-map_inv, In-filterb, Bool-cases, Option-cases, contains, contains_iff, Text, text_eq, Dict,
  values, ◌≡◌, ◌↔◌, ◌⊎◌, inl, inr, refl, ap, sym, subst, ◌∙◌, arith,
}
use mathlib.Core.List.{append-nil, append_assoc}
use vitruvio.Planner.Ir.{Node}
use vitruvio.Planner.Fusion.{Candidate, Floats, fuse, normalize, score_of, le_scored}
use vitruvio.Planner.Execute.{returned, Sdk, Executor, Match, Degradation, has_block_filters}
use vitruvio.Planner.Execute.Tail.{candidate_matches, scored, matches_block, verify, verify_pool}
use vitruvio.Planner.Execute.Filtering.{matches_block_exact}
use vitruvio.Planner.Execute.Verification.{FirstHolder, IsAnswer, verify_exact}

at_limit : (a b : ℕ) → leb a b ≡ true → a ≤ b
at_limit a b e = ground arith

below_limit : (a b : ℕ) → leb a b ≡ false → suc b ≤ a
below_limit a b e = ground arith

module _ {F M B : Type 0} (sdk : Sdk M B) (x : Executor F M) where
  Scored : Type 0
  Scored = Candidate F × F

  -- what `_verify` answers, whatever has been written down before
  abbrev pub answered : Candidate F × F → Option (Match F)
  answered (c, score) = (verify sdk x x.modules c score []).0

  answered_any :
      (c : Candidate F) (score : F) (ds : List Degradation)
      → (verify sdk x x.modules c score ds).0 ≡ answered (c, score)
  answered_any c score ds = elim (Option-cases (verify sdk x x.modules c score ds).0) [
    | inl e ↦ elim (Option-cases (answered (c, score))) [
      | inl f ↦ e ∙ sym f
      | inr (found, f) ↦ absurd (let g = again [] ds found f in cc)
    ]
    | inr (found, e) ↦ e ∙ sym (again ds [] found e)
  ]
    where
      again :
          (ds es : List Degradation) (found : Match F)
          → (verify sdk x x.modules c score ds).0 ≡ some found
          → (verify sdk x x.modules c score es).0 ≡ some found
      again ds es found e =
          (verify_exact sdk x x.modules c score es found).1
            ((verify_exact sdk x x.modules c score ds found).0 e)

  abbrev pub limit : ℕ
  limit = max 1 x.query.limit

  full :
      (matches xs : List (Match F))
      → limit ≤ length matches
      → matches ++ take (limit - length matches) xs ≡ matches
  full matches xs l =
      let e : limit - length matches ≡ 0 = omega arith in
      ap (λ n. matches ++ take n xs) e ∙ append-nil matches

  one_more :
      (matches xs : List (Match F)) (found : Match F)
      → suc (length matches) ≤ limit
      → (matches ++ found ∷ []) ++ take (limit - length (matches ++ found ∷ [])) xs
        ≡ matches ++ take (limit - length matches) (found ∷ xs)
  one_more matches xs found l =
      let e : limit - length matches ≡ suc (limit - length (matches ++ found ∷ [])) =
        omega (arith, length-append matches (found ∷ [])) in
      append_assoc matches (found ∷ []) _ ∙ sym (ap (λ n. matches ++ take n (found ∷ xs)) e)

  pub verify_pool_exact :
      (pool : List (Candidate F × F)) (matches : List (Match F)) (ds : List Degradation)
      → ((verify_pool sdk x pool matches ds).0
          ≡ matches ++ take (limit - length matches) (filter_some answered pool))
        × ((verify_pool sdk x pool matches ds).1 ≡ false
            → (verify_pool sdk x pool matches ds).0 ≡ matches ++ filter_some answered pool)
  unfolding verify_pool
  verify_pool_exact [] matches ds = (
    sym (
        ap (λ ys. matches ++ ys) (take_of_length-le (limit - length matches) [] (omega arith))
        ∙ append-nil matches),
    λ _. sym (append-nil matches),
  )
  verify_pool_exact ((c, score) ∷ rest) matches ds =
      elim (Bool-cases (leb limit (length matches))) [
        | inl e ↦ rw (e, verify_pool) (sym (full matches _ (at_limit _ _ e)), λ f. absurd (cc))
        | inr e ↦ elim (Option-cases (answered (c, score))) [
          | inl n ↦
              let v = answered_any c score ds ∙ n in
              let (same, all) =
                verify_pool_exact rest matches (verify sdk x x.modules c score ds).1 in
              rw (e, v, n, verify_pool, filter_some) (same, all)
          | inr (found, n) ↦
              let v = answered_any c score ds ∙ n in
              let (same, all) =
                verify_pool_exact rest (matches ++ found ∷ [])
                  (verify sdk x x.modules c score ds).1 in
              rw (e, v, n, verify_pool, filter_some)
                (
                  same ∙ one_more matches _ found (below_limit _ _ e),
                  λ f. all f ∙ append_assoc matches (found ∷ []) _,
                )
        ]
      ]

In-filtered_if :
    {A : Type 0} (b : Bool) (p : A → Bool) (a : A) (xs : List A)
    → In a (if b then filterb p xs else xs) ↔ (In a xs × ((b ≡ true) → p a ≡ true))
In-filtered_if true p a xs = (
  λ m. let (n, e) = (In-filterb p a xs).0 m in (n, λ _. e),
  λ (n, h). (In-filterb p a xs).1 (n, h refl),
)
In-filtered_if false p a xs = (λ m. (m, λ e. absurd (cc)), λ m. m.0)

In-filtered_unless :
    {A : Type 0} (b : Bool) (p : A → Bool) (a : A) (xs : List A)
    → In a (if b then xs else filterb p xs) ↔ (In a xs × ((b ≡ true) ⊎ (p a ≡ true)))
In-filtered_unless true p a xs = (λ m. (m, inl refl), λ m. m.0)
In-filtered_unless false p a xs = ground (arith, In-filterb p a xs)

module _ {F : Type 0} (floats : Floats F) where
  In-fuse :
      (candidates : Dict Text (Candidate F)) (weights : Dict Text F) (k : ℕ) (decay : F)
      (c : Candidate F) (s : F)
      → In (c, s) (fuse floats candidates weights k decay)
      → In c (values candidates)
  unfolding fuse
  In-fuse candidates weights k decay c s m =
      let (d, n, e) =
        In-map_inv _ (c, s) (values candidates) ((In-sort (le_scored floats) (c, s) _).0 m) in
      subst (λ b. In b (values candidates)) (ap (λ (y : Candidate F × F). y.0) e) n

  In-fuse_of :
      (candidates : Dict Text (Candidate F)) (weights : Dict Text F) (k : ℕ) (decay : F)
      (c : Candidate F)
      → In c (values candidates)
      → (s : F) × In (c, s) (fuse floats candidates weights k decay)
  unfolding fuse
  In-fuse_of candidates weights k decay c m = (
    score_of floats weights k decay c,
    (In-sort (le_scored floats) _ _).1
        (In-map_of (λ c. (c, score_of floats weights k decay c)) c _ m),
  )

  pub In-normalize :
      (pool : List (Candidate F × F)) (c : Candidate F) (s : F)
      → In (c, s) (normalize floats pool)
      → (t : F) × In (c, t) pool
  unfolding normalize
  In-normalize [] c s m = absurd m
  In-normalize ((first, top) ∷ rest) c s m =
      let ((d, t), n, e) = In-map_inv _ (c, s) ((first, top) ∷ rest) m in
      (t, subst (λ b. In (b, t) ((first, top) ∷ rest)) (ap (λ (y : Candidate F × F). y.0) e) n)

  pub In-normalize_of :
      (pool : List (Candidate F × F)) (c : Candidate F) (t : F)
      → In (c, t) pool
      → (s : F) × In (c, s) (normalize floats pool)
  unfolding normalize
  In-normalize_of [] c t m = absurd m
  In-normalize_of ((first, top) ∷ rest) c t m = (_, In-map_of _ (c, t) ((first, top) ∷ rest) m)

module _ {F M B : Type 0} (sdk : Sdk M B) (x : Executor F M) where
  -- Superseded blocks are hidden unless they are asked for.
  abbrev pub IsVisible : Candidate F → Type 0
  IsVisible c =
      (x.query.filters.include_superseded ≡ true) ⊎ (x.ledger.is_accessible c.block_id ≡ true)

  module _ (floats : Floats F) {V : Type 0} (nodes : List (Node V))
      (candidates : Dict Text (Candidate F)) where
    pub In-scored :
        (c : Candidate F) (s : F)
        → In (c, s) (scored sdk x floats nodes candidates)
        → In c (values candidates) × IsVisible c
    unfolding scored
    In-scored c s m =
        let (n, _) = (In-filtered_if {A = Candidate F × F} _ _ (c, s) _).0 m in
        let (k, v) = (In-filtered_unless {A = Candidate F × F} _ _ (c, s) _).0 n in
        (In-fuse floats candidates _ _ _ c s k, v)

    pub In-scored_of :
        (c : Candidate F)
        → In c (values candidates)
        → IsVisible c
        → ((has_block_filters x.query.filters ≡ true)
            → candidate_matches sdk x x.modules c.block_id ≡ true)
        → (s : F) × In (c, s) (scored sdk x floats nodes candidates)
    unfolding scored
    In-scored_of c m v h =
        let (s, k) = In-fuse_of floats candidates x.weights x.rrf_k x.decay c m in
        (
          s,
          (In-filtered_if {A = Candidate F × F} _ _ (c, s) _).1 (
            (In-filtered_unless {A = Candidate F × F} _ _ (c, s) _).1 (k, v),
            λ e. h (ground arith),
          ),
        )

  reads :
      (modules : Dict Text M) (id memory_type : Text) (m : M) (block : B)
      → FirstHolder sdk x modules id memory_type m
      → sdk.is_resolvable m id ≡ true
      → sdk.get m id ≡ returned block
      → matches_block sdk x id block ≡ true
      → candidate_matches sdk x modules id ≡ true
  unfolding candidate_matches
  reads [] id memory_type m block h r g a = absurd h
  reads ((t, n) ∷ rest) id memory_type m block (inl (i, _, e)) r g a =
      let held = (contains_iff (sdk.members n) id).1 i in
      let r' : sdk.is_resolvable n id ≡ true = subst (λ n. sdk.is_resolvable n id ≡ true) e r in
      let g' : sdk.get n id ≡ returned block = subst (λ n. sdk.get n id ≡ returned block) e g in
      rw (held, r', g', candidate_matches) a
  reads ((t, n) ∷ rest) id memory_type m block (inr (i, h)) r g a =
      elim (Bool-cases (contains (sdk.members n) id)) [
        | inl e ↦ absurd (i ((contains_iff (sdk.members n) id).0 e))
        | inr e ↦ rw (e, candidate_matches) (reads rest id memory_type m block h r g a)
      ]

  -- The residual filters keep what verification answers.
  pub answer-candidate_matches :
      (c : Candidate F) (memory_type : Text) (m : M) (score : F) (found : Match F)
      → FirstHolder sdk x x.modules c.block_id memory_type m
      → IsAnswer sdk x memory_type m c score found
      → has_block_filters x.query.filters ≡ true
      → candidate_matches sdk x x.modules c.block_id ≡ true
  answer-candidate_matches c memory_type m score found h (_, inl (r, (block, g, a, _))) f =
      reads x.modules c.block_id memory_type m block h r g
        ((matches_block_exact sdk x c.block_id block).1 a)
  answer-candidate_matches c memory_type m score found h (_, inr (_, _, e, _)) f = absurd (cc)
