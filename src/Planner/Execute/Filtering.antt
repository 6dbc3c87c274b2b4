-- ===== src/Planner/Execute/Filtering.antt =====
-- execute.py, `_matches_filters` and `_matches_catalog`: what the predicates ask of a block.
use vitruvio.Prelude.{
  List, [], ◌∷◌, Option, none, some, true, false, ◌&&◌, not, foldl, map, is_nil, In, All, In-inter,
  In-map_inv, In-map_of, All-In, All-of, inter, contains_iff, Text, text_eq, le_text, ◌≡◌, ◌≢◌, ◌↔◌,
  ◌⊎◌, inl, inr, refl, sym, subst, arith,
}
use vitruvio.Planner.Execute.{
  Filters, Content, Sdk, Executor, differs, is_early, is_late, issubset, matches_filters,
  intersection,
}
use vitruvio.Planner.Execute.Tail.{catalog_sources, matches_catalog, matches_block}

-- What a filter on the subject, on an end of the interval, and on a set asks of a payload.
abbrev pub HasSubject : Option Text → Option Text → Type 0
HasSubject asked held = (subject : Text) → asked ≡ some subject → subject ≢ [] → held ≡ some subject

abbrev pub IsSince : Option Text → Option Text → Type 0
IsSince asked held =
    (since : Text)
    → asked ≡ some since
    → since ≢ []
    → (at : Text) × (held ≡ some at) × (at ≢ []) × (le_text since at ≡ true)

abbrev pub IsUntil : Option Text → Option Text → Type 0
IsUntil asked held =
    (until : Text)
    → asked ≡ some until
    → until ≢ []
    → (at : Text) × (held ≡ some at) × (at ≢ []) × (le_text at until ≡ true)

abbrev pub Within : List Text → List Text → Type 0
Within asked held = (a : Text) → In a asked → In a held

abbrev pub Satisfies : Filters → Content → Type 0
Satisfies f content =
    HasSubject f.subject content.subject
    × IsSince f.since content.occurred_at
    × IsUntil f.until content.occurred_at
    × Within f.tags content.tags
    × Within f.evidence content.evidence

differs_exact : (asked held : Option Text) → (differs asked held ≡ false) ↔ HasSubject asked held
differs_exact none held = ground arith
differs_exact (some []) none = ground arith
differs_exact (some []) (some h) = ground arith
differs_exact (some (c ∷ s)) none =
    (λ h. cc, λ k. absurd (ground (arith, k (c ∷ s) refl (λ e. cc))))
differs_exact (some (c ∷ s)) (some h) =
    (λ e t f n. ground arith, λ k. ground (arith, k (c ∷ s) refl (λ e. cc)))

is_early_exact : (asked held : Option Text) → (is_early asked held ≡ false) ↔ IsSince asked held
is_early_exact none held = ground arith
is_early_exact (some []) none = ground arith
is_early_exact (some []) (some h) = ground arith
is_early_exact (some (c ∷ s)) none =
    (λ h. cc, λ k. absurd (let (at, e, _, _) = k (c ∷ s) refl (λ e. cc) in cc))
is_early_exact (some (c ∷ s)) (some []) =
    (λ h. cc, λ k. absurd (let (at, e, n, _) = k (c ∷ s) refl (λ e. cc) in ground arith))
is_early_exact (some (c ∷ s)) (some (d ∷ t)) = (
  λ h since e n. (d ∷ t, refl, λ f. cc, ground arith),
  λ k. let (at, e, _, o) = k (c ∷ s) refl (λ f. cc) in ground arith,
)

is_late_exact : (asked held : Option Text) → (is_late asked held ≡ false) ↔ IsUntil asked held
is_late_exact none held = ground arith
is_late_exact (some []) none = ground arith
is_late_exact (some []) (some h) = ground arith
is_late_exact (some (c ∷ s)) none =
    (λ h. cc, λ k. absurd (let (at, e, _, _) = k (c ∷ s) refl (λ e. cc) in cc))
is_late_exact (some (c ∷ s)) (some []) =
    (λ h. cc, λ k. absurd (let (at, e, n, _) = k (c ∷ s) refl (λ e. cc) in ground arith))
is_late_exact (some (c ∷ s)) (some (d ∷ t)) = (
  λ h until e n. (d ∷ t, refl, λ f. cc, ground arith),
  λ k. let (at, e, _, o) = k (c ∷ s) refl (λ f. cc) in ground arith,
)

issubset_exact : (asked held : List Text) → (issubset asked held ≡ true) ↔ Within asked held
unfolding issubset
issubset_exact [] held = (λ _ a m. absurd m, λ _. refl)
issubset_exact (x ∷ asked) held = (
  λ h a m. elim m [
    | inl e ↦ subst (λ b. In b held) (sym e) ((contains_iff held x).0 (ground arith))
    | inr n ↦ (issubset_exact asked held).0 (ground arith) a n
  ],
  λ h. ground (
    arith,
    (contains_iff held x).1 (h x (inl refl)),
    (issubset_exact asked held).1 (λ a m. h a (inr m)),
  ),
)

subset_exact :
    (asked held : List Text)
    → ((not (is_nil asked) && not (issubset asked held)) ≡ false) ↔ Within asked held
unfolding issubset
subset_exact [] held = (λ h a m. absurd m, λ h. refl)
subset_exact (x ∷ asked) held = (
  λ h. (issubset_exact (x ∷ asked) held).0 (ground arith),
  λ w. ground (arith, (issubset_exact (x ∷ asked) held).1 w),
)

-- `_matches_filters` accepts a payload exactly if it satisfies every predicate of the filters.
pub matches_filters_exact :
    (f : Filters) (content : Content) → (matches_filters f content ≡ true) ↔ Satisfies f content
unfolding matches_filters
matches_filters_exact f content = (
  λ h. (
    (differs_exact f.subject content.subject).0 (ground arith),
    (is_early_exact f.since content.occurred_at).0 (ground arith),
    (is_late_exact f.until content.occurred_at).0 (ground arith),
    (subset_exact f.tags content.tags).0 (ground arith),
    (subset_exact f.evidence content.evidence).0 (ground arith),
  ),
  λ (s, low, high, tags, evidence). ground (
    arith,
    (differs_exact f.subject content.subject).1 s,
    (is_early_exact f.since content.occurred_at).1 low,
    (is_late_exact f.until content.occurred_at).1 high,
    (subset_exact f.tags content.tags).1 tags,
    (subset_exact f.evidence content.evidence).1 evidence,
  ),
)

In-intersection_rest :
    (first : List Text) (rest : List (List Text)) (a : Text)
    → In a (foldl inter first rest) ↔ (In a first × All (In a) rest)
In-intersection_rest first [] a = (λ m. (m, tt), λ m. m.0)
In-intersection_rest first (s ∷ rest) a =
    ground (arith, In-intersection_rest (inter first s) rest a, In-inter first s a)

some_member : (xs : List Text) → (not (is_nil xs) ≡ true) ↔ ((a : Text) × In a xs)
some_member [] = (λ h. cc, λ (a, m). absurd m)
some_member (x ∷ xs) = (λ h. (x, inl refl), λ _. refl)

-- A source that the catalogue names for every class that is asked for.
abbrev pub InClasses : {M B : Type 0} → Sdk M B → List Text → Text → Type 0
InClasses sdk classes source = (c : Text) → In c classes → In source (sdk.sources_for c)

module _ {F M B : Type 0} (sdk : Sdk M B) (x : Executor F M) where
  abbrev pub Classified : Text → B → Type 0
  Classified id block =
      (x.query.filters.classes ≡ [])
      ⊎ ((source : Text) × In source (sdk.evidence_sources id block)
          × InClasses sdk x.query.filters.classes source)

  -- What the filters ask of a block.
  abbrev pub Asked : Text → B → Type 0
  Asked id block = Satisfies x.query.filters (sdk.payload block) × Classified id block

  classes_exact :
      (held : List Text) (c : Text) (classes : List Text)
      → (not (is_nil (inter held (intersection (map sdk.sources_for (c ∷ classes))))) ≡ true)
        ↔ ((source : Text) × In source held × InClasses sdk (c ∷ classes) source)
  unfolding intersection
  classes_exact held c classes = (
    λ h.
        let (source, m) = (some_member _).0 h in
        let (n, k) = (In-inter held _ source).0 m in
        let (first, all) = (In-intersection_rest (sdk.sources_for c) _ source).0 k in
        (
          source,
          n,
          λ d i. elim i [
            | inl e ↦ subst (λ b. In source (sdk.sources_for b)) (sym e) first
            | inr j ↦
                All-In (In source) (sdk.sources_for d) _ all (In-map_of sdk.sources_for d classes j)
          ],
        ),
    λ (source, n, k). (some_member _).1 (
      source,
      (In-inter held _ source).1 (
        n,
        (In-intersection_rest (sdk.sources_for c) _ source).1 (
          k c (inl refl),
          All-of (In source) _ λ s m.
              let (d, i, e) = In-map_inv sdk.sources_for s classes m in
              subst (In source) e (k d (inr i)),
        ),
      ),
    ),
  )

  matches_catalog_exact :
      (id : Text) (block : B) → (matches_catalog sdk x id block ≡ true) ↔ Classified id block
  unfolding matches_catalog catalog_sources intersection
  matches_catalog_exact id block = by_classes x.query.filters.classes refl
    where
      by_classes :
          (classes : List Text)
          → x.query.filters.classes ≡ classes
          → (matches_catalog sdk x id block ≡ true) ↔ Classified id block
      by_classes [] e = rw (e, matches_catalog, catalog_sources) (λ _. inl refl, λ _. refl)
      by_classes (c ∷ classes) e =
          rw (e, matches_catalog, catalog_sources)
            (
              λ h. inr ((classes_exact (sdk.evidence_sources id block) c classes).0 h),
              λ k. elim k [
                | inl f ↦ absurd (cc)
                | inr k ↦ (classes_exact (sdk.evidence_sources id block) c classes).1 k
              ],
            )

  -- The predicates accept a block exactly if its payload satisfies every filter and, where classes
  -- are asked for, one of its sources is among those of every class.
  pub matches_block_exact :
      (id : Text) (block : B) → (matches_block sdk x id block ≡ true) ↔ Asked id block
  matches_block_exact id block = ground (
    arith,
    matches_filters_exact x.query.filters (sdk.payload block),
    matches_catalog_exact id block,
  )
