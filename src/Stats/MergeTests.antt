-- ===== src/Stats/MergeTests.antt =====
-- fragment.py: the fragments of two indices, and the theorems at them.
use vitruvio.Prelude.{
  ℕ, [], ◌∷◌, Option, none, some, true, false, In, Distinct, keys, text_eq, lookup, text, ◌≡◌, ◌⊎◌,
  inl, inr, refl, sym, ap, subst, arith,
}
use vitruvio.Stats.{ColumnStats}
use vitruvio.Stats.Merge.{Fragment, merge, filled}
use vitruvio.Stats.Merge.Latest.{Agree}
use vitruvio.Stats.Merge.Gathering.{IsConsistent, module_of}
use vitruvio.Stats.Merge.Order.{merge_order, IsSame}

abbrev FirstOfTwo : {A B : Type 0} → (A → Option B) → A → A → Type 0
FirstOfTwo p x y = (p x ≡ none) ⊎ (p y ≡ none)

-- Two of which at most one gives a value agree.
agree_pair : {A B : Type 0} (p : A → Option B) (x y : A) → FirstOfTwo p x y → Agree p (x ∷ y ∷ [])
agree_pair p x y h u v a b m n e f = ground (arith, h, values u m, values v n, e, f)
  where
    values : (w : _) → In w (x ∷ y ∷ []) → (p w ≡ p x) ⊎ (p w ≡ p y)
    values w m = elim m [
      | inl q ↦ inl (ap p q)
      | inr k ↦ elim k [ inl q ↦ inr (ap p q) | inr z ↦ absurd z ]
    ]

abbrev subjects : ColumnStats
subjects = record {
  distinct = 1;
  null_count = 0;
  populated_count = 2;
  total_values = 2;
  top = (text "a", 2) ∷ [];
  truncated = false;
}

abbrev of_map : Fragment ℕ ℕ ℕ
of_map = record {
  kind = text "hash_map";
  fingerprint = text "f";
  module_level = true;
  cardinality = 2;
  resolvable_count = 2;
  average_block_bytes = 10;
  columns = [];
  time = [];
  terms = none;
  graph = some 4;
  vectors = [];
  model_tag = none;
  built_at = text "2026-01-02";
}

abbrev of_bitmap : Fragment ℕ ℕ ℕ
of_bitmap = record {
  kind = text "bitmap";
  fingerprint = text "f";
  module_level = false;
  cardinality = 0;
  resolvable_count = 0;
  average_block_bytes = 0;
  columns = (text "subject", subjects) ∷ [];
  time = [];
  terms = none;
  graph = none;
  vectors = (text "v", 3) ∷ [];
  model_tag = some [];
  built_at = text "2026-01-01";
}

consistent : IsConsistent (of_map ∷ of_bitmap ∷ [])
unfolding lookup
consistent = record {
  columns =
      λ key. agree_pair (λ (f : Fragment ℕ ℕ ℕ). lookup f.columns key) of_map of_bitmap (inl refl);
  time = λ key. agree_pair (λ (f : Fragment ℕ ℕ ℕ). lookup f.time key) of_map of_bitmap (inl refl);
  vectors =
      λ key. agree_pair (λ (f : Fragment ℕ ℕ ℕ). lookup f.vectors key) of_map of_bitmap (inl refl);
  terms = agree_pair (λ (f : Fragment ℕ ℕ ℕ). f.terms) of_map of_bitmap (inl refl);
  graph = agree_pair (λ (f : Fragment ℕ ℕ ℕ). f.graph) of_map of_bitmap (inr refl);
  model_tag = agree_pair (λ (f : Fragment ℕ ℕ ℕ). filled f.model_tag) of_map of_bitmap (inl refl);
  module_level = agree_pair module_of of_map of_bitmap (inr refl);
}

abbrev KeysOnce : Fragment ℕ ℕ ℕ → Type 0
KeysOnce f = Distinct (keys f.columns) × Distinct (keys f.time) × Distinct (keys f.vectors)

once_map : KeysOnce of_map
once_map = (tt, tt, tt)

once_bitmap : KeysOnce of_bitmap
once_bitmap = (((λ m. m), tt), tt, ((λ m. m), tt))

merge_order_example :
    IsSame
      (merge 0 0 (of_map ∷ of_bitmap ∷ []) (some (text "r")) none)
      (merge 0 0 (of_bitmap ∷ of_map ∷ []) (some (text "r")) none)
merge_order_example =
    merge_order 0 0 (of_map ∷ of_bitmap ∷ []) (of_bitmap ∷ of_map ∷ []) (some (text "r")) none
      (λ f. ground arith)
      (λ f m. elim m [
        | inl q ↦ subst KeysOnce (sym q) once_map
        | inr k ↦ elim k [ inl q ↦ subst KeysOnce (sym q) once_bitmap | inr z ↦ absurd z ]
      ])
      consistent (inl (of_map, inl refl, refl))
