-- ===== src/Indices/Queries/Delta.antt =====
-- queries.py, `BuildDelta`: the difference is exact, and empty only if nothing changed.
use vitruvio.Prelude.{
  ◌+◌, List, [], ◌∷◌, true, not, length, is_nil, In, In-cases, inl, inr, In-sort, In-union, In-diff,
  length-sort, filterb, contains, arith, ◌≡◌, ◌↔◌, refl, Text, le_text, set_of, inter, diff,
  text_eq, Bool,
}
use vitruvio.Indices.Queries.{between, is_noop}

-- The identities added are those that come in and were not held, and those removed are those that
-- were held and do not come in.
pub between_exact :
    (held incoming : List Text) (x : Text)
    → (In x (between held incoming).added ↔ (In x incoming × (¬ In x held)))
      × (In x (between held incoming).removed ↔ (In x held × (¬ In x incoming)))
unfolding between
between_exact held incoming x = ground (
  arith,
  In-sort le_text x (diff (set_of incoming) (set_of held)),
  In-sort le_text x (diff (set_of held) (set_of incoming)),
  In-diff (set_of incoming) (set_of held) x,
  In-diff (set_of held) (set_of incoming) x,
  In-union [] held x,
  In-union [] incoming x,
)

length-split :
    {A : Type 0} (p : A → Bool) (s : List A)
    → length (filterb p s) + length (filterb (λ a. not (p a)) s) ≡ length s
length-split p [] = omega arith
length-split p (x ∷ s) = ground (arith, length-split p s)

-- Every identity that was held is either unchanged or removed, and counted once.
pub between_counts :
    (held incoming : List Text)
    → (between held incoming).unchanged + length (between held incoming).removed
      ≡ length (set_of held)
unfolding between inter diff
between_counts held incoming = omega (
  arith,
  length-sort le_text (diff (set_of held) (set_of incoming)),
  length-split (contains (set_of incoming)) (set_of held),
)

nil_of_none : {A : Type 0} (xs : List A) → ((a : A) → ¬ In a xs) → is_nil xs ≡ true
nil_of_none [] h = refl
nil_of_none (x ∷ xs) h = absurd (h x (inl refl))

none_of_nil : {A : Type 0} (xs : List A) (a : A) → is_nil xs ≡ true → ¬ In a xs
none_of_nil [] a h m = absurd m
none_of_nil (x ∷ xs) a h m = ground arith

-- The difference is a no-op exactly if the two lists have the same members.
pub is_noop_iff :
    (held incoming : List Text)
    → (is_noop (between held incoming) ≡ true) ↔ ((x : Text) → In x held ↔ In x incoming)
unfolding is_noop
is_noop_iff held incoming = (
  λ h x.
      let d = between_exact held incoming x in
      (
        λ m. elim (In-cases incoming x) [
          | inl n ↦ n
          | inr n ↦ absurd (none_of_nil _ x (ground arith) (d.1.1 (m, n)))
        ],
        λ m. elim (In-cases held x) [
          | inl n ↦ n
          | inr n ↦ absurd (none_of_nil _ x (ground arith) (d.0.1 (m, n)))
        ],
      ),
  λ h.
      let none_added =
        nil_of_none (between held incoming).added
          λ x m. let n = (between_exact held incoming x).0.0 m in n.1 ((h x).1 n.0) in
      let none_removed =
        nil_of_none (between held incoming).removed
          λ x m. let n = (between_exact held incoming x).1.0 m in n.1 ((h x).0 n.0) in
      ground arith,
)
