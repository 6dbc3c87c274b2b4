-- ===== src/Prelude/Sorting.antt =====
-- `sorted` and `list.sort`: a stable insertion sort, which has the result of any stable sort.
use vitruvio.Prelude.Lists.{length}
use vitruvio.Prelude.Membership.{In, All, Distinct, All-In, All-of}
use vitruvio.Prelude.Order.{Ord, IsSorted, IsSorted-unique}
use Prim.Native.Nat.{suc}
use mathlib.Core.Path.{◌≡◌, refl, sym, subst, ap, ◌∙◌}
use mathlib.Core.Logic.{inl, inr, ◌↔◌}
use mathlib.Core.Bool.{Bool, true, false}
use mathlib.Core.List.{List, [], ◌∷◌}
use native.Mathlib.Omega.{arith}

module _ {A : Type 0} (le : A → A → Bool) where
  abbrev pub insert_sorted : A → List A → List A
  insert_sorted x [] = x ∷ []
  insert_sorted x (y ∷ ys) =
      let rest = insert_sorted x ys in elim (le x y) [ true ↦ x ∷ y ∷ ys | false ↦ y ∷ rest ]

  unfoldable pub sort : List A → List A
  sort [] = []
  sort (x ∷ xs) = insert_sorted x (sort xs)

  In-insert_sorted : (a x : A) (xs : List A) → In a (insert_sorted x xs) ↔ In a (x ∷ xs)
  In-insert_sorted a x [] = (λ m. m, λ m. m)
  In-insert_sorted a x (y ∷ ys) = ground (arith, In-insert_sorted a x ys)

  pub In-sort : (a : A) (xs : List A) → In a (sort xs) ↔ In a xs
  unfolding sort
  In-sort a [] = (λ m. m, λ m. m)
  In-sort a (x ∷ xs) = ground (arith, In-insert_sorted a x (sort xs), In-sort a xs)

  length-insert_sorted : (x : A) (xs : List A) → length (insert_sorted x xs) ≡ suc (length xs)
  length-insert_sorted x [] = refl
  length-insert_sorted x (y ∷ ys) = ground (arith, length-insert_sorted x ys)

  pub length-sort : (xs : List A) → length (sort xs) ≡ length xs
  unfolding sort
  length-sort [] = refl
  length-sort (x ∷ xs) = length-insert_sorted x (sort xs) ∙ ap suc (length-sort xs)

  Distinct-insert_sorted :
      (x : A) (xs : List A) → ¬ In x xs → Distinct xs → Distinct (insert_sorted x xs)
  Distinct-insert_sorted x [] n d = (n, tt)
  Distinct-insert_sorted x (y ∷ ys) n d =
      ground (arith, In-insert_sorted y x ys, Distinct-insert_sorted x ys)

  pub Distinct-sort : (xs : List A) → Distinct xs → Distinct (sort xs)
  unfolding sort
  Distinct-sort [] d = d
  Distinct-sort (x ∷ xs) d =
      Distinct-insert_sorted x (sort xs) (λ m. d.0 ((In-sort x xs).0 m)) (Distinct-sort xs d.1)

  module _ (total : (a b : A) → le a b ≡ false → le b a ≡ true)
      (trans : (a b c : A) → le a b ≡ true → le b c ≡ true → le a c ≡ true) where
    IsSorted-insert_sorted :
        (x : A) (xs : List A) → IsSorted le xs → IsSorted le (insert_sorted x xs)
    IsSorted-insert_sorted x [] s = (tt, tt)
    IsSorted-insert_sorted x (y ∷ ys) s = ground (
      arith,
      above,
      All-of (λ z. le y z ≡ true) (insert_sorted x ys),
      below,
      IsSorted-insert_sorted x ys s.1,
    )
      where
        above : le x y ≡ true → All (λ z. le x z ≡ true) ys
        above e =
            All-of (λ z. le x z ≡ true) ys
              λ z m. trans x y z e (All-In (λ z. le y z ≡ true) z ys s.0 m)

        below : le x y ≡ false → (z : A) → In z (insert_sorted x ys) → le y z ≡ true
        below e z m = elim ((In-insert_sorted z x ys).0 m) [
          | inl f ↦ subst (λ b. le y b ≡ true) (sym f) (total x y e)
          | inr n ↦ All-In (λ z. le y z ≡ true) z ys s.0 n
        ]

    pub IsSorted-sort : (xs : List A) → IsSorted le (sort xs)
    unfolding sort
    IsSorted-sort [] = tt
    IsSorted-sort (x ∷ xs) = IsSorted-insert_sorted x (sort xs) (IsSorted-sort xs)

module _ {A : Type 0} (o : Ord A) where
  open o use {le, total, trans}

  -- `sorted` of two lists of distinct elements depends on the members alone.
  pub sort_canonical :
      (xs ys : List A)
      → Distinct xs
      → Distinct ys
      → ((a : A) → In a xs ↔ In a ys)
      → sort le xs ≡ sort le ys
  sort_canonical xs ys dx dy h =
      IsSorted-unique o (sort le xs) (sort le ys) (IsSorted-sort le total trans xs)
        (IsSorted-sort le total trans ys) (Distinct-sort le xs dx) (Distinct-sort le ys dy)
        λ a. (
          λ m. (In-sort le a ys).1 ((h a).0 ((In-sort le a xs).0 m)),
          λ m. (In-sort le a xs).1 ((h a).1 ((In-sort le a ys).0 m)),
        )
