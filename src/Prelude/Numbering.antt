-- ===== src/Prelude/Numbering.antt =====
-- {x: position for position, x in enumerate(xs)}: the dictionary that numbers a list.
use vitruvio.Prelude.Tests.{Eq}
use vitruvio.Prelude.Lists.{get_elem?}
use vitruvio.Prelude.Membership.{In, Distinct}
use vitruvio.Prelude.Dicts.{Dict, lookup, insert, lookup-insert}
use Prim.Native.Nat.{ℕ, zero, suc, ◌+◌}
use mathlib.Core.Path.{◌≡◌, refl, ap, sym, ◌∙◌, subst}
use mathlib.Core.Logic.{◌⊎◌, inl, inr, ◌↔◌, if_neg, if_pos}
use mathlib.Core.Option.{none, some}
use mathlib.Core.List.{List, [], ◌∷◌}
use native.Mathlib.Omega.{arith}

module _ {K : Type 0} ⦃e : Eq K⦄ where
  abbrev number_from : ℕ → List K → Dict K ℕ → Dict K ℕ
  number_from i [] d = d
  number_from i (x ∷ xs) d = number_from (suc i) xs (insert d x i)

  unfoldable pub enumerate : List K → Dict K ℕ
  enumerate xs = number_from 0 xs []

  number_from_ne :
      (i : ℕ) (xs : List K) (d : Dict K ℕ) (k : K)
      → ¬ In k xs
      → lookup (number_from i xs d) k ≡ lookup d k
  number_from_ne i [] d k h = refl
  number_from_ne i (x ∷ xs) d k h =
      number_from_ne (suc i) xs (insert d x i) k (λ m. h (inr m))
      ∙ lookup-insert d x k i
      ∙ if_neg (e.dec x k) (λ f. h (inl (sym f))) _ _

  number_from_get :
      (i : ℕ) (xs : List K) (d : Dict K ℕ) (k : K) (n : ℕ)
      → Distinct xs
      → get_elem? xs n ≡ some k
      → lookup (number_from i xs d) k ≡ some (i + n)
  number_from_get i [] d k n h g = cc
  number_from_get i (x ∷ xs) d k zero h g =
      let f : x ≡ k = cc in
      number_from_ne (suc i) xs (insert d x i) k (subst (λ y. ¬ In y xs) f h.0)
      ∙ lookup-insert d x k i
      ∙ if_pos (e.dec x k) f _ _
      ∙ ap some (omega arith)
  number_from_get i (x ∷ xs) d k (suc n) h g =
      number_from_get (suc i) xs (insert d x i) k n h.1 g ∙ ap some (omega arith)

  number_from_inv :
      (i : ℕ) (xs : List K) (d : Dict K ℕ) (k : K) (j : ℕ)
      → lookup (number_from i xs d) k ≡ some j
      → ((n : ℕ) × (get_elem? xs n ≡ some k) × (j ≡ i + n)) ⊎ (lookup d k ≡ some j)
  number_from_inv i [] d k j h = inr h
  number_from_inv i (x ∷ xs) d k j h = elim (number_from_inv (suc i) xs (insert d x i) k j h) [
    | inl (n, g, f) ↦ inl (suc n, g, omega arith)
    | inr g ↦ elim (e.dec x k) [
      | yes p ↦ inl (0, ap some p, ground (arith, lookup-insert d x k i))
      | no p ↦ inr (ground (arith, lookup-insert d x k i))
    ]
  ]

  -- An element of a list of distinct elements has its position as its number, and no other.
  pub lookup-enumerate :
      (xs : List K) (k : K) (n : ℕ)
      → Distinct xs
      → (lookup (enumerate xs) k ≡ some n) ↔ (get_elem? xs n ≡ some k)
  unfolding enumerate
  lookup-enumerate xs k n h = (
    λ g. elim (number_from_inv 0 xs [] k n g) [
      | inl (m, f, q) ↦ subst (λ j. get_elem? xs j ≡ some k) (omega arith) f
      | inr f ↦ absurd (unfold lookup in cc)
    ],
    λ g. number_from_get 0 xs [] k n h g ∙ ap some (omega arith),
  )

  pub lookup-enumerate-none : (xs : List K) (k : K) → ¬ In k xs → lookup (enumerate xs) k ≡ none
  unfolding enumerate lookup
  lookup-enumerate-none xs k h = number_from_ne 0 xs [] k h
