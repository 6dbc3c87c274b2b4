-- ===== src/Prelude/Sets.antt =====
-- Python's `set` as a list of distinct elements. The order in which one is walked is not part of
-- its value: the theorems speak of the members and of their number.
use vitruvio.Prelude.Tests.{Eq, if◌then◌else◌, Bool-cases}
use vitruvio.Prelude.Lists.{filterb}
use vitruvio.Prelude.Membership.{In, Distinct, In-filterb, Distinct-filterb}
use mathlib.Core.Path.{◌≡◌, subst, sym}
use mathlib.Core.Logic.{◌⊎◌, inl, inr, ◌↔◌, ite}
use mathlib.Core.Bool.{Bool, true, false, not}
use mathlib.Core.List.{List, [], ◌∷◌}
use native.Mathlib.Omega.{arith}

module _ {A : Type 0} ⦃e : Eq A⦄ where
  -- x in s
  unfoldable pub contains : List A → A → Bool
  contains [] a = false
  contains (x ∷ s) a = ite (e.dec x a) true (contains s a)

  pub contains_iff : (s : List A) (a : A) → (contains s a ≡ true) ↔ In a s
  unfolding contains
  contains_iff [] a = (λ h. cc, λ m. absurd m)
  contains_iff (x ∷ s) a = ground (arith, contains_iff s a)

  -- s.add(x)
  unfoldable pub add : List A → A → List A
  unfolding contains
  add s a = if contains s a then s else a ∷ s

  pub In-add : (s : List A) (a b : A) → In b (add s a) ↔ ((b ≡ a) ⊎ In b s)
  unfolding add
  In-add s a b = elim (Bool-cases (contains s a)) [
    | inl h ↦
        rw (h, add)
          (
            λ m. inr m,
            λ m. elim m [
              | inl f ↦ subst (λ x. In x s) (sym f) ((contains_iff s a).0 h)
              | inr n ↦ n
            ],
          )
    | inr h ↦ rw (h, add) (λ m. m, λ m. m)
  ]

  pub Distinct-add : (s : List A) (a : A) → Distinct s → Distinct (add s a)
  unfolding add
  Distinct-add s a d = ground (arith, contains_iff s a)

  -- a | b, by adding each element of the second
  unfoldable pub union : List A → List A → List A
  unfolding add
  union s [] = s
  union s (x ∷ t) = union (add s x) t

  pub In-union : (s t : List A) (a : A) → In a (union s t) ↔ (In a s ⊎ In a t)
  unfolding union
  In-union s [] a = ground arith
  In-union s (x ∷ t) a = ground (arith, In-union (add s x) t a, In-add s x a)

  pub Distinct-union : (s t : List A) → Distinct s → Distinct (union s t)
  unfolding union
  Distinct-union s [] d = d
  Distinct-union s (x ∷ t) d = Distinct-union (add s x) t (Distinct-add s x d)

  -- set(xs)
  abbrev pub set_of : List A → List A
  set_of xs = union [] xs

  -- a & b
  unfoldable pub inter : List A → List A → List A
  unfolding contains
  inter s t = filterb (contains t) s

  pub In-inter : (s t : List A) (a : A) → In a (inter s t) ↔ (In a s × In a t)
  unfolding inter
  In-inter s t a = ground (arith, In-filterb (contains t) a s, contains_iff t a)

  pub Distinct-inter : (s t : List A) → Distinct s → Distinct (inter s t)
  unfolding inter
  Distinct-inter s t d = Distinct-filterb (contains t) s d

  -- a - b
  unfoldable pub diff : List A → List A → List A
  unfolding contains
  diff s t = filterb (λ a. not (contains t a)) s

  pub In-diff : (s t : List A) (a : A) → In a (diff s t) ↔ (In a s × (¬ In a t))
  unfolding diff
  In-diff s t a = ground (arith, In-filterb (λ b. not (contains t b)) a s, contains_iff t a)

  pub Distinct-diff : (s t : List A) → Distinct s → Distinct (diff s t)
  unfolding diff
  Distinct-diff s t d = Distinct-filterb (λ b. not (contains t b)) s d

  pub In-cases : (s : List A) (a : A) → In a s ⊎ (¬ In a s)
  In-cases s a = elim (Bool-cases (contains s a)) [
    | inl h ↦ inl ((contains_iff s a).0 h)
    | inr h ↦ inr (λ m. cc ((contains_iff s a).1 m))
  ]
