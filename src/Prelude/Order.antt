-- ===== src/Prelude/Order.antt =====
-- Total orders as an interface, and lists in order.
use vitruvio.Prelude.Tests.{leb, Bool-cases}
use vitruvio.Prelude.Lists.{get_elem?, take}
use vitruvio.Prelude.Membership.{In, All, Distinct, All-In, In-get_elem?}
use Prim.Native.Nat.{ℕ, zero, suc, ◌≤◌}
use mathlib.Core.Path.{◌≡◌, refl, sym, subst, ◌∙◌}
use mathlib.Core.Logic.{inl, inr, ◌↔◌, ◌⊎◌}
use mathlib.Core.Bool.{Bool, true, false}
use mathlib.Core.List.{List, [], ◌∷◌}
use mathlib.Core.Option.{some}
use native.Mathlib.Omega.{arith}

pub record Ord (A : Type 0) : Type 0 where
  pub le : A → A → Bool
  pub total : (a b : A) → le a b ≡ false → le b a ≡ true
  pub trans : (a b c : A) → le a b ≡ true → le b c ≡ true → le a c ≡ true
  pub antisymm : (a b : A) → le a b ≡ true → le b a ≡ true → a ≡ b

pub le_refl : {A : Type 0} (o : Ord A) (a : A) → o.le a a ≡ true
le_refl o a = elim (Bool-cases (o.le a a)) [ inl e ↦ e | inr e ↦ o.total a a e ]

pub nat_total : (a b : ℕ) → leb a b ≡ false → leb b a ≡ true
nat_total a b h = ground arith

pub nat_trans : (a b c : ℕ) → leb a b ≡ true → leb b c ≡ true → leb a c ≡ true
nat_trans a b c h k = ground arith

pub nat_antisymm : (a b : ℕ) → leb a b ≡ true → leb b a ≡ true → a ≡ b
nat_antisymm a b h k = ground arith

abbrev pub nat_ord : Ord ℕ
nat_ord = record { le = leb; total = nat_total; trans = nat_trans; antisymm = nat_antisymm }

module _ {A : Type 0} (le : A → A → Bool) where
  abbrev pub IsSorted : List A → Type 0
  IsSorted [] = Unit
  IsSorted (x ∷ xs) = All (λ y. le x y ≡ true) xs × IsSorted xs

-- Two ordered lists of distinct elements with the same members are one list.
module _ {A : Type 0} (o : Ord A) where
  open o use {le}

  tail-In :
      (x y : A) (xs ys : List A)
      → x ≡ y
      → ¬ In x xs
      → ((a : A) → In a (x ∷ xs) ↔ In a (y ∷ ys))
      → (a : A) → In a xs
      → In a ys
  tail-In x y xs ys e fresh h a m = elim ((h a).0 (inr m)) [
    | inl f ↦ absurd (fresh (subst (λ b. In b xs) (f ∙ sym e) m))
    | inr n ↦ n
  ]

  head_le : (x y : A) (ys : List A) → IsSorted le (y ∷ ys) → In x (y ∷ ys) → le y x ≡ true
  head_le x y ys s (inl e) = subst (λ b. le y b ≡ true) (sym e) (le_refl o y)
  head_le x y ys s (inr m) = All-In (λ b. le y b ≡ true) x ys s.0 m

  pub IsSorted-unique :
      (xs ys : List A)
      → IsSorted le xs
      → IsSorted le ys
      → Distinct xs
      → Distinct ys
      → ((a : A) → In a xs ↔ In a ys)
      → xs ≡ ys
  IsSorted-unique [] [] sx sy dx dy h = refl
  IsSorted-unique [] (y ∷ ys) sx sy dx dy h = absurd ((h y).1 (inl refl))
  IsSorted-unique (x ∷ xs) [] sx sy dx dy h = absurd ((h x).0 (inl refl))
  IsSorted-unique (x ∷ xs) (y ∷ ys) sx sy dx dy h =
      let e : x ≡ y =
        o.antisymm x y (head_le y x xs sx ((h y).1 (inl refl)))
          (head_le x y ys sy ((h x).0 (inl refl))) in
      let same : (a : A) → In a xs ↔ In a ys = λ a. (
        tail-In x y xs ys e dx.0 h a,
        tail-In y x ys xs (sym e) dy.0 (λ b. ((h b).1, (h b).0)) a,
      ) in
      cc (e, IsSorted-unique xs ys sx.1 sy.1 dx.1 dy.1 same)

module _ {A : Type 0} (o : Ord A) where
  open o use {le}

  pub IsSorted-get_elem? :
      (xs : List A) (i j : ℕ) (x y : A)
      → IsSorted le xs
      → get_elem? xs i ≡ some x
      → get_elem? xs j ≡ some y
      → i ≤ j
      → le x y ≡ true
  IsSorted-get_elem? [] i j x y s g h k = cc
  IsSorted-get_elem? (z ∷ xs) zero zero x y s g h k =
      let e : x ≡ y = cc in subst (λ b. le x b ≡ true) e (le_refl o x)
  IsSorted-get_elem? (z ∷ xs) zero (suc j) x y s g h k =
      let e : z ≡ x = cc in
      subst (λ b. le b y ≡ true) e (All-In (λ b. le z b ≡ true) y xs s.0 (In-get_elem? xs j y h))
  IsSorted-get_elem? (z ∷ xs) (suc i) zero x y s g h k = absurd (omega arith)
  IsSorted-get_elem? (z ∷ xs) (suc i) (suc j) x y s g h k =
      IsSorted-get_elem? xs i j x y s.1 g h (omega arith)

module _ {A : Type 0} (le : A → A → Bool) where
  -- What a prefix of an ordered list leaves out comes after all that it takes.
  pub IsSorted-take :
      (n : ℕ) (xs : List A) (y : A)
      → IsSorted le xs
      → In y xs
      → In y (take n xs) ⊎ ((x : A) → In x (take n xs) → le x y ≡ true)
  IsSorted-take zero xs y s m = inr (λ x n. absurd n)
  IsSorted-take (suc n) [] y s m = absurd m
  IsSorted-take (suc n) (x ∷ xs) y s (inl e) = inl (inl e)
  IsSorted-take (suc n) (x ∷ xs) y s (inr m) = elim (IsSorted-take n xs y s.1 m) [
    | inl k ↦ inl (inr k)
    | inr k ↦ inr λ z c. elim c [
      | inl e ↦ subst (λ b. le b y ≡ true) (sym e) (All-In (λ b. le x b ≡ true) y xs s.0 m)
      | inr p ↦ k z p
    ]
  ]
