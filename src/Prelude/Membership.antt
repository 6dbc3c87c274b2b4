-- ===== src/Prelude/Membership.antt =====
-- Membership by recursion on the list, which the tactics take apart, with quantifiers over it.
-- It stands at level 0, since it ends in `⊥`, and all data of the program does too.
use Prim.Native.Nat.{ℕ, zero, suc, ◌+◌, ◌≤◌, ◌<◌}
use mathlib.Core.Path.{◌≡◌, refl, ap, sym, subst, ◌∙◌}
use mathlib.Core.Logic.{◌≢◌, ◌↔◌, ◌⊎◌, inl, inr}
use mathlib.Core.Bool.{Bool, true}
use mathlib.Core.List.{List, [], ◌∷◌, ◌++◌, map}
use mathlib.Core.Option.{Option, some}
use native.Mathlib.Omega.{arith}
use vitruvio.Prelude.Tests.{Option-cases}
use vitruvio.Prelude.Lists.{length, get_elem?, filterb, filter_some, take, range_from}

module _ {A : Type 0} where
  abbrev pub In : A → List A → Type 0
  In a [] = ⊥
  In a (x ∷ xs) = (a ≡ x) ⊎ In a xs

  -- No element stands twice.
  abbrev pub Distinct : List A → Type 0
  Distinct [] = Unit
  Distinct (x ∷ xs) = (¬ In x xs) × Distinct xs

  abbrev pub All : (A → Type 0) → List A → Type 0
  All P [] = Unit
  All P (x ∷ xs) = P x × All P xs

  pub All-In : (P : A → Type 0) (a : A) (xs : List A) → All P xs → In a xs → P a
  All-In P a (x ∷ xs) h (inl e) = subst P (sym e) h.0
  All-In P a (x ∷ xs) h (inr m) = All-In P a xs h.1 m
  All-In P a [] h m = absurd m

  pub All-of : (P : A → Type 0) (xs : List A) → ((a : A) → In a xs → P a) → All P xs
  All-of P [] h = tt
  All-of P (x ∷ xs) h = (h x (inl refl), All-of P xs (λ a m. h a (inr m)))

  pub In-append : (a : A) (xs ys : List A) → In a (xs ++ ys) ↔ (In a xs ⊎ In a ys)
  In-append a [] ys = (λ m. inr m, λ m. elim m [ inl n ↦ absurd n | inr n ↦ n ])
  In-append a (x ∷ xs) ys = ground (arith, In-append a xs ys)

  pub In-filterb :
      (p : A → Bool) (a : A) (xs : List A) → In a (filterb p xs) ↔ (In a xs × (p a ≡ true))
  In-filterb p a [] = (λ m. absurd m, λ m. m.0)
  In-filterb p a (x ∷ xs) = ground (arith, In-filterb p a xs)

  pub Distinct-filterb : (p : A → Bool) (xs : List A) → Distinct xs → Distinct (filterb p xs)
  Distinct-filterb p [] d = d
  Distinct-filterb p (x ∷ xs) d = ground (arith, In-filterb p x xs, Distinct-filterb p xs d.1)

  pub In-get_elem? : (xs : List A) (i : ℕ) (a : A) → get_elem? xs i ≡ some a → In a xs
  In-get_elem? [] i a h = cc
  In-get_elem? (x ∷ xs) zero a h = inl (cc)
  In-get_elem? (x ∷ xs) (suc i) a h = inr (In-get_elem? xs i a h)

  -- Removing one element of a list of distinct elements.
  abbrev pub remove : Discrete A → A → List A → List A
  remove d a [] = []
  remove d a (x ∷ xs) = let rest = remove d a xs in elim (d x a) [ yes _ ↦ xs | no _ ↦ x ∷ rest ]

  pub In-remove :
      (d : Discrete A) (a b : A) (xs : List A)
      → Distinct xs
      → In b (remove d a xs) ↔ (In b xs × (b ≢ a))
  In-remove d a b [] h = (λ m. absurd m, λ m. m.0)
  In-remove d a b (x ∷ xs) h = ground (arith, In-remove d a b xs h.1)

  pub Distinct-remove :
      (d : Discrete A) (a : A) (xs : List A) → Distinct xs → Distinct (remove d a xs)
  Distinct-remove d a [] h = h
  Distinct-remove d a (x ∷ xs) h =
      ground (arith, In-remove d a x xs h.1, Distinct-remove d a xs h.1)

  pub length-remove :
      (d : Discrete A) (a : A) (xs : List A) → In a xs → suc (length (remove d a xs)) ≡ length xs
  length-remove d a [] m = absurd m
  length-remove d a (x ∷ xs) m = ground (arith, length-remove d a xs)

  -- Distinct elements of a second list: there are at most as many.
  pub length-le_of_subset :
      (d : Discrete A) (xs ys : List A)
      → Distinct xs
      → ((a : A) → In a xs → In a ys)
      → Distinct ys
      → length xs ≤ length ys
  length-le_of_subset d [] ys dx h dy = omega arith
  length-le_of_subset d (x ∷ xs) ys dx h dy = omega (
    arith,
    length-remove d x ys (h x (inl refl)),
    length-le_of_subset d xs (remove d x ys) dx.1
        (λ a m. (In-remove d x a ys dy).1 (h a (inr m), λ e. dx.0 (subst (λ b. In b xs) e m)))
        (Distinct-remove d x ys dy),
  )

  -- Two lists of distinct elements with the same members have one length.
  pub length_of_same :
      (d : Discrete A) (xs ys : List A)
      → Distinct xs
      → Distinct ys
      → ((a : A) → In a xs ↔ In a ys)
      → length xs ≡ length ys
  length_of_same d xs ys dx dy h = omega (
    arith,
    length-le_of_subset d xs ys dx (λ a. (h a).0) dy,
    length-le_of_subset d ys xs dy (λ a. (h a).1) dx,
  )

module _ {A B : Type 0} (f : A → B) where
  pub In-map_of : (a : A) (xs : List A) → In a xs → In (f a) (map f xs)
  In-map_of a [] m = m
  In-map_of a (x ∷ xs) (inl e) = inl (ap f e)
  In-map_of a (x ∷ xs) (inr m) = inr (In-map_of a xs m)

  pub In-map_inv : (b : B) (xs : List A) → In b (map f xs) → (a : A) × In a xs × (f a ≡ b)
  In-map_inv b [] m = absurd m
  In-map_inv b (x ∷ xs) (inl e) = (x, inl refl, sym e)
  In-map_inv b (x ∷ xs) (inr m) = let (a, n, e) = In-map_inv b xs m in (a, inr n, e)

pub In-range_from : (i start n : ℕ) → In i (range_from start n) ↔ ((start ≤ i) × (i < start + n))
In-range_from i start zero = (λ m. absurd m, λ m. omega arith)
In-range_from i start (suc n) = ground (arith, In-range_from i (suc start) n)

module _ {A B : Type 0} (f : A → Option B) where
  pub In-filter_some_of :
      (b : B) (a : A) (xs : List A) → In a xs → f a ≡ some b → In b (filter_some f xs)
  In-filter_some_of b a [] m h = absurd m
  In-filter_some_of b a (x ∷ xs) m h = ground (arith, In-filter_some_of b a xs)

  pub In-filter_some_inv :
      (b : B) (xs : List A) → In b (filter_some f xs) → (a : A) × In a xs × (f a ≡ some b)
  In-filter_some_inv b [] m = absurd m
  In-filter_some_inv b (x ∷ xs) m = elim (Option-cases (f x)) [
    | inl e ↦ let (a, n, g) = In-filter_some_inv b xs (rw (e, filter_some) at m) in (a, inr n, g)
    | inr (y, e) ↦ elim (at_head y e) [
      | inl g ↦ (x, inl refl, e ∙ ap some (sym g))
      | inr n ↦ let (a, k, g) = In-filter_some_inv b xs n in (a, inr k, g)
    ]
  ]
    where
      at_head : (y : B) → f x ≡ some y → In b (y ∷ filter_some f xs)
      at_head y e = rw (e, filter_some) at m

module _ {A : Type 0} where
  pub In-position : (xs : List A) (a : A) → In a xs → (i : ℕ) × (get_elem? xs i ≡ some a)
  In-position [] a m = absurd m
  In-position (x ∷ xs) a (inl e) = (0, ap some (sym e))
  In-position (x ∷ xs) a (inr m) = let (i, g) = In-position xs a m in (suc i, g)

  pub position_unique :
      (xs : List A) (a : A) (i j : ℕ)
      → Distinct xs
      → get_elem? xs i ≡ some a
      → get_elem? xs j ≡ some a
      → i ≡ j
  position_unique [] a i j d g h = cc
  position_unique (x ∷ xs) a zero zero d g h = refl
  position_unique (x ∷ xs) a zero (suc j) d g h =
      let e : a ≡ x = cc in absurd (d.0 (subst (λ b. In b xs) e (In-get_elem? xs j a h)))
  position_unique (x ∷ xs) a (suc i) zero d g h =
      let e : a ≡ x = cc in absurd (d.0 (subst (λ b. In b xs) e (In-get_elem? xs i a g)))
  position_unique (x ∷ xs) a (suc i) (suc j) d g h = ap suc (position_unique xs a i j d.1 g h)

  pub In-take : (n : ℕ) (xs : List A) (y : A) → In y (take n xs) → In y xs
  In-take zero xs y m = absurd m
  In-take (suc n) (x ∷ xs) y (inl e) = inl e
  In-take (suc n) (x ∷ xs) y (inr m) = inr (In-take n xs y m)
  In-take (suc n) [] y m = m
