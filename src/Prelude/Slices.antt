-- ===== src/Prelude/Slices.antt =====
-- xs[lo:hi] by the positions that it covers.
use Prim.Native.Nat.{ℕ, zero, suc, ◌+◌, ◌-◌, ◌≤◌, ◌<◌}
use mathlib.Core.Path.{◌≡◌, refl, ap, sym, ◌∙◌}
use mathlib.Core.List.{List, [], ◌∷◌, map}
use mathlib.Core.Option
use mathlib.Core.Option.{some}
use native.Mathlib.Omega.{arith}
use vitruvio.Prelude.Lists.{get_elem?, take, drop, slice, get_elem?-lt, length-take}
use vitruvio.Prelude.Membership.{In, In-position, In-get_elem?}

module _ {A : Type 0} where
  get_elem?-drop : (n : ℕ) (xs : List A) (i : ℕ) → get_elem? (drop n xs) i ≡ get_elem? xs (n + i)
  get_elem?-drop zero xs i = ap (get_elem? xs) (omega arith)
  get_elem?-drop (suc n) [] i = refl
  get_elem?-drop (suc n) (x ∷ xs) i = get_elem?-drop n xs i ∙ shift
    where
      shift : get_elem? xs (n + i) ≡ get_elem? (x ∷ xs) (suc n + i)
      shift = let e : suc n + i ≡ suc (n + i) = omega arith in rw e

  get_elem?-take : (n : ℕ) (xs : List A) (i : ℕ) → i < n → get_elem? (take n xs) i ≡ get_elem? xs i
  get_elem?-take zero xs i h = elim h [ ]
  get_elem?-take (suc n) [] i h = refl
  get_elem?-take (suc n) (x ∷ xs) zero h = refl
  get_elem?-take (suc n) (x ∷ xs) (suc i) h = get_elem?-take n xs i (omega arith)

  -- xs[lo:hi] holds what stands at the positions from lo up to hi.
  pub In-slice_of :
      (lo hi i : ℕ) (xs : List A) (a : A)
      → lo ≤ i
      → i < hi
      → get_elem? xs i ≡ some a
      → In a (slice lo hi xs)
  In-slice_of lo hi i xs a p q g =
      let e : lo + (i - lo) ≡ i = omega arith in
      In-get_elem? (slice lo hi xs) (i - lo) a (
        get_elem?-take (hi - lo) (drop lo xs) (i - lo) (omega arith)
        ∙ get_elem?-drop lo xs (i - lo)
        ∙ ap (get_elem? xs) e
        ∙ g)

  pub In-slice_inv :
      (lo hi : ℕ) (xs : List A) (a : A)
      → In a (slice lo hi xs)
      → (i : ℕ) × (lo ≤ i) × (i < hi) × (get_elem? xs i ≡ some a)
  In-slice_inv lo hi xs a m =
      let (j, g) = In-position (slice lo hi xs) a m in
      let h : j < hi - lo =
        omega (arith, get_elem?-lt (slice lo hi xs) j a g, length-take (hi - lo) (drop lo xs)) in
      (
        lo + j,
        omega arith,
        omega arith,
        sym (get_elem?-drop lo xs j) ∙ sym (get_elem?-take (hi - lo) (drop lo xs) j h) ∙ g,
      )

pub get_elem?-map {ℓ κ} :
    {A : Type ℓ} {B : Type κ} (f : A → B) (xs : List A) (i : ℕ)
    → get_elem? (map f xs) i ≡ Option.map f (get_elem? xs i)
get_elem?-map f [] i = refl
get_elem?-map f (x ∷ xs) zero = refl
get_elem?-map f (x ∷ xs) (suc i) = get_elem?-map f xs i
