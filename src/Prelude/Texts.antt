-- ===== src/Prelude/Texts.antt =====
-- Text as the list of its code points, in the order of Python's `str`: by code point, first
-- difference first, a prefix before what it begins.
use vitruvio.Prelude.Tests.{ltb, if◌then◌else◌, Eq}
use vitruvio.Prelude.Order.{Ord}
use Prim.Native.Nat.{ℕ}
use Prim.Native.Char.{code}
use Prim.Native.String.{String}
use mathlib.Core.Path.{◌≡◌, refl}
use mathlib.Core.Bool.{Bool, true, false}
use mathlib.Core.List.{List, [], ◌∷◌}
use native.Mathlib.Omega.{arith}
unfoldable use native.Mathlib.Decide.{ℕ_discrete}

abbrev pub Text : Type 0
Text = List ℕ

-- A literal's code points.
abbrev pub text : String → Text
text String.[] = []
text (String.◌∷◌ c s) = code c ∷ text s

-- a <= b
unfoldable pub le_text : Text → Text → Bool
le_text [] b = true
le_text (x ∷ a) [] = false
le_text (x ∷ a) (y ∷ b) =
    let rest = le_text a b in if ltb x y then true else if ltb y x then false else rest

pub text_total : (a b : Text) → le_text a b ≡ false → le_text b a ≡ true
unfolding le_text
text_total [] b h = cc
text_total (x ∷ a) [] h = refl
text_total (x ∷ a) (y ∷ b) h = ground (arith, text_total a b)

pub text_trans : (a b c : Text) → le_text a b ≡ true → le_text b c ≡ true → le_text a c ≡ true
unfolding le_text
text_trans [] b c h k = refl
text_trans (x ∷ a) [] c h k = cc
text_trans (x ∷ a) (y ∷ b) [] h k = cc
text_trans (x ∷ a) (y ∷ b) (z ∷ c) h k = ground (arith, text_trans a b c)

pub text_antisymm : (a b : Text) → le_text a b ≡ true → le_text b a ≡ true → a ≡ b
unfolding le_text
text_antisymm [] [] h k = refl
text_antisymm [] (y ∷ b) h k = cc
text_antisymm (x ∷ a) [] h k = cc
text_antisymm (x ∷ a) (y ∷ b) h k = ground (arith, text_antisymm a b)

abbrev pub text_ord : Ord Text
text_ord = record { le = le_text; total = text_total; trans = text_trans; antisymm = text_antisymm }

unfoldable pub text_discrete : Discrete Text
text_discrete = hlevel ℕ_discrete

instance abbrev pub text_eq : Eq Text
text_eq = record { dec = text_discrete }

instance abbrev pub nat_eq : Eq ℕ
nat_eq = record { dec = ℕ_discrete }
