-- ===== src/Indices/BTree/Prefix.antt =====
-- btree.py, `scan` with a prefix: which values the ceiling lets through.
use vitruvio.Prelude.{
  ℕ, [], ◌∷◌, ◌++◌, Option, none, some, true, Text, le_text, ◌≡◌, ◌↔◌, ◌⊎◌, refl, ap₂, sym, ◌<◌,
  text_total, text_trans, arith,
}
use vitruvio.Indices.BTree.{bounds, prefix_ceiling, max_text, min_text}
use vitruvio.Indices.BTree.Scan.{Above, Below}

-- The value is the prefix and then the rest.
within :
    (prefix v ceiling : Text)
    → ((le_text prefix v ≡ true) × (le_text v (prefix ++ ceiling) ≡ true))
      ↔ ((rest : Text) × (v ≡ prefix ++ rest) × (le_text rest ceiling ≡ true))
unfolding le_text
within [] v ceiling = (λ h. (v, refl, h.1), λ (rest, e, h). ground arith)
within (x ∷ prefix) [] ceiling = (λ h. absurd (ground arith), λ (rest, e, h). absurd (ground arith))
within (x ∷ prefix) (y ∷ v) ceiling = (
  λ h.
      let same : x ≡ y = ground arith in
      let (rest, e, k) = (within prefix v ceiling).0 (ground arith) in
      (rest, ap₂ (λ (z : ℕ) (w : Text). z ∷ w) (sym same) e, k),
  λ (rest, e, k).
      let same : y ≡ x = ground arith in
      let tail : v ≡ prefix ++ rest = ground arith in
      let h = (within prefix v ceiling).1 (rest, tail, k) in ground arith,
)

-- What may follow the prefix: nothing, a first character before the ceiling, or the ceiling.
abbrev pub UnderCeiling : Text → Type 0
UnderCeiling [] = Unit
UnderCeiling (c ∷ cs) = (c < 0xFFFF) ⊎ ((c ≡ 0xFFFF) × (cs ≡ []))

UnderCeiling-le_text : (rest : Text) → (le_text rest prefix_ceiling ≡ true) ↔ UnderCeiling rest
unfolding le_text
UnderCeiling-le_text [] = ground arith
UnderCeiling-le_text (c ∷ []) = ground arith
UnderCeiling-le_text (c ∷ d ∷ cs) = ground arith

Above-max :
    (low : Option Text) (prefix v : Text)
    → Above (some (elim low [ none ↦ prefix | some l ↦ max_text l prefix ])) v
      ↔ (Above low v × (le_text prefix v ≡ true))
Above-max none prefix v = ground arith
Above-max (some l) prefix v =
    ground (
      arith,
      text_total l prefix,
      text_total prefix l,
      text_trans l prefix v,
      text_trans prefix l v,
    )

Below-min :
    (high : Option Text) (ceiling v : Text)
    → Below (some (elim high [ none ↦ ceiling | some h ↦ min_text h ceiling ])) v
      ↔ (Below high v × (le_text v ceiling ≡ true))
Below-min none ceiling v = ground arith
Below-min (some h) ceiling v = ground (
  arith,
  text_total h ceiling,
  text_total ceiling h,
  text_trans v h ceiling,
  text_trans v ceiling h,
)

-- Within the bounds that a prefix narrows are the values within the bounds given that are the
-- prefix followed by nothing, by a text whose first character is before U+FFFF, or by U+FFFF
-- alone: a value in which a later character follows the prefix is left out.
pub prefix_exact :
    (low high : Option Text) (c : ℕ) (cs v : Text)
    → (Above (bounds low high (some (c ∷ cs))).0 v × Below (bounds low high (some (c ∷ cs))).1 v)
      ↔ (Above low v × Below high v × ((rest : Text) × (v ≡ (c ∷ cs) ++ rest) × UnderCeiling rest))
unfolding bounds
prefix_exact low high c cs v = (
  λ (a, b).
      let (a', p) = (Above-max low (c ∷ cs) v).0 a in
      let (b', q) = (Below-min high ((c ∷ cs) ++ prefix_ceiling) v).0 b in
      let (rest, e, h) = (within (c ∷ cs) v prefix_ceiling).0 (p, q) in
      (a', b', (rest, e, (UnderCeiling-le_text rest).0 h)),
  λ (a, b, (rest, e, u)).
      let (p, q) =
        (within (c ∷ cs) v prefix_ceiling).1 (rest, e, (UnderCeiling-le_text rest).1 u) in
      (
        (Above-max low (c ∷ cs) v).1 (a, p),
        (Below-min high ((c ∷ cs) ++ prefix_ceiling) v).1 (b, q),
      ),
)
