-- ===== src/Planner/Templates/Subsets.antt =====
-- templates.py, `_generator_sets`: the masks enumerate every subset of what is available.
use vitruvio.Prelude.{
  ℕ, zero, suc, ◌-◌, ◌*◌, ◌/◌, ◌%◌, ◌^◌, ◌<◌, ◌==◌, List, [], ◌∷◌, Option, Bool, true, false, not,
  if◌then◌else◌, is_nil, length, map, range_from, In, In-map_of, In-map_inv, In-filterb,
  In-range_from, Eq, inter, In-inter, ◌≡◌, ◌≢◌, ◌↔◌, ◌⊎◌, inl, inr, refl, sym, subst, ap, ◌∙◌,
  arith, Bool-cases,
}
use native.Mathlib.Nat.{pow-suc, div-div-eq-div-mul}
use vitruvio.Planner.Ir.{Op, op_eq, Node, seq_scan, date_scan}
use vitruvio.Planner.Templates.{Value, Request}
use vitruvio.Planner.Templates.Enumeration.{
  available, chosen, lacks, or_scan, date_scans, offered, generator_sets,
}

-- Some of a list's elements, in its order.
abbrev pub IsSublist : List Op → List Op → Type 0
IsSublist [] held = Unit
IsSublist (x ∷ set) [] = ⊥
IsSublist (x ∷ set) (y ∷ held) = ((x ≡ y) × IsSublist set held) ⊎ IsSublist (x ∷ set) held

-- the names at the bits of a number
abbrev picked : ℕ → List Op → List Op
picked bits [] = []
picked bits (name ∷ rest) =
    let later = picked (bits / 2) rest in if bits % 2 == 1 then name ∷ later else later

IsSublist-cons :
    (set : List Op) (y : Op) (held : List Op) → IsSublist set held → IsSublist set (y ∷ held)
IsSublist-cons [] y held h = tt
IsSublist-cons (x ∷ set) y held h = inr h

IsSublist-bit :
    (b : Bool) (name : Op) (set held : List Op)
    → IsSublist set held
    → IsSublist (if b then name ∷ set else set) (name ∷ held)
IsSublist-bit true name set held h = inl (refl, h)
IsSublist-bit false name set held h = IsSublist-cons set name held h

power_pos : (n : ℕ) → 0 < 2 ^ n
power_pos zero = omega arith
power_pos (suc n) = omega (arith, power_pos n, pow-suc 2 n)

halves : (bits : ℕ) → 0 < bits → (bits % 2 == 1) ≡ false → 0 < bits / 2
halves bits p t = ground arith

picked-IsSublist : (bits : ℕ) (held : List Op) → IsSublist (picked bits held) held
picked-IsSublist bits [] = tt
picked-IsSublist bits (name ∷ rest) =
    IsSublist-bit (bits % 2 == 1) name (picked (bits / 2) rest) rest
      (picked-IsSublist (bits / 2) rest)

-- the number of a set that has or lacks the first name, from that of the rest
with_first : (m n : ℕ) → m < 2 ^ n → suc (m * 2) < 2 ^ suc n
with_first m n l = omega (arith, l, pow-suc 2 n)

without_first : (m n : ℕ) → m < 2 ^ n → m * 2 < 2 ^ suc n
without_first m n l = omega (arith, l, pow-suc 2 n)

picked_zero : (held : List Op) → picked 0 held ≡ []
picked_zero [] = refl
picked_zero (name ∷ rest) = picked_zero rest

picked_odd :
    (m : ℕ) (name : Op) (rest : List Op) → picked (suc (m * 2)) (name ∷ rest) ≡ name ∷ picked m rest
picked_odd m name rest =
    let e : suc (m * 2) % 2 ≡ 1 = omega arith in
    let f : suc (m * 2) / 2 ≡ m = omega arith in rw (e, f) refl

picked_even : (m : ℕ) (name : Op) (rest : List Op) → picked (m * 2) (name ∷ rest) ≡ picked m rest
picked_even m name rest =
    let e : (m * 2) % 2 ≡ 0 = omega arith in let f : (m * 2) / 2 ≡ m = omega arith in rw (e, f) refl

picked_of :
    (set held : List Op)
    → IsSublist set held
    → (bits : ℕ) × (bits < 2 ^ length held) × (picked bits held ≡ set) × ((set ≡ []) ⊎ (0 < bits))
picked_of [] held h = (0, power_pos (length held), picked_zero held, inl refl)
picked_of (x ∷ set) [] h = absurd h
picked_of (x ∷ set) (y ∷ held) (inl (e, h)) =
    let (m, l, q, _) = picked_of set held h in
    (
      suc (m * 2),
      with_first m (length held) l,
      picked_odd m y held ∙ ap (λ z. z ∷ picked m held) (sym e) ∙ ap (λ zs. x ∷ zs) q,
      inr (omega arith),
    )
picked_of (x ∷ set) (y ∷ held) (inr h) =
    let (m, l, q, p) = picked_of (x ∷ set) held h in
    (
      m * 2,
      without_first m (length held) l,
      picked_even m y held ∙ q,
      elim p [ inl f ↦ absurd (cc) | inr k ↦ inr (omega (arith, k)) ],
    )

-- a number with a bit picks something
picked_some :
    (bits : ℕ) (held : List Op) → 0 < bits → bits < 2 ^ length held → picked bits held ≢ []
picked_some bits [] p l e = absurd (omega (arith, p, l))
picked_some bits (name ∷ rest) p l e = elim (Bool-cases (bits % 2 == 1)) [
  | inl t ↦ absurd (let f = rw (t, picked) at e in cc)
  | inr t ↦
      picked_some (bits / 2) rest (halves bits p t) (omega (arith, l, pow-suc 2 (length rest)))
        (rw (t, picked) at e)
]

-- Two lists have an element in common.
abbrev pub Shares : List Op → List Op → Type 0
Shares xs ys = (x : Op) × In x xs × In x ys

inter_nil : (xs ys : List Op) → (is_nil (inter xs ys) ≡ false) ↔ Shares xs ys
inter_nil xs ys = (
  λ h. forth (inter xs ys) (λ x m. (In-inter xs ys x).0 m) h,
  λ (x, m, n). back (inter xs ys) x ((In-inter xs ys x).1 (m, n)),
)
  where
    forth :
        (zs : List Op) → ((x : Op) → In x zs → In x xs × In x ys) → is_nil zs ≡ false → Shares xs ys
    forth [] h e = absurd (cc)
    forth (z ∷ zs) h e = let (a, b) = h z (inl refl) in (z, a, b)

    back : (zs : List Op) (x : Op) → In x zs → is_nil zs ≡ false
    back [] x m = absurd m
    back (z ∷ zs) x m = refl

-- A set has a mandatory generator, or none is mandatory, or none of them is available.
abbrev pub Meets : List Op → List Op → List Op → Type 0
Meets mandatory held set = (mandatory ≡ []) ⊎ (Shares mandatory set ⊎ (¬ Shares mandatory held))

not_lacking : (b : Bool) → b ≡ false → not b ≡ true
not_lacking b e = ground arith

module _ {F : Type 0} ⦃e : Eq (Node (Value F))⦄ (r : Request F) where
  lacks_exact :
      (mandatory held set : List Op)
      → (lacks r mandatory held set ≡ false) ↔ Meets mandatory held set
  lacks_exact [] held set = (λ _. inl refl, λ _. refl)
  lacks_exact (x ∷ mandatory) held set =
      ground (arith, inter_nil (x ∷ mandatory) set, inter_nil (x ∷ mandatory) held)

  chosen-picked :
      (mask position : ℕ) (held : List Op)
      → chosen r mask position held ≡ picked (mask / 2 ^ position) held
  unfolding chosen
  chosen-picked mask position [] = refl
  chosen-picked mask position (name ∷ rest) =
      let f : mask / 2 ^ suc position ≡ mask / 2 ^ position / 2 =
        ap (λ n. mask / n) (pow-suc 2 position) ∙ sym (div-div-eq-div-mul mask (2 ^ position) 2) in
      ap (λ later. if (mask / 2 ^ position) % 2 == 1 then name ∷ later else later)
        (chosen-picked mask (suc position) rest ∙ ap (λ n. picked n rest) f)

  In-masks :
      (held set : List Op)
      → In set (map (λ mask. chosen r mask 0 held) (range_from 1 (2 ^ length held - 1)))
        ↔ (IsSublist set held × (set ≢ []))
  In-masks held set = (
    λ m.
        let (bits, n, q) = In-map_inv (λ mask. chosen r mask 0 held) set _ m in
        let (low, high) = (In-range_from bits 1 _).0 n in
        let same = sym (start bits) ∙ q in
        (
          subst (λ s. IsSublist s held) same (picked-IsSublist bits held),
          λ f. picked_some bits held (omega (arith, low)) (omega (arith, low, high)) (same ∙ f),
        ),
    λ (h, n).
        let (bits, l, q, p) = picked_of set held h in
        subst (λ s. In s (map (λ mask. chosen r mask 0 held) (range_from 1 (2 ^ length held - 1))))
          (start bits ∙ q)
          (In-map_of (λ mask. chosen r mask 0 held) bits _
            ((In-range_from bits 1 _).1
              (elim p [ inl f ↦ absurd (n f) | inr k ↦ (omega (arith, k), omega (arith, k, l)) ]))),
  )
    where
      start : (bits : ℕ) → chosen r bits 0 held ≡ picked bits held
      start bits =
          let f : bits / 2 ^ 0 ≡ bits = omega arith in
          chosen-picked bits 0 held ∙ ap (λ n. picked n held) f

  -- A set that is worth costing: some of the available generators, with one of the mandatory.
  abbrev pub IsOffered : List Op → List Op → List Op → Type 0
  IsOffered held mandatory set = IsSublist set held × (set ≢ []) × Meets mandatory held set

  In-offered :
      (permitted : Option (List Op)) (mandatory set : List Op)
      → In set (offered r permitted mandatory) ↔ IsOffered (available r permitted) mandatory set
  unfolding offered
  In-offered permitted mandatory set =
      let held : List Op = available r permitted in
      (
        λ m.
            let (n, l) = (In-filterb (λ s. not (lacks r mandatory held s)) set _).0 m in
            let (a, b) = (In-masks held set).0 n in
            (a, b, (lacks_exact mandatory held set).0 (ground arith)),
        λ (a, b, k). (In-filterb (λ s. not (lacks r mandatory held s)) set _).1 (
          (In-masks held set).1 (a, b),
          not_lacking (lacks r mandatory held set) ((lacks_exact mandatory held set).1 k),
        ),
      )

  In-or_scan :
      (sets : List (List Op)) (set : List Op)
      → In set (or_scan r sets)
        ↔ (In set sets ⊎ (((other : List Op) → ¬ In other sets) × (set ≡ seq_scan ∷ [])))
  In-or_scan [] set = (
    λ m. elim m [ inl q ↦ inr ((λ other n. n), q) | inr n ↦ absurd n ],
    λ m. elim m [ inl n ↦ absurd n | inr (_, q) ↦ inl q ],
  )
  In-or_scan (first ∷ sets) set =
      (λ m. inl m, λ m. elim m [ inl n ↦ n | inr (k, _) ↦ absurd (k first (inl refl)) ])

  -- The generator sets are the date scan alone for a query of dates over scopes with an ordered index;
  -- else each non-empty set of available generators that has a mandatory one, if one is mandatory
  -- and available; and the sequential scan alone if there is no such set.
  pub generator_sets_exact :
      (permitted : Option (List Op)) (mandatory set : List Op)
      → In set (generator_sets r permitted mandatory) ↔ (
          ((date_scans r ≡ true) × (set ≡ date_scan ∷ []))
          ⊎ ((date_scans r ≡ false)
              × (IsOffered (available r permitted) mandatory set
                  ⊎ (((other : List Op) → ¬ IsOffered (available r permitted) mandatory other)
                      × (set ≡ seq_scan ∷ [])))))
  unfolding generator_sets
  generator_sets_exact permitted mandatory set = elim (Bool-cases (date_scans r)) [
    | inl t ↦
        rw (t, generator_sets)
          (
            λ m. elim m [ inl q ↦ inl (refl, q) | inr n ↦ absurd n ],
            λ m. elim m [ inl (_, q) ↦ inl q | inr (f, _) ↦ absurd (cc) ],
          )
    | inr t ↦
        rw (t, generator_sets)
          (
            λ m. inr (
              refl,
              elim ((In-or_scan (offered r permitted mandatory) set).0 m) [
                | inl n ↦ inl ((In-offered permitted mandatory set).0 n)
                | inr (k, q) ↦
                    inr ((λ other h. k other ((In-offered permitted mandatory other).1 h)), q)
              ],
            ),
            λ m. elim m [
              | inl (f, _) ↦ absurd (cc)
              | inr (_, h) ↦ (In-or_scan (offered r permitted mandatory) set).1 (elim h [
                | inl n ↦ inl ((In-offered permitted mandatory set).1 n)
                | inr (k, q) ↦
                    inr ((λ other n. k other ((In-offered permitted mandatory other).0 n)), q)
              ])
            ],
          )
  ]
