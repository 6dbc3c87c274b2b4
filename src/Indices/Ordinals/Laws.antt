-- ===== src/Indices/Ordinals/Laws.antt =====
-- base.py, `OrdinalTable`: the two directions of the table agree, ordinals follow the order of the
-- identities, and the table depends on the set of identities alone.
use vitruvio.Prelude.{
  ℕ, ◌≤◌, ◌<◌, leb, List, [], some, get_elem?, arith, ◌≡◌, ◌↔◌, sym, ap, subst, In, Distinct,
  In-get_elem?, In-position, position_unique, IsSorted, In-sort, Distinct-sort, IsSorted-sort,
  IsSorted-get_elem?, sort_canonical, text_ord, text_total, text_trans, text_eq, set_of, In-union,
  Distinct-union, Text, le_text, lookup-enumerate, sort, enumerate, get_elem?-lt, get_elem?-none,
  true, dec_le, nat_eq, In-filter_some_of, In-filter_some_inv, filter_some,
}
use vitruvio.Indices.Ordinals.{OrdinalTable, init, size, ordinal, identity, ordinals, resolve}

abbrev held : List Text → List Text
held ids = sort le_text (set_of ids)

held-Distinct : (ids : List Text) → Distinct (held ids)
held-Distinct ids = Distinct-sort le_text (set_of ids) (Distinct-union [] ids tt)

In-held : (ids : List Text) (x : Text) → In x (held ids) ↔ In x ids
In-held ids x = ground (arith, In-sort le_text x (set_of ids), In-union [] ids x)

held-IsSorted : (ids : List Text) → IsSorted le_text (held ids)
held-IsSorted ids = IsSorted-sort le_text text_total text_trans (set_of ids)

pub identity_lem : (t : OrdinalTable) (i : ℕ) → identity t i ≡ get_elem? t.identities i
unfolding identity
identity_lem t i = ground (arith, get_elem?-none t.identities i)

-- An identity has an ordinal exactly if that ordinal has that identity.
pub ordinal-identity :
    (ids : List Text) (x : Text) (i : ℕ)
    → (ordinal (init ids) x ≡ some i) ↔ (identity (init ids) i ≡ some x)
unfolding init ordinal
ordinal-identity ids x i =
    ground (arith, lookup-enumerate (held ids) x i (held-Distinct ids), identity_lem (init ids) i)

-- Every identity given is held, under an ordinal below the size, and nothing else is.
pub ordinal-lt-size :
    (ids : List Text) (x : Text)
    → (In x ids → (i : ℕ) × (ordinal (init ids) x ≡ some i) × (i < size (init ids)))
      × ((i : ℕ) → ordinal (init ids) x ≡ some i → In x ids)
unfolding init ordinal
ordinal-lt-size ids x = (
  λ m.
      let (i, g) = In-position (held ids) x ((In-held ids x).1 m) in
      (i, (lookup-enumerate (held ids) x i (held-Distinct ids)).1 g, get_elem?-lt (held ids) i x g),
  λ i h.
      (In-held ids x).0
        (In-get_elem? (held ids) i x ((lookup-enumerate (held ids) x i (held-Distinct ids)).0 h)),
)

-- The ordinals of two identities are ordered as the identities are.
pub ordinal_order :
    (ids : List Text) (x y : Text) (i j : ℕ)
    → ordinal (init ids) x ≡ some i
    → ordinal (init ids) y ≡ some j
    → (i ≤ j) ↔ (le_text x y ≡ true)
unfolding init ordinal
ordinal_order ids x y i j hx hy =
    let gx = (lookup-enumerate (held ids) x i (held-Distinct ids)).0 hx in
    let gy = (lookup-enumerate (held ids) y j (held-Distinct ids)).0 hy in
    (
      IsSorted-get_elem? text_ord (held ids) i j x y (held-IsSorted ids) gx gy,
      λ le. elim (dec_le i j) [
        | yes p ↦ p
        | no p ↦
            let back =
              IsSorted-get_elem? text_ord (held ids) j i y x (held-IsSorted ids) gy gx
                (omega arith) in
            let e = text_ord.antisymm x y le back in
            omega (
              arith,
              position_unique (held ids) x i j (held-Distinct ids) gx
                  (subst (λ z. get_elem? (held ids) j ≡ some z) (sym e) gy),
            )
      ],
    )

-- Tables over two lists of identities with the same members are equal.
pub init_canonical :
    (ids ids' : List Text) → ((x : Text) → In x ids ↔ In x ids') → init ids ≡ init ids'
unfolding init
init_canonical ids ids' h =
    let e : held ids ≡ held ids' =
      sort_canonical text_ord (set_of ids) (set_of ids') (Distinct-union [] ids tt)
        (Distinct-union [] ids' tt)
        λ x. ground (arith, h x, In-union [] ids x, In-union [] ids' x) in
    ap (λ (l : List Text). record { identities = l; ordinals = enumerate l }) e

In-ordinals :
    (t : OrdinalTable) (xs : List Text) (i : ℕ)
    → In i (sort leb (ordinals t xs)) ↔ In i (filter_some (ordinal t) xs)
unfolding ordinals
In-ordinals t xs i =
    ground (arith, In-sort leb i (ordinals t xs), In-union [] (filter_some (ordinal t) xs) i)

-- Translating identities to ordinals and back gives those that are held, and no others.
pub resolve-ordinals :
    (ids xs : List Text) (x : Text)
    → In x (resolve (init ids) (ordinals (init ids) xs)) ↔ (In x ids × In x xs)
unfolding resolve
resolve-ordinals ids xs x = (back, forth)
  where
    t : OrdinalTable
    t = init ids

    back : In x (resolve t (ordinals t xs)) → In x ids × In x xs
    back m =
        let (i, n, g) = In-filter_some_inv (identity t) x (sort leb (ordinals t xs)) m in
        let (y, k, h) = In-filter_some_inv (ordinal t) i xs ((In-ordinals t xs i).0 n) in
        let same : y ≡ x = cc ((ordinal-identity ids y i).0 h) in
        ((ordinal-lt-size ids x).1 i ((ordinal-identity ids x i).1 g), subst (λ z. In z xs) same k)

    forth : In x ids × In x xs → In x (resolve t (ordinals t xs))
    forth m =
        let (i, h, _) = (ordinal-lt-size ids x).0 m.0 in
        In-filter_some_of (identity t) x i (sort leb (ordinals t xs))
          ((In-ordinals t xs i).1 (In-filter_some_of (ordinal t) i x xs m.1 h))
          ((ordinal-identity ids x i).0 h)

-- The identities of a table, as its other users read them.
pub In-identities : (ids : List Text) (x : Text) → In x (init ids).identities ↔ In x ids
unfolding init
In-identities ids x = In-held ids x

pub identities-Distinct : (ids : List Text) → Distinct (init ids).identities
unfolding init
identities-Distinct ids = held-Distinct ids
