-- ===== src/Planner/Templates/Navigational.antt =====
-- intent.py and templates.py together: a query of filters without text is planned without the
-- generators that need one.
use vitruvio.Prelude.{
  List, [], ◌∷◌, some, true, filterb, contains, contains_iff, In, In-filterb, Eq, ◌≡◌, ◌⊎◌, inl,
  inr, refl, subst, ◌∙◌, Option-cases,
}
use vitruvio.Planner.Ir.{Op, op_eq, Node, seq_scan, date_scan, graph_expand}
use vitruvio.Planner.Intent.{
  auto, navigational, Asking, classify, kind_for_mode, kind_of_text, is_digest,
  admissible_generators, requires,
}
use vitruvio.Planner.Templates.{Value, Request}
use vitruvio.Planner.Templates.Enumeration.{available, permitted_for, generator_sets}
use vitruvio.Planner.Templates.Subsets.{IsSublist, generator_sets_exact}

IsSublist-In : (set held : List Op) (g : Op) → IsSublist set held → In g set → In g held
IsSublist-In [] held g h m = absurd m
IsSublist-In (x ∷ set) [] g h m = absurd h
IsSublist-In (x ∷ set) (y ∷ held) g (inl (e, h)) (inl q) = inl (q ∙ e)
IsSublist-In (x ∷ set) (y ∷ held) g (inl (e, h)) (inr m) = inr (IsSublist-In set held g h m)
IsSublist-In (x ∷ set) (y ∷ held) g (inr h) m = inr (IsSublist-In (x ∷ set) held g h m)

only : (g h : Op) → In g (h ∷ []) → g ≡ h
only g h (inl q) = q
only g h (inr n) = absurd n

-- The kind of a query with filters and no text.
classify-blank :
    (a : Asking)
    → a.mode ≡ auto
    → a.stripped ≡ []
    → a.has_filters ≡ true
    → classify a ≡ navigational
unfolding classify kind_for_mode kind_of_text is_digest
classify-blank a mode blank filters =
    rw (mode, blank, filters, classify, kind_for_mode, kind_of_text, is_digest) refl

module _ {F : Type 0} ⦃e : Eq (Node (Value F))⦄ (r : Request F) where
  -- A generator that needs no text.
  abbrev pub IsTextless : Op → Type 0
  IsTextless g = (g ≡ graph_expand) ⊎ ((g ≡ date_scan) ⊎ (g ≡ seq_scan))

  textless_names : List Op
  textless_names = graph_expand ∷ date_scan ∷ []

  permitted_names :
      r.kind ≡ navigational
      → (names : List Op) × (permitted_for r ≡ some names) × ((g : Op) → In g names → IsTextless g)
  unfolding permitted_for textless_names
  permitted_names k = elim (Option-cases (admissible_generators r.mode)) [
    | inl f ↦ rw (k, f, permitted_for) (textless_names, refl, λ g m. named g m)
    | inr (held, f) ↦
        rw (k, f, permitted_for)
          (
            filterb (contains textless_names) held,
            refl,
            λ g m. named g (
                (contains_iff textless_names g).0
                  ((In-filterb (contains textless_names) g held).0 m).1),
          )
  ]
    where
      named : (g : Op) → In g textless_names → IsTextless g
      named g (inl q) = inl q
      named g (inr (inl q)) = inr (inl q)
      named g (inr (inr n)) = absurd n

  available-IsTextless :
      (g : Op) → r.kind ≡ navigational → In g (available r (permitted_for r)) → IsTextless g
  unfolding available
  available-IsTextless g k m =
      let (names, q, h) = permitted_names k in
      let n : In g (available r (some names)) = subst (λ o. In g (available r o)) q m in
      h g ((contains_iff names g).0 ((In-filterb (contains names) g _).0 n).1)

  -- If a query's kind is what its classification gives, its mode is automatic, and it has filters and
  -- no text, then every generator of every set that is costed for it needs no text: it expands
  -- the graph, scans the dates, or scans the blocks.
  pub generators-IsTextless :
      (a : Asking) (set : List Op) (g : Op)
      → r.kind ≡ classify a
      → a.mode ≡ auto
      → a.stripped ≡ []
      → a.has_filters ≡ true
      → In set (generator_sets r (permitted_for r) (requires r.mode))
      → In g set
      → IsTextless g
  generators-IsTextless a set g k mode blank filters m i =
      let navigated = k ∙ classify-blank a mode blank filters in
      elim ((generator_sets_exact r (permitted_for r) (requires r.mode) set).0 m) [
        | inl (_, q) ↦ inr (inl (only g date_scan (subst (In g) q i)))
        | inr (_, inl (h, _, _)) ↦
            available-IsTextless g navigated
              (IsSublist-In set (available r (permitted_for r)) g h i)
        | inr (_, inr (_, q)) ↦ inr (inr (only g seq_scan (subst (In g) q i)))
      ]
