-- ===== src/Indices/Graph/Compiled.antt =====
-- graph.py, `_on_build_end` and `expand`: which steps an expansion of a built graph can take.
use vitruvio.Prelude.{
  ℕ, List, [], ◌∷◌, Bool, true, false, if◌then◌else◌, map, foldl, filterb, sort, In-sort, set_of,
  In-union, In-append, In-map_of, In-map_inv, In-filterb, Text, Eq, nat_eq, text_eq, Dict, lookup,
  get_or, In, enumerate, ◌≡◌, ◌↔◌, ◌∙◌, inl, inr, refl, sym, ap, ap₂, subst, arith, Option-cases,
  le_text, leb,
}
use vitruvio.Indices.Queries.{TraversalQuery}
use vitruvio.Indices.Ordinals.{OrdinalTable}
use vitruvio.Indices.Graph.{
  Floats, Raw, Label, Graph, connect, finish, number, mentioned, le_label, follows, labels_between,
  adjacent, steps, steps_to, pair_eq,
}
use vitruvio.Indices.Graph.Edges.{Joins, label_of, lookup-map_values, Linked, link-Linked, chain}

module _ {K A : Type 0} ⦃e : Eq K⦄ (f : List A → List A) where
  -- Values that are put into another order keep their members.
  In-map_values :
      ((a : A) (xs : List A) → In a (f xs) ↔ In a xs)
      → (d : Dict K (List A)) (k : K) (a : A)
      → In a (get_or (map (λ (x : K × List A). (x.0, f x.1)) d) k []) ↔ In a (get_or d k [])
  In-map_values same d k a = elim (Option-cases (lookup d k)) [
    | inl h ↦
        subst (λ xs. In a xs ↔ In a (get_or d k [])) (ground (arith, lookup-map_values f d k))
          ((λ m. m), (λ m. ground (arith, h, m)))
    | inr (xs, h) ↦
        let there : get_or d k [] ≡ xs = ground arith in
        let put : get_or (map (λ (x : K × List A). (x.0, f x.1)) d) k [] ≡ f xs =
          ground (arith, lookup-map_values f d k) in
        rw (put, there) (same a xs)
  ]

In-sorted_set : (a : ℕ) (xs : List ℕ) → In a (sort leb (set_of xs)) ↔ In a xs
In-sorted_set a xs = ground (arith, In-sort leb a (set_of xs), In-union [] xs a)

module _ {F : Type 0} (g : Graph F) (query : TraversalQuery F) where
  abbrev Followed : ℕ → ℕ → F → Type 0
  Followed n m w =
      (l : Label F) × In l (labels_between g query.inbound n m)
      × (follows query l ≡ true)
      × (w ≡ l.2)

  -- The steps of a node, one for each label that the query follows.
  In-steps_to :
      (n m : ℕ) (w : F) (ns : List ℕ)
      → In (m, w) (steps_to g query n ns) ↔ (In m ns × Followed n m w)
  unfolding steps_to
  In-steps_to n m w [] = ((λ f. absurd f), (λ f. absurd f.0))
  In-steps_to n m w (v ∷ ns) = (
    (λ i. elim ((In-append (m, w) here (steps_to g query n ns)).0 i) [
      | inl k ↦
          let (l, j, q) = In-map_inv (λ (l : Label F). (v, l.2)) (m, w) kept k in
          let c = (In-filterb (follows query) l _).0 j in
          let p : v ≡ m = ap (λ (x : ℕ × F). x.0) q in
          (
            inl (sym p),
            (
              l,
              subst (λ x. In l (labels_between g query.inbound n x)) p c.0,
              c.1,
              ap (λ (x : ℕ × F). x.1) (sym q),
            ),
          )
      | inr k ↦ let (j, c) = (In-steps_to n m w ns).0 k in (inr j, c)
    ]),
    (λ (i, c). (In-append (m, w) here (steps_to g query n ns)).1 (elim i [
      | inl p ↦
          let (l, j, f, q) = c in
          inl (
            subst (λ x. In x here) (ap₂ (λ (x : ℕ) (y : F). (x, y)) (sym p) (sym q))
              (In-map_of (λ (l : Label F). (v, l.2)) l kept
                ((In-filterb (follows query) l _).1
                  (subst (λ x. In l (labels_between g query.inbound n x)) p j, f))))
      | inr k ↦ inr ((In-steps_to n m w ns).1 (k, c))
    ])),
  )
    where
      kept : List (Label F)
      kept = filterb (follows query) (labels_between g query.inbound n v)

      here : List (ℕ × F)
      here = map (λ (l : Label F). (v, l.2)) kept

-- The adjacency is as `_reset` leaves it: no build has been finished since.
pub record IsFresh {F : Type 0} (g : Graph F) : Type 0 where
  pub out : g.out ≡ []
  pub into : g.into ≡ []
  pub kinds : g.kinds ≡ []

module _ {F : Type 0} (floats : Floats F) (table : OrdinalTable) (g : Graph F) where
  -- The number that a build gives to each identity.
  abbrev pub numbering : Dict Text ℕ
  numbering = enumerate (sort le_text (mentioned table.identities g.raw))

  -- An edge is one of the build's, and leads from the first node to the second, or back if inbound.
  abbrev pub Leads : Bool → ℕ → ℕ → Raw F → Type 0
  Leads inbound n m e =
      In e g.raw × Joins numbering e (if inbound then m else n) (if inbound then n else m)

  start-Linked : IsFresh g → Linked numbering [] (number floats table g)
  unfolding lookup
  start-Linked fresh = record {
    at = refl;
    heads = λ u v. rw fresh.out none_yet;
    tails = λ u v. rw fresh.into none_yet;
    labels = λ u v l. rw fresh.kinds none_yet;
  }
    where
      none_yet : {P : Raw F → Type 0} → ⊥ ↔ ((e : Raw F) × ⊥ × P e)
      none_yet = ((λ f. absurd f), (λ (e, f, p). f))

  -- The edges that the adjacency holds are those of the list.
  abbrev linked : Graph F
  linked = foldl (λ s e. connect e s) (number floats table g) g.raw

  all-Linked :
      IsFresh g
      → (all : List (Raw F)) × ((e : Raw F) → In e all ↔ In e g.raw) × Linked numbering all linked
  all-Linked fresh =
      let (all, same, held) =
        link-Linked numbering g.raw [] (number floats table g) (start-Linked fresh) in
      (all, (λ e. ground (arith, same e)), held)

  among :
      (P : Raw F → Type 0) (all : List (Raw F))
      → ((e : Raw F) → In e all ↔ In e g.raw)
      → ((e : Raw F) × In e all × P e) ↔ ((e : Raw F) × (In e g.raw × P e))
  among P all same = ((λ (e, i, p). (e, ((same e).0 i, p))), (λ (e, c). (e, (same e).1 c.0, c.1)))

  finish-adjacent :
      (inbound : Bool) (n m : ℕ)
      → IsFresh g
      → In m (adjacent (finish floats table g) inbound n) ↔ ((e : Raw F) × Leads inbound n m e)
  unfolding finish
  finish-adjacent true n m fresh =
      let (all, same, held) = all-Linked fresh in
      chain (In-map_values (λ xs. sort leb (set_of xs)) In-sorted_set linked.into n m)
        (chain (held.tails m n) (among (λ e. Joins numbering e m n) all same))
  finish-adjacent false n m fresh =
      let (all, same, held) = all-Linked fresh in
      chain (In-map_values (λ xs. sort leb (set_of xs)) In-sorted_set linked.out n m)
        (chain (held.heads n m) (among (λ e. Joins numbering e n m) all same))

  labels_from :
      (u v : ℕ) (l : Label F)
      → IsFresh g
      → In l (get_or (finish floats table g).kinds (u, v) [])
        ↔ ((e : Raw F) × (In e g.raw × Joins numbering e u v) × (l ≡ label_of e))
  unfolding finish
  labels_from u v l fresh =
      let (all, same, held) = all-Linked fresh in
      chain
        (In-map_values (sort (le_label floats)) (In-sort (le_label floats)) linked.kinds (u, v) l)
        (chain (held.labels u v l) (
          (λ (e, i, c). (e, ((same e).0 i, c.0), c.1)),
          (λ (e, c, q). (e, (same e).1 c.0, (c.1, q))),
        ))

  finish-labels :
      (inbound : Bool) (n m : ℕ) (l : Label F)
      → IsFresh g
      → In l (labels_between (finish floats table g) inbound n m)
        ↔ ((e : Raw F) × Leads inbound n m e × (l ≡ label_of e))
  unfolding finish
  finish-labels true n m l fresh = labels_from m n l fresh
  finish-labels false n m l fresh = labels_from n m l fresh

  -- When a build ends on an adjacency as `_reset` leaves it, the steps from one node to another are
  -- just the edges of the list between them, from the second to the first if the query is inbound,
  -- whose kind and predicate the query follows, each with its weight.
  pub steps-finish :
      (query : TraversalQuery F) (n m : ℕ) (w : F)
      → IsFresh g
      → In (m, w) (steps (finish floats table g) query n) ↔ (
          (e : Raw F) × Leads query.inbound n m e
          × (follows query (label_of e) ≡ true)
          × (w ≡ e.weight))
  unfolding steps
  steps-finish query n m w fresh =
      chain
        (In-steps_to (finish floats table g) query n m w
          (adjacent (finish floats table g) query.inbound n))
        (
          (λ (i, c).
              let (l, j, f, q) = c in
              let (e, leads, p) = (finish-labels query.inbound n m l fresh).0 j in
              (e, leads, subst (λ x. follows query x ≡ true) p f, q ∙ ap (λ (x : Label F). x.2) p)),
          (λ (e, leads, f, q). (
            (finish-adjacent query.inbound n m fresh).1 (e, leads),
            (
              label_of e,
              (finish-labels query.inbound n m (label_of e) fresh).1 (e, leads, refl),
              f,
              q,
            ),
          )),
        )
