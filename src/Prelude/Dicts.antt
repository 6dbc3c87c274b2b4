-- ===== src/Prelude/Dicts.antt =====
-- Python's `dict` as the list of its items in insertion order: a write to a key that is present
-- keeps its place, and a new key goes to the end.
use vitruvio.Prelude.Tests.{Eq}
use vitruvio.Prelude.Membership.{In, Distinct}
use mathlib.Core.Path.{◌≡◌, refl, ap, subst, sym, ◌∙◌}
use mathlib.Core.Logic.{◌⊎◌, inl, inr, ◌↔◌, ite, if_neg}
use mathlib.Core.Option.{Option, none, some}
use mathlib.Core.List.{List, [], ◌∷◌, map}
use native.Mathlib.Omega.{arith}

abbrev pub Dict : Type 0 → Type 0 → Type 0
Dict K V = List (K × V)

module _ {K V : Type 0} where
  abbrev pub keys : Dict K V → List K
  keys = map (λ e. e.0)

  abbrev pub values : Dict K V → List V
  values = map (λ e. e.1)

module _ {K V : Type 0} ⦃e : Eq K⦄ where
  -- d.get(k)
  unfoldable pub lookup : Dict K V → K → Option V
  lookup [] k = none
  lookup ((j, v) ∷ d) k = ite (e.dec j k) (some v) (lookup d k)

  -- d.get(k, default)
  abbrev pub get_or : Dict K V → K → V → V
  get_or d k default = elim (lookup d k) [ none ↦ default | some v ↦ v ]

  -- d[k] = v
  unfoldable pub insert : Dict K V → K → V → Dict K V
  insert [] k v = (k, v) ∷ []
  insert ((j, w) ∷ d) k v = let rest = insert d k v in ite (e.dec j k) ((j, v) ∷ d) ((j, w) ∷ rest)

  -- d.setdefault(k, default), changed by f: the mutation of the value that it returns
  abbrev pub update : Dict K V → K → V → (V → V) → Dict K V
  update d k default f = insert d k (f (get_or d k default))

  pub lookup-insert :
      (d : Dict K V) (k j : K) (v : V)
      → lookup (insert d k v) j ≡ ite (e.dec k j) (some v) (lookup d j)
  unfolding lookup insert
  lookup-insert [] k j v = refl
  lookup-insert ((i, w) ∷ d) k j v = ground (arith, lookup-insert d k j v)

  pub In-keys-insert :
      (d : Dict K V) (k j : K) (v : V) → In j (keys (insert d k v)) ↔ ((j ≡ k) ⊎ In j (keys d))
  unfolding insert
  In-keys-insert [] k j v = (λ m. m, λ m. m)
  In-keys-insert ((i, w) ∷ d) k j v = ground (arith, In-keys-insert d k j v)

  pub Distinct-insert :
      (d : Dict K V) (k : K) (v : V) → Distinct (keys d) → Distinct (keys (insert d k v))
  unfolding insert
  Distinct-insert [] k v h = (λ m. m, tt)
  Distinct-insert ((i, w) ∷ d) k v h =
      ground (arith, Distinct-insert d k v h.1, In-keys-insert d k i v)

  pub lookup-some_key : (d : Dict K V) (k : K) (v : V) → lookup d k ≡ some v → In k (keys d)
  unfolding lookup
  lookup-some_key [] k v h = cc
  lookup-some_key ((i, w) ∷ d) k v h = ground (arith, lookup-some_key d k v)

  pub lookup-some-In : (d : Dict K V) (k : K) (v : V) → lookup d k ≡ some v → In (k, v) d
  unfolding lookup
  lookup-some-In [] k v h = cc
  lookup-some-In ((i, w) ∷ d) k v h = ground (arith, lookup-some-In d k v)

  pub lookup-none_of : (d : Dict K V) (k : K) → ¬ In k (keys d) → lookup d k ≡ none
  unfolding lookup
  lookup-none_of [] k h = refl
  lookup-none_of ((i, w) ∷ d) k h = ground (arith, lookup-none_of d k)

  pub get_or-insert :
      (d : Dict K V) (k j : K) (v default : V)
      → get_or (insert d k v) j default ≡ ite (e.dec k j) v (get_or d j default)
  get_or-insert d k j v default = ground (arith, lookup-insert d k j v)

  pub In-key : (d : Dict K V) (k : K) (v : V) → In (k, v) d → In k (keys d)
  In-key [] k v m = m
  In-key ((i, w) ∷ d) k v (inl q) = inl (ap (λ (x : K × V). x.0) q)
  In-key ((i, w) ∷ d) k v (inr m) = inr (In-key d k v m)

  -- An item of a dictionary is what a lookup of its key gives.
  pub In-lookup :
      (d : Dict K V) (k : K) (v : V) → Distinct (keys d) → In (k, v) d → lookup d k ≡ some v
  unfolding lookup
  In-lookup [] k v h m = absurd m
  In-lookup ((i, w) ∷ d) k v h (inl q) =
      ground (arith, ap (λ (x : K × V). x.0) q, ap (λ (x : K × V). x.1) q)
  In-lookup ((i, w) ∷ d) k v h (inr m) = elim (e.dec i k) [
    | yes p ↦ absurd (h.0 (subst (λ j. In j (keys d)) (sym p) (In-key d k v m)))
    | no p ↦ if_neg (e.dec i k) p _ _ ∙ In-lookup d k v h.1 m
  ]
