-- ===== src/Indices/BTree.antt =====
-- btree.py, `BTreeIndex`: range, prefix and equality scans over sorted parallel arrays.
pub mod Encode
pub mod Bisect
mod Pairs
pub mod Built
pub mod Scan
pub mod Exact
pub mod Prefix
pub mod Histogram
use vitruvio.Prelude.{
  ℕ, zero, suc, ◌+◌, ◌-◌, ◌*◌, ◌/◌, ◌%◌, ◌^◌, ltb, leb, ◌==◌, if◌then◌else◌, List, [], ◌∷◌, ◌++◌,
  Option, none, some, Bool, true, false, ◌&&◌, ◌||◌, not, map, foldl, length, is_nil, filterb,
  filter_some, slice, take, drop, get_elem?, sort, Text, le_text, text_eq, nat_eq, Dict, lookup,
  insert, get_or, update, contains, set_of, min, max,
}
use vitruvio.Indices.Projection.{
  OrderedKey, ordered_key_eq, occurred_at, ended_at, recorded_at, KeyValue, string, int, Projection,
}
use vitruvio.Indices.Ordinals
use vitruvio.Indices.Ordinals.{OrdinalTable}
use vitruvio.Indices.Queries.{Order, ascending, descending, RangeQuery}
use vitruvio.Indices.Base.{Kind}

-- `_ordinal_values`, a cache of `value_for`, is computed anew where it is used.
pub record BTree : Type 0 where
  pub values : Dict OrderedKey (List Text)
  pub owners : Dict OrderedKey (List ℕ)
  pub pending : Dict OrderedKey (List (Text × ℕ))

unfoldable pub reset : BTree
reset = record { values = []; owners = []; pending = [] }

-- the last w decimal digits, as characters
pub digits : ℕ → ℕ → Text
digits zero n = []
digits (suc w) n = (b'0' + n / 10 ^ w % 10) ∷ digits w n

-- how many digits n has, by at most `fuel` divisions
pub width : ℕ → ℕ → ℕ
width zero n = 1
width (suc fuel) n = let rest = width fuel (n / 10) in if ltb n 10 then 1 else suc rest

-- f"{n:020d}": at least twenty digits
unfoldable pub encode_int : ℕ → Text
unfolding digits width
encode_int n = digits (max 20 (width n n)) n

unfoldable pub encode : KeyValue → Text
unfolding encode_int
encode (string value) = value
encode (int value) = encode_int value

-- the loop of `_apply` over the projection's keys
unfoldable pub collect : ℕ → List (OrderedKey × KeyValue) → BTree → BTree
unfolding encode
collect ordinal [] b = b
collect ordinal ((key, value) ∷ rest) b =
    collect ordinal rest (record b {
      pending = update b.pending key [] (λ held. held ++ (encode value, ordinal) ∷ []);
    })

module _ {W : Type 0} where
  -- `_apply`
  unfoldable pub apply : OrdinalTable → Projection W → BTree → BTree
  unfolding collect
  apply table projection b = elim (Ordinals.ordinal table projection.block_id) [
    | none ↦ b
    | some ordinal ↦ collect ordinal projection.keys b
  ]

-- the order of tuples
abbrev pub le_pair : Text × ℕ → Text × ℕ → Bool
le_pair (a, i) (b, j) = if le_text a b then if le_text b a then leb i j else true else false

-- the loop of `_on_build_end`
unfoldable pub arrange : List (OrderedKey × List (Text × ℕ)) → BTree → BTree
arrange [] b = b
arrange ((key, pairs) ∷ rest) b =
    let sorted = sort le_pair pairs in
    arrange rest (record b {
      values = insert b.values key (map (λ (p : Text × ℕ). p.0) sorted);
      owners = insert b.owners key (map (λ (p : Text × ℕ). p.1) sorted);
    })

unfoldable pub finish : BTree → BTree
unfolding arrange
finish b = record (arrange b.pending b) { pending = [] }

abbrev pub btree : {W : Type 0} → Kind (Projection W) BTree
btree = record {
  block_id = λ p. p.block_id;
  reset = reset;
  apply = apply;
  finish = λ _ b. finish b;
}

-- values[i]; every read below is in range
abbrev pub at : List Text → ℕ → Text
at values i = elim (get_elem? values i) [ none ↦ [] | some v ↦ v ]

-- a < b
abbrev pub lt_text : Text → Text → Bool
lt_text a b = not (le_text b a)

-- bisect.bisect_left and bisect_right on values[lo:hi], by at most `fuel` halvings
pub bisect : (Text → Bool) → List Text → ℕ → ℕ → ℕ → ℕ
bisect right values zero lo hi = lo
bisect right values (suc fuel) lo hi =
    let mid = (lo + hi) / 2 in
    let above = bisect right values fuel (mid + 1) hi in
    let below = bisect right values fuel lo mid in
    if ltb lo hi then if right (at values mid) then above else below else lo

unfoldable pub bisect_left : List Text → Text → ℕ → ℕ → ℕ
unfolding bisect
bisect_left values x lo hi = bisect (λ v. lt_text v x) values (hi - lo) lo hi

unfoldable pub bisect_right : List Text → Text → ℕ → ℕ → ℕ
unfolding bisect
bisect_right values x lo hi = bisect (λ v. le_text v x) values (hi - lo) lo hi

-- max(a, b) and min(a, b) of texts
abbrev pub max_text : Text → Text → Text
max_text a b = if lt_text a b then b else a

abbrev pub min_text : Text → Text → Text
min_text a b = if lt_text b a then b else a

-- PREFIX_CEILING, U+FFFF
abbrev pub prefix_ceiling : Text
prefix_ceiling = 0xFFFF ∷ []

abbrev pub encoded : Option KeyValue → Option Text
encoded none = none
encoded (some value) = some (encode value)

-- the bounds of a scan, once a prefix has narrowed them; an empty prefix is none
unfoldable pub bounds : Option Text → Option Text → Option Text → Option Text × Option Text
bounds low high none = (low, high)
bounds low high (some []) = (low, high)
bounds low high (some (c ∷ cs)) =
    let prefix = c ∷ cs in
    let ceiling = prefix ++ prefix_ceiling in
    (
      some (elim low [ none ↦ prefix | some l ↦ max_text l prefix ]),
      some (elim high [ none ↦ ceiling | some h ↦ min_text h ceiling ]),
    )

unfoldable pub start_of : List Text → Option Text → ℕ
unfolding bisect_left
start_of values none = 0
start_of values (some low) = bisect_left values low 0 (length values)

unfoldable pub end_of : List Text → Option Text → ℕ
unfolding bisect_right
end_of values none = length values
end_of values (some high) = bisect_right values high 0 (length values)

-- the descending loop: whole groups of equal values, from the last, each in its own order
pub descend : ℕ → List Text → List ℕ → ℕ → ℕ → List ℕ → List ℕ
unfolding bisect_left
descend zero values owners start cursor selected = selected
descend (suc fuel) values owners start cursor selected =
    let first = bisect_left values (at values (cursor - 1)) start cursor in
    let rest = descend fuel values owners start first (selected ++ slice first cursor owners) in
    if ltb start cursor then rest else selected

abbrev pub select : Order → List Text → List ℕ → ℕ → ℕ → List ℕ
select descending values owners start end = descend (end - start) values owners start end []
select ascending values owners start end = slice start end owners

-- the end of `scan`: the ordinals that an earlier filter left
abbrev pub allowed : Option (List ℕ) → List ℕ → List ℕ
allowed none selected = selected
allowed (some allow) selected = filterb (contains (set_of allow)) selected

unfoldable pub scan : BTree → RangeQuery → List ℕ
unfolding bounds start_of end_of descend
scan b query =
    let values = get_or b.values query.key [] in
    let owners = get_or b.owners query.key [] in
    let (low, high) = bounds (encoded query.low) (encoded query.high) query.prefix in
    let start = start_of values low in
    let end = end_of values high in
    if is_nil values || is_nil owners
    then []
    else if leb end start
    then []
    else allowed query.allow (select query.order values owners start end)

-- `estimate`: its rows
unfoldable pub estimate : BTree → RangeQuery → ℕ
unfolding scan
estimate b query = length (scan b query)

-- `value_for`: the dictionary {ordinal: value}, and the value of one ordinal
abbrev pub by_owner : List ℕ → List Text → Dict ℕ Text → Dict ℕ Text
by_owner (o ∷ owners) (v ∷ values) d = by_owner owners values (insert d o v)
by_owner _ _ d = d

unfoldable pub value_for : OrdinalTable → BTree → Text → OrderedKey → Option Text
value_for table b identity key = elim (Ordinals.ordinal table identity) [
  | none ↦ none
  | some ordinal ↦ lookup (by_owner (get_or b.owners key []) (get_or b.values key []) []) ordinal
]

-- `extremes`
unfoldable pub extremes : BTree → OrderedKey → Option (Text × Text)
extremes b key =
    let values = get_or b.values key [] in
    if is_nil values then none else some (at values 0, at values (length values - 1))

-- `window`: the bisect positions, and the bounds of the slice that is shown
pub record Window : Type 0 where
  pub total : ℕ
  pub start : ℕ
  pub end : ℕ
  pub left : ℕ
  pub right : ℕ

unfoldable pub window :
    BTree → OrderedKey → Option KeyValue → Option KeyValue → Option Text → ℕ → Window
unfolding bounds start_of end_of
window b key low high prefix limit =
    let values = get_or b.values key [] in
    let (low', high') = bounds (encoded low) (encoded high) prefix in
    let start = start_of values low' in
    let end = end_of values high' in
    let shown = max 1 limit in
    let left = max 0 (min ((start + end) / 2 - shown / 2) (length values - shown)) in
    if leb (length values) shown
    then record { total = length values; start = start; end = end; left = 0; right = length values }
    else record {
      total = length values;
      start = start;
      end = end;
      left = left;
      right = left + shown;
    }
