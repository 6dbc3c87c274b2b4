-- ===== src/Stats/Versions.antt =====
-- catalog.py, `freshness_against`: which fragments may be costed against.
use vitruvio.Prelude.{Option, none, some, Text, ◌≡◌, ◌≢◌, ◌↔◌, arith, []}
use vitruvio.Stats.{StatsVersion, fresh, stale, resolvable, freshness_against, catalog_schema}

-- A version that never was stamped with a root agrees with any.
abbrev pub RootAgrees : Option Text → Text → Type 0
RootAgrees none root = Unit
RootAgrees (some held) root = held ≡ root

-- A fragment is fresh exactly if its schema is the current one, it has a fingerprint, its root, if
-- it was stamped, is the module's, and its fingerprint is that of the resolvable blocks; and it is
-- reported as a change of the resolvable blocks alone only if schema and root agree and the
-- fingerprint differs.
pub freshness_exact :
    (v : StatsVersion) (root fingerprint : Text)
    → ((freshness_against v root fingerprint ≡ fresh) ↔ (
        (v.schema ≡ catalog_schema)
        × (v.leaf_fingerprint ≢ [])
        × RootAgrees v.root root
        × (v.leaf_fingerprint ≡ fingerprint)))
      × (freshness_against v root fingerprint ≡ stale resolvable
          → (v.schema ≡ catalog_schema)
            × RootAgrees v.root root
            × (v.leaf_fingerprint ≢ fingerprint))
unfolding freshness_against
freshness_exact v root fingerprint = ground arith
