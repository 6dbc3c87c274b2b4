-- ===== src/Prelude.antt =====
-- The names that the other modules share: the libraries', passed on, and those of the children.
mod Tests
mod Integers
mod Lists
mod Membership
mod Order
mod Sorting
mod Texts
mod Dicts
mod Sets
mod Numbering
mod Slices
pub use Tests.*
pub use Integers.*
pub use Lists.*
pub use Membership.*
pub use Order.*
pub use Sorting.*
pub use Texts.*
pub use Dicts.*
pub use Sets.*
pub use Numbering.*
pub use Slices.*
unfoldable pub use Sorting.{sort}
unfoldable pub use Texts.{le_text, text_discrete}
unfoldable pub use Dicts.{lookup, insert}
unfoldable pub use Sets.{contains, add, union, inter, diff}
unfoldable pub use Numbering.{enumerate}
pub use Prim.Native.Nat.{ℕ, zero, suc, ◌+◌, ◌-◌, ◌*◌, ◌/◌, ◌%◌, ◌^◌, ◌≤◌, ◌<◌, min, max}
pub use Prim.Native.String.{String}
pub use mathlib.Core.Path.{◌≡◌, refl, sym, ap, ap₂, ◌∙◌, subst}
pub use mathlib.Core.Logic.{◌≢◌, ◌↔◌, ◌⊎◌, inl, inr, ite, if_pos, if_neg}
pub use mathlib.Core.Bool.{Bool, true, false, ◌&&◌, ◌||◌, not}
pub use mathlib.Core.Option.{Option, none, some}
pub use mathlib.Core.List.{List, [], ◌∷◌, ◌++◌, map, foldl}
pub use native.Mathlib.Omega.{arith}
unfoldable pub use native.Mathlib.Decide.{dec_lt, dec_le, ℕ_discrete}
