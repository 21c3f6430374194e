-- ===== src/Base.antt =====
-- The names that every module shares: the libraries', passed on, with the Boolean tests, the list
-- helpers, the stable sort and the text helpers that the program's Python uses.
mod Equality
mod Lists
mod Options
mod Counting
mod Separators
mod Sorting
mod Text
pub use Equality.*
pub use Options.*
unfoldable pub use Counting.*
pub use Separators.*
unfoldable pub use Text.*
unfoldable pub use Lists.*
unfoldable pub use Sorting.*
pub use Prim.Native.Nat.{ℕ, zero, suc, ◌+◌, ◌-◌, ◌*◌, ◌/◌, ◌%◌, ◌≤◌, ◌<◌}
pub use Prim.Native.String.{String}
pub use mathlib.Core.Path.{◌≡◌, refl, sym, ap, ◌∙◌, subst}
pub use mathlib.Core.Logic.{◌≢◌, ◌↔◌, ◌⊎◌, inl, inr}
pub use mathlib.Core.Bool.{Bool, true, false, not, ◌&&◌, ◌||◌}
pub use mathlib.Core.Option.{Option, none, some}
pub use mathlib.Core.List.{List, [], ◌∷◌, ◌++◌, map, append-nil, append_assoc, map-append}
pub use native.Mathlib.Omega.{arith}
