-- ===== src/Base.antt =====
-- The names that the modules share: the libraries', passed on, and those of four children.
-- The code about which this is: none; symbols, identifiers and dates of the program are only
-- compared and sorted, so `Symbol` and the like are numbers that keep the texts' order.
mod Tests
mod Lists
pub mod Int
pub mod Ranked
pub mod Sorted
pub mod Decimal
pub mod Dict
pub use Tests.*
unfoldable pub use Lists.*
pub use Prim.Native.Nat.{ℕ, zero, suc, ◌+◌, ◌-◌, ◌*◌, ◌/◌, ◌%◌, ◌≤◌, ◌<◌}
pub use Prim.Native.String.{String}
pub use mathlib.Core.Path.{◌≡◌, refl, sym, ap, subst, ◌∙◌}
pub use mathlib.Core.Logic.{◌≢◌, ◌↔◌, ◌⊎◌, inl, inr}
pub use mathlib.Core.Bool.{Bool, true, false, not, ◌&&◌, ◌||◌}
pub use mathlib.Core.Option.{Option, none, some}
pub use mathlib.Core.List.{List, [], ◌∷◌, ◌++◌, map}
pub use native.Mathlib.Omega.{arith}
pub use text.Mathlib.Text.{◌==◌ as str_eq}
