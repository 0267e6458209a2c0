-- ===== src/Common.antt =====
-- The names that the models of the apps share: the libraries', passed on, the Boolean tests, the
-- tables behind the Django models, and the calls of a service with the errors that they raise.
mod Tests
mod Texts
mod Dates
mod PyFloat
mod Table
pub mod Calls
unfoldable pub use Tests.*
unfoldable pub use Table.*
pub use Table.Lookup.*
unfoldable pub use Table.Pigeonhole.*
unfoldable pub use Table.Sorting.*
pub use Table.Update.*
pub use Calls.*
pub use Dates.*
pub use PyFloat.*
unfoldable pub use Texts.*
unfoldable pub use Texts.Decimal.*
unfoldable pub use Texts.Digits.*
pub use Prim.Native.Nat.{ℕ, zero, suc, ◌+◌, ◌-◌, ◌*◌, ◌/◌, ◌%◌, ◌≤◌, ◌<◌, min, max}
pub use Prim.Native.String.{String}
pub use mathlib.Core.Path.{◌≡◌, refl, sym, ap, subst, ◌∙◌}
pub use mathlib.Core.Logic.{◌≢◌, ◌↔◌, ◌⊎◌, inl, inr}
pub use mathlib.Core.Bool.{Bool, true, false, not, ◌&&◌, ◌||◌}
pub use mathlib.Core.Option.{Option, none, some}
pub use mathlib.Core.List.{List, [], ◌∷◌, ◌++◌, map}
pub use native.Mathlib.Omega.{arith}
