-- ===== src/Common.antt =====
-- What the other modules share: the libraries' names, passed on, tests on numbers and texts,
-- lists measured by native numbers, signed integers and the texts of Go.
mod Tests
mod Lists
mod Distinct
mod Int
mod Texts
mod Trims
mod Results
pub use Tests.*
pub use Lists.*
pub use Distinct.*
unfoldable pub use Int.*
unfoldable pub use Texts.*
pub use Trims.*
pub use Results.*
pub use Prim.Native.Nat.{ℕ, zero, suc, ◌+◌, ◌-◌, ◌*◌, ◌/◌, ◌%◌, ◌≤◌, ◌<◌}
pub use Prim.Native.String.{String}
pub use mathlib.Core.Path.{◌≡◌, refl, sym, ap, ◌∙◌}
pub use mathlib.Core.Logic.{◌≢◌, ◌↔◌, ◌⊎◌, inl, inr}
pub use mathlib.Core.Bool.{Bool, true, false, ◌&&◌, ◌||◌, not}
pub use mathlib.Core.Option.{Option, none, some}
pub use mathlib.Core.List.{List, [], ◌∷◌, ◌++◌, map}
pub use native.Mathlib.Omega.{arith}
