-- ===== src/Base.antt =====
-- The names that the other modules share: numbers, paths, lists, options, Boolean tests, and the
-- machine-word limits that the sources use.
mod Tests
mod Lists
mod Words
mod Ints
mod Bytes
pub use Tests.*
pub use Lists.*
unfoldable pub use Words.*
pub use Ints.*
pub use Bytes.*
pub use Prim.Native.Nat.{ℕ, zero, suc, ◌+◌, ◌-◌, ◌*◌, ◌/◌, ◌%◌, ◌^◌, ◌≤◌, ◌<◌, min}
pub use mathlib.Core.Path.{◌≡◌, refl, sym, ap, ◌∙◌}
pub use mathlib.Core.Logic.{◌≢◌, ◌↔◌, ◌⊎◌, inl, inr}
pub use mathlib.Core.Bool.{Bool, true, false, not, ◌&&◌, ◌||◌}
pub use mathlib.Core.Option.{Option, none, some}
pub use mathlib.Core.List.{List, [], ◌∷◌, ◌++◌}
pub use native.Mathlib.Omega.{arith}
