-- ===== src/Common.antt =====
-- The names that the components share: the libraries', passed on, and those of the children:
-- Boolean tests (`Compare`), lists over the native numbers (`Lists`), signed integers (`Int`).
mod Compare
mod Lists
pub mod Int
pub mod Bits
pub mod Counts
pub mod Rotate
pub mod Long
pub mod Order
pub use Compare.*
pub use Lists.*
pub use Prim.Native.Nat.{ℕ, zero, suc, ◌+◌, ◌-◌, ◌*◌, ◌/◌, ◌%◌, ◌^◌, ◌≤◌, ◌<◌, min}
pub use mathlib.Core.Path.{◌≡◌, refl, sym, ap, ◌∙◌}
pub use mathlib.Core.Logic.{◌≢◌, ◌↔◌, ◌⊎◌, inl, inr}
pub use mathlib.Core.Bool.{Bool, true, false, not, ◌&&◌, ◌||◌}
pub use mathlib.Core.Option.{Option, none, some}
pub use mathlib.Core.List.{List, [], ◌∷◌, ◌++◌, map}
pub use native.Mathlib.Omega.{arith}
