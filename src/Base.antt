-- ===== src/Base.antt =====
-- The names that all modules share: the libraries' own, passed on, and the children's: Boolean
-- tests, lists as C arrays, the bit operations and the fixed widths.
mod Tests
mod Lists
mod Bits
mod Words
mod Slices
mod Runs
mod Texts
unfoldable pub use Tests.*
pub use Lists.*
pub use Bits.*
pub use Words.*
pub use Slices.*
pub use Runs.*
pub use Texts.*
pub use Prim.Native.Nat.{ℕ, zero, suc, ◌+◌, ◌-◌, ◌*◌, ◌/◌, ◌%◌, ◌^◌, ◌≤◌, ◌<◌, min}
pub use Prim.Native.Nat.{bit_and, bit_or, bit_xor}
pub use mathlib.Core.Path.{◌≡◌, refl, sym, ap, ap₂, ◌∙◌}
pub use mathlib.Core.Logic.{◌≢◌, ◌↔◌, ◌⊎◌, inl, inr}
pub use mathlib.Core.Bool.{Bool, true, false, not, ◌&&◌, ◌||◌}
pub use mathlib.Core.Option.{Option, none, some}
pub use mathlib.Core.List.{List, [], ◌∷◌, ◌++◌, map}
pub use native.Mathlib.Omega.{arith}
