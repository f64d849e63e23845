-- ===== src/Prelude.antt =====
-- What the components share: the libraries' names, Boolean tests on numbers, lists indexed by
-- numbers, C's fixed-width arithmetic, and the commands in which the drivers' code is written.
mod Tests
mod Lists
mod Octets
mod Words
pub mod Commands
pub mod Post
pub mod Takes
pub use Tests.*
pub use Lists.*
pub use Octets.*
pub use Words.*
pub use Prim.Native.Nat.{
  ℕ, zero, suc, ◌+◌, ◌-◌, ◌*◌, ◌/◌, ◌%◌, ◌^◌, ◌≤◌, ◌<◌, bit_and, bit_or, max, min,
}
pub use mathlib.Core.Path.{◌≡◌, refl, sym, ap, ◌∙◌}
pub use mathlib.Core.Logic.{◌≢◌, ◌↔◌, ◌⊎◌, inl, inr}
pub use mathlib.Core.Bool.{Bool, true, false, not, ◌&&◌, ◌||◌}
pub use mathlib.Core.Option.{Option, none, some}
pub use mathlib.Core.List.{List, [], ◌∷◌, ◌++◌, map}
pub use native.Mathlib.Omega.{arith}
