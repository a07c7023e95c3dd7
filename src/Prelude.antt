-- ===== src/Prelude.antt =====
-- The names that the other modules share: those of the libraries, passed on, Boolean tests on the
-- native numbers, lists measured by them, maps, machine words, and faults.
mod Tests
mod Lists
mod Maps
mod Words
pub mod Modulo
mod Faults
pub use Tests.*
pub use Lists.*
pub use Words.*
pub use Faults.*
unfoldable pub use Maps.*
pub use Prim.Native.Nat.{ℕ, zero, suc, ◌+◌, ◌-◌, ◌*◌, ◌/◌, ◌%◌, ◌^◌, ◌≤◌, ◌<◌, min, max}
pub use mathlib.Core.Path.{◌≡◌, refl, sym, ap, ◌∙◌}
pub use mathlib.Core.Logic.{◌≢◌, ◌↔◌, ◌⊎◌, inl, inr}
pub use mathlib.Core.Bool.{Bool, true, false, not, ◌&&◌, ◌||◌}
pub use mathlib.Core.Option.{Option, none, some}
pub use mathlib.Core.List.{List, [], ◌∷◌, ◌++◌, map}
pub use native.Mathlib.Omega.{arith}
