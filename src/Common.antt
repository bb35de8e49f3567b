-- ===== src/Common.antt =====
-- The names that the components share: the library's, passed on, the Boolean tests on native
-- numbers, and lists that are measured and indexed by native numbers.
mod Tests
mod Lists
mod Index
pub mod Keys
mod Modulo
mod Order
mod Partial
pub use Tests.*
pub use Lists.*
pub use Index.*
pub use Partial.*
pub use Modulo.*
unfoldable pub use Order.{lt_wf}
pub use Prim.Native.Nat.{ℕ, zero, suc, ◌+◌, ◌-◌, ◌*◌, ◌/◌, ◌%◌, ◌^◌, ◌≤◌, ◌<◌, min}
pub use mathlib.Core.Path.{◌≡◌, refl, sym, ap, ap₂, ◌∙◌, subst}
pub use mathlib.Core.Logic.{◌≢◌, ◌↔◌, ◌⊎◌, inl, inr}
pub use mathlib.Core.Bool.{Bool, true, false, not, ◌&&◌, ◌||◌}
pub use mathlib.Core.Option.{Option, none, some}
pub use mathlib.Core.List.{List, [], ◌∷◌, ◌++◌, map, append-nil, append_assoc}
pub use native.Mathlib.Omega.{arith}
