-- ===== src/Base.antt =====
-- What the other modules share: library names passed on, tests, lists, equality and keyed containers.
mod Tests
mod Lists
mod Equality
mod Keyed
pub use Tests.*
pub use Lists.*
pub use Equality.*
unfoldable pub use Equality.{list_beq}
pub use Keyed.*
unfoldable pub use Keyed.{find, put, erase}
pub use Prim.Native.Nat.{ℕ, zero, suc, ◌+◌, ◌-◌, ◌*◌, ◌/◌, ◌%◌, ◌^◌, ◌≤◌, ◌<◌}
pub use mathlib.Core.Path.{◌≡◌, refl, sym, ap, ◌∙◌}
pub use mathlib.Core.Logic.{◌≢◌, ◌↔◌, ◌⊎◌, inl, inr}
pub use mathlib.Core.Bool.{Bool, true, false, not, ◌&&◌, ◌||◌}
pub use mathlib.Core.Option.{Option, none, some}
pub use mathlib.Core.List.{List, [], ◌∷◌, ◌++◌, map, append_assoc, append-nil}
pub use native.Mathlib.Omega.{arith}
