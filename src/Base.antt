-- ===== src/Base.antt =====
-- The names that the other modules share: the libraries', passed on, the Boolean tests on numbers
-- (Base/Tests), lists over the native numbers (Base/Lists) and predicates on lists (Base/Predicates).
mod Tests
mod Lists
mod Predicates
pub mod Tables
pub use Tests.*
pub use Lists.*
pub use Predicates.*
pub use Prim.Native.Nat.{ℕ, zero, suc, ◌+◌, ◌-◌, ◌*◌, ◌/◌, ◌%◌, ◌^◌, ◌≤◌, ◌<◌}
pub use mathlib.Core.Path.{◌≡◌, refl, sym, ap, ◌∙◌}
pub use mathlib.Core.Logic.{◌≢◌, ◌↔◌, ◌⊎◌, inl, inr}
pub use mathlib.Core.Bool.{Bool, true, false, not, ◌&&◌, ◌||◌}
pub use mathlib.Core.Option.{Option, none, some}
pub use mathlib.Core.List.{List, [], ◌∷◌, ◌++◌, map, append-nil, append_assoc}
pub use native.Mathlib.Omega.{arith}
