-- ===== src/Base.antt =====
-- The names that the other modules share: the libraries' names passed on, tests and lists over the
-- native numbers, and the outcome of C code that may have undefined behaviour.
mod Tests
mod Lists
mod Memory
mod Total
pub use Tests.*
unfoldable pub use Lists.*
unfoldable pub use Memory.*
pub use Total.*
pub use Prim.Native.Nat.{ℕ, zero, suc, ◌+◌, ◌-◌, ◌*◌, ◌/◌, ◌%◌, ◌^◌, ◌≤◌, ◌<◌, min}
pub use mathlib.Core.Path.{◌≡◌, refl, sym, ap, ◌∙◌}
pub use mathlib.Core.Logic.{◌≢◌, ◌↔◌, ◌⊎◌, inl, inr}
pub use mathlib.Core.Bool.{Bool, true, false, ◌&&◌, ◌||◌}
pub use mathlib.Core.Option.{Option, none, some}
pub use mathlib.Core.List.{List, [], ◌∷◌, ◌++◌, map}
pub use native.Mathlib.Omega.{arith}
