-- ===== src/Prelude.antt =====
-- The names that all modules share: the libraries', passed on, and those of three children: tests
-- on numbers (`Tests`), equality as an interface (`Equality`), lists over the native numbers
-- (`Lists`) and results (`Results`).
mod Tests
mod Equality
mod Lists
mod InOrder
mod Results
unfoldable pub use Tests.*
unfoldable pub use Equality.*
unfoldable pub use InOrder.*
unfoldable pub use Lists.*
unfoldable pub use Results.*
pub use Prim.Native.Nat.{ℕ, zero, suc, ◌+◌, ◌-◌, ◌*◌, ◌/◌, ◌%◌, ◌^◌, ◌≤◌, ◌<◌}
pub use mathlib.Core.Path.{◌≡◌, refl, sym, ap, ap₂, subst, ◌∙◌, fun_ext}
pub use mathlib.Core.Logic.{◌≢◌, ◌↔◌, ◌⊎◌, inl, inr}
pub use mathlib.Core.Bool.{Bool, true, false, not, ◌&&◌, ◌||◌}
pub use mathlib.Core.Option.{Option, none, some}
pub use mathlib.Core.List.{List, [], ◌∷◌, ◌++◌, map}
pub use native.Mathlib.Omega.{arith}
