-- ===== src/Base.antt =====
-- The names that the modules of this library share: those of the libraries, passed on, the Boolean
-- tests and byte strings of the child modules, and the outcome of a C++ call.
mod Tests
mod Lists
mod Strings
mod Calls
mod Decimal
pub use Tests.*
pub use Lists.*
unfoldable pub use Strings.*
pub use Calls.*
unfoldable pub use Decimal.*
pub use Prim.Native.Nat.{ℕ, zero, suc, ◌+◌, ◌-◌, ◌*◌, ◌≤◌, ◌<◌}
pub use mathlib.Core.Path.{◌≡◌, refl, sym, ap, ap₂, subst, ◌∙◌}
pub use mathlib.Core.Logic.{◌≢◌, ◌↔◌, ◌⊎◌, inl, inr}
pub use mathlib.Core.Bool.{Bool, true, false, not, ◌&&◌, ◌||◌}
pub use mathlib.Core.Option.{Option, none, some}
pub use mathlib.Core.List.{List, [], ◌∷◌, ◌++◌, map, append-nil, append_assoc}
pub use native.Mathlib.Omega.{arith}
