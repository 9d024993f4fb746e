-- ===== src/Prelude.antt =====
-- The names that the modules share: the libraries' own, passed on, and those of the children:
-- tests and conditionals, lists measured by native numbers, `size_t`, and code that may abort.
mod Tests
mod Lists
mod Fault
mod Word
mod Decimal
mod Strings
mod Ids
pub use Tests.*
pub use Lists.*
pub use Fault.*
pub use Word.*
pub use Decimal.*
pub use Strings.*
pub use Ids.*
pub use Prim.Native.Nat.{ℕ, zero, suc, ◌+◌, ◌-◌, ◌*◌, ◌/◌, ◌%◌, ◌^◌, ◌≤◌, ◌<◌, min}
pub use mathlib.Core.Path.{◌≡◌, refl, sym, ap, ap₂, subst, ◌∙◌}
pub use mathlib.Core.Logic.{◌≢◌, ◌↔◌, ◌⊎◌, inl, inr}
pub use mathlib.Core.Bool.{Bool, true, false, not, ◌&&◌, ◌||◌}
pub use mathlib.Core.Option.{Option, none, some}
pub use mathlib.Core.List.{List, [], ◌∷◌, ◌++◌, map, append-nil, append_assoc}
pub use native.Mathlib.Omega.{arith}
unfoldable pub use native.Mathlib.Decide.{dec_lt, dec_le, ℕ_discrete}
