-- ===== src/Common.antt =====
-- The names that the other modules share: the libraries', passed on, the tests on numbers, texts
-- and lists of the children, and the result type of fallible code.
mod Tests
mod Lists
pub mod Int
mod Equality
pub mod Dict
pub mod Texts
pub mod Numerals
pub mod Sorting
pub use Tests.*
pub use Lists.*
pub use Int.*
pub use Equality.*
pub use Prim.Native.Nat.{ℕ, zero, suc, ◌+◌, ◌-◌, ◌*◌, ◌/◌, ◌%◌, ◌^◌, ◌≤◌, ◌<◌}
pub use Prim.Native.String.{String, ◌++◌ as ◌<>◌}
pub use mathlib.Core.Path.{◌≡◌, refl, sym, ap, ◌∙◌}
pub use mathlib.Core.Logic.{◌≢◌, ◌↔◌, ◌⊎◌, inl, inr}
pub use mathlib.Core.Bool.{Bool, true, false, not, ◌&&◌, ◌||◌}
pub use mathlib.Core.Option.{Option, none, some}
pub use mathlib.Core.List.{List, [], ◌∷◌, ◌++◌, map}
pub use native.Mathlib.Omega.{arith}
