-- ===== src/Base.antt =====
-- Names that every other module shares: those of the libraries, passed on, and those of the
-- children: Boolean tests, comparisons, lists over the native numbers, maps and results.
mod Logic
mod Compare
mod Lists
pub mod Word
pub mod Int
pub mod Sorting
pub mod Utf8
pub mod HashMap
pub mod BTreeMap
pub use Logic.*
pub use Compare.*
pub use Lists.*
pub use Prim.Native.Nat.{ℕ, zero, suc, ◌+◌, ◌-◌, ◌*◌, ◌/◌, ◌%◌, ◌^◌, ◌≤◌, ◌<◌, Ordering, compare}
pub use mathlib.Core.Path.{◌≡◌, refl, sym, ap, ◌∙◌, subst}
pub use mathlib.Core.Logic.{◌≢◌, ◌↔◌, ◌⊎◌, inl, inr}
pub use mathlib.Core.Bool.{Bool, true, false, not, ◌&&◌, ◌||◌}
pub use mathlib.Core.Option.{Option, none, some}
pub use mathlib.Core.List.{List, [], ◌∷◌, ◌++◌, map}
pub use native.Mathlib.Omega.{arith}
