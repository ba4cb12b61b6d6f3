-- ===== src/Base.antt =====
-- Names that every module shares: the libraries' names, passed on, the Boolean tests on numbers and
-- texts, and the functions on lists of the native numbers.
mod Tests
mod Lists
mod Text
mod Rows
mod Sorting
mod Selection
mod Keys
pub use Tests.*
pub use Lists.*
pub use Text.*
pub use Rows.*
pub use Sorting.*
pub use Selection.*
pub use Keys.*
pub use Prim.Native.Nat.{ℕ, zero, suc, ◌+◌, ◌-◌, ◌*◌, ◌/◌, ◌%◌, ◌^◌, ◌≤◌, ◌<◌}
pub use Prim.Native.String.{String}
pub use mathlib.Core.Path.{◌≡◌, refl, sym, ap, ◌∙◌, subst}
pub use mathlib.Core.Logic.{◌≢◌, ◌↔◌, ◌⊎◌, inl, inr}
pub use mathlib.Core.Bool.{Bool, true, false, not, ◌&&◌, ◌||◌}
pub use mathlib.Core.Option.{Option, none, some}
pub use mathlib.Core.List.{List, [], ◌∷◌, ◌++◌, map, Permᴰ}
pub use native.Mathlib.Omega.{arith}
pub use text.Mathlib.TextEquality.{eq_iff}
pub use text.Mathlib.TextPositions.{eq_refl}
