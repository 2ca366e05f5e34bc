-- ===== src/Common.antt =====
-- The names that the other modules share: the libraries', passed on, and those of the children.
-- `Tests` has the Boolean tests of C conditions, `Lists` and `Arrays` lists as C arrays and linked lists, `Word`
-- the machine integers, `Text` characters and decimal numerals, `Double` the rounding of floating point.
mod Tests
mod Lists
mod Arrays
mod Word
pub mod Text
pub mod Scan
pub mod Double
pub use Tests.*
pub use Lists.*
pub use Arrays.*
pub use Word.{add_int, sub_int, add_long, sub_long, int_of_long, long_of_int}
pub use Word.{int_mod, long_mod, int_max, long_max}
pub use Prim.Native.Nat.{ℕ, zero, suc, ◌+◌, ◌-◌, ◌*◌, ◌/◌, ◌%◌, ◌^◌, ◌≤◌, ◌<◌}
pub use mathlib.Core.Path.{◌≡◌, refl, sym, ap, subst, ◌∙◌}
pub use mathlib.Core.Logic.{◌≢◌, ◌↔◌, ◌⊎◌, inl, inr}
pub use mathlib.Core.Bool.{Bool, true, false, not, ◌&&◌, ◌||◌}
pub use mathlib.Core.Option.{Option, none, some}
pub use mathlib.Core.List.{List, [], ◌∷◌, ◌++◌, append-nil, append_assoc}
pub use native.Mathlib.Omega.{arith}
unfoldable pub use native.Mathlib.Decide.{ℕ_discrete}
