-- ===== src/Base.antt =====
-- The names that the modules of the library share: those of the antt libraries, passed on, and
-- those of the children (Boolean tests, lists indexed by native numbers, machine words, bit masks).
mod Bools
mod Lists
mod Words
mod Check
mod Text
pub mod Int
pub use Bools.*
pub use Lists.*
pub use Words.*
unfoldable pub use Text.*
unfoldable pub use Check.*
pub use Prim.Native.Nat.{
  ℕ, zero, suc, ◌+◌, ◌-◌, ◌*◌, ◌/◌, ◌%◌, ◌^◌, ◌≤◌, ◌<◌, min, max, bit_and, bit_or, bit_xor,
}
pub use mathlib.Core.Path.{◌≡◌, refl, sym, ap, ◌∙◌}
pub use mathlib.Core.Logic.{◌≢◌, ◌↔◌, ◌⊎◌, inl, inr}
pub use mathlib.Core.Bool.{Bool, true, false, not, ◌&&◌, ◌||◌}
pub use mathlib.Core.Option.{Option, none, some}
pub use mathlib.Core.List.{List, [], ◌∷◌, ◌++◌, map}
pub use native.Mathlib.Omega.{arith}
