-- ===== src/Base.antt =====
-- The names that the other modules share: those of the libraries, passed on, and the Boolean tests
-- and native-indexed lists and integers of its children.
mod Tests
mod Lists
mod Int
mod Codes
mod Bytes
pub use Tests.*
pub use Lists.*
pub use Codes.{codes}
pub use Bytes.*
pub use Int.{ℤ, pos, negsuc, pos_part, neg_part, sub_ℕ, sub_ℕ-eq-zero, neg_ℕ, ltb_ℤ, ◌≤ℤ◌}
unfoldable pub use Int.{◌+ℤ◌, ◌-ℤ◌, ◌*ℤ◌}
pub use Prim.Native.Nat.{ℕ, zero, suc, ◌+◌, ◌-◌, ◌*◌, ◌/◌, ◌%◌, ◌^◌, ◌≤◌, ◌<◌}
pub use mathlib.Core.Path.{◌≡◌, refl, sym, ap, ◌∙◌}
pub use mathlib.Core.Logic.{◌≢◌, ◌↔◌, ◌⊎◌, inl, inr}
pub use mathlib.Core.Bool.{Bool, true, false, not, ◌&&◌, ◌||◌}
pub use mathlib.Core.Option.{Option, none, some}
pub use mathlib.Core.List.{List, [], ◌∷◌, ◌++◌, map}
pub use native.Mathlib.Omega.{arith}
