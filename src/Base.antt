-- ===== src/Base.antt =====
-- The names that every other module shares: the libraries', passed on, and the helpers of the
-- children: Boolean tests, lists over the native numbers, and machine words.
mod Tests
mod Lists
mod Words
mod Le
mod Bits
mod Update
pub use Tests.*
pub use Lists.*
pub use Words.*
pub use Le.*
pub use Bits.*
pub use Update.*
pub use Prim.Native.Nat.{
  ℕ, zero, suc, ◌+◌, ◌-◌, ◌*◌, ◌/◌, ◌%◌, ◌^◌, ◌≤◌, ◌<◌, min, max, bit_and, bit_or,
}
pub use mathlib.Core.Path.{◌≡◌, refl, sym, ap, ap₂, ◌∙◌, subst}
pub use mathlib.Core.Logic.{◌≢◌, ◌↔◌, ◌⊎◌, inl, inr}
pub use mathlib.Core.Bool.{Bool, true, false, not, ◌&&◌, ◌||◌}
pub use mathlib.Core.Option.{Option, none, some}
pub use mathlib.Core.List.{List, [], ◌∷◌, ◌++◌, map}
pub use native.Mathlib.Omega.{arith}
