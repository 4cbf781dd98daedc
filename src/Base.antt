-- ===== src/Base.antt =====
-- The names that every component shares: the libraries', passed on, and those of the children:
-- Boolean tests (Tests), C arrays as lists (Arrays), machine words and masks (Words).
mod Tests
mod Arrays
mod Words
mod Bits
mod Le32
mod Pointers
pub use Tests.*
pub use Arrays.*
unfoldable pub use Words.*
unfoldable pub use Le32.*
pub use Bits.*
pub use Pointers.*
pub use Prim.Native.Nat.{ℕ, zero, suc, ◌+◌, ◌-◌, ◌*◌, ◌/◌, ◌%◌, ◌^◌, ◌≤◌, ◌<◌}
pub use Prim.Native.Nat.{bit_and, bit_or, bit_xor}
pub use mathlib.Core.Path.{◌≡◌, refl, sym, ap, ap₂, subst, ◌∙◌}
pub use mathlib.Core.Logic.{◌≢◌, ◌↔◌, ◌⊎◌, inl, inr}
pub use mathlib.Core.Bool.{Bool, true, false, not, ◌&&◌, ◌||◌}
pub use mathlib.Core.Option.{Option, none, some}
pub use mathlib.Core.List.{List, [], ◌∷◌, ◌++◌}
pub use native.Mathlib.Omega.{arith}
