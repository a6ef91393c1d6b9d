-- ===== src/Common.antt =====
-- Names that every other file shares: those of the libraries, passed on, and those of the children.
-- No code of the repository is modelled here.
mod Tests
mod Lists
mod Bits
mod Int
mod Dict
mod Words
mod Sums
pub use Tests.*
pub use Lists.*
pub use Bits.*
pub use Int.*
pub use Sums.*
unfoldable pub use Dict.*
unfoldable pub use Words.*
pub use Prim.Native.Nat.{
  ℕ, zero, suc, ◌+◌, ◌-◌, ◌*◌, ◌/◌, ◌%◌, ◌^◌, ◌≤◌, ◌<◌, min, max, bit_and, bit_or,
}
pub use mathlib.Core.Path.{◌≡◌, refl, sym, ap, ap₂, ◌∙◌, subst}
pub use mathlib.Core.Logic.{◌≢◌, ◌↔◌, ◌⊎◌, inl, inr}
pub use mathlib.Core.Bool.{Bool, true, false, not, ◌&&◌, ◌||◌}
pub use mathlib.Core.Option.{Option, none, some}
pub use mathlib.Core.List.{List, [], ◌∷◌, ◌++◌, map, append-nil, append_assoc}
pub use native.Mathlib.Omega.{arith}
