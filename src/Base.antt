-- ===== src/Base.antt =====
-- The names that all modules share: those of the libraries, passed on, and those of the children.
-- `Base.Tests` has Boolean tests, `Base.Lists` lists over the native numbers, `Base.Bits` the masks
-- and shifts of fixed-width words, `Base.Monad` the monad of contract code.
mod Tests
mod Lists
mod Monad
pub mod Bits
pub mod LittleEndian
pub use Tests.*
unfoldable pub use Lists.*
pub use Monad.*
pub use Prim.Native.Nat.{
  ℕ, zero, suc, ◌+◌, ◌-◌, ◌*◌, ◌/◌, ◌%◌, ◌^◌, ◌≤◌, ◌<◌, bit_and, bit_or, bit_xor,
}
pub use Prim.Native.String.{String}
pub use mathlib.Core.Path.{◌≡◌, refl, sym, ap, ap₂, subst, ◌∙◌, fun_ext}
pub use mathlib.Core.Logic.{◌≢◌, ◌↔◌, ◌⊎◌, inl, inr}
pub use mathlib.Core.Bool.{Bool, true, false, not, ◌&&◌, ◌||◌}
pub use mathlib.Core.Option.{Option, none, some}
pub use mathlib.Core.List.{List, [], ◌∷◌, ◌++◌, map, append-nil, append_assoc}
pub use native.Mathlib.Omega.{arith}
