-- ===== src/Common.antt =====
-- The names that the other modules share: the libraries', passed on, and those of the children.
mod Tests
mod Lists
mod Bits
mod Digits
pub mod Outcome
pub mod Act
pub mod Int
pub use Tests.*
pub use Lists.*
pub use Digits.*
pub use Bits.*
pub use Outcome.{
  Run, done, fault, hang, read_at, read_at-of_lt, Ensures, Ensures-bind, Ensures-mono, Meets, Ends,
  Meets-bind, Meets-mono, Ends-bind, done_of_Ensures, >>=-eq-done, >>=-congr, elim-congr,
  read_at-of_ge,
}
pub use Prim.Native.Nat.{ℕ, zero, suc, ◌+◌, ◌-◌, ◌*◌, ◌/◌, ◌%◌, ◌^◌, ◌≤◌, ◌<◌, bit_and, bit_or}
pub use mathlib.Core.Path.{◌≡◌, refl, sym, ap, ◌∙◌}
pub use mathlib.Core.Logic.{◌≢◌, ◌↔◌, ◌⊎◌, inl, inr}
pub use mathlib.Core.Bool.{Bool, true, false, not, ◌&&◌, ◌||◌}
pub use mathlib.Core.Option.{Option, none, some}
pub use mathlib.Core.List.{List, [], ◌∷◌, ◌++◌, map, append-nil, append_assoc}
pub use native.Mathlib.Omega.{arith}
