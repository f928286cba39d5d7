-- ===== src/Base.antt =====
-- The names that the other modules share: the libraries', passed on, and those of three children.
mod Tests
mod Lists
mod Outcome
pub use Tests.{
  ltb, leb, ◌==◌, ◌/=◌, if◌then◌else◌, le→leb, ltb→le, Bool-cases, Option-cases, not-false,
  by_option, by_test, not-true, same_bytes_iff, first_true, second_true,
}
unfoldable pub use Tests.{same_bytes}
pub use Lists.*
pub use Outcome.{
  Result, ok, reject, fault, stuck, ◌>>◌, Safe, returns, rejects, Safe->>=, Safe-reject_if,
  Safe-branch, Safe-attempt, Safe-implies, Safe-ok, attempt-ok, returns_itself, Safe-read,
  Safe-slice, slice-Safe, read-ok, slice-ok,
}
unfoldable pub use Outcome.{◌>>=◌, reject_if, attempt, branch, read, slice}
pub use Prim.Native.Nat.{ℕ, zero, suc, ◌+◌, ◌-◌, ◌*◌, ◌/◌, ◌%◌, ◌^◌, ◌≤◌, ◌<◌, min, bit_xor}
pub use mathlib.Core.Path.{◌≡◌, refl, sym, ap, subst, ◌∙◌}
pub use mathlib.Core.Logic.{◌≢◌, ◌⊎◌, inl, inr}
unfoldable pub use mathlib.Core.Bool.{not}
pub use mathlib.Core.Bool.{Bool, true, false, ◌&&◌, ◌||◌}
pub use mathlib.Core.Option.{Option, none, some}
pub use mathlib.Core.List.{List, [], ◌∷◌, ◌++◌, map, append_assoc, append-nil}
pub use native.Mathlib.Omega.{arith}
