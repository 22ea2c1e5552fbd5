-- ===== src/Shared.antt =====
-- The names that the services share: the libraries', passed on, and those of the children.
pub mod Tests
pub mod Text
pub mod Trim
pub mod Idempotence
pub mod Doubles
pub mod Numbers
pub mod Exceptions
pub mod Checks
pub mod Effect
pub use Tests.*
pub use Numbers.{
  ℤ, pos, negsuc, Number, nan, finite, ltb_number, geb_number, is_finite, whole, cents, to_cents,
}
pub use Doubles.{round_hundredths}
pub use Exceptions.{
  Error, domain, policy_violation, http, declined, circuit_open, processing, failure, not_found,
  conflict, message_of, Result, ok, err, Result-cases, ◌<>◌,
}
pub use Prim.Native.Nat.{ℕ, zero, suc, ◌+◌, ◌-◌, ◌*◌, ◌/◌, ◌%◌, ◌≤◌, ◌<◌}
pub use Prim.Native.String.{String}
pub use mathlib.Core.Path.{◌≡◌, refl, sym, ap, ◌∙◌, subst}
pub use mathlib.Core.Logic.{◌≢◌, ◌↔◌, ◌⊎◌, inl, inr}
pub use mathlib.Core.Bool.{Bool, true, false, not, ◌&&◌, ◌||◌}
pub use mathlib.Core.Option.{Option, none, some}
pub use mathlib.Core.List.{List, [], ◌∷◌, ◌++◌, map}
pub use native.Mathlib.Omega.{arith}
pub use text.Mathlib.Text.{◌==◌ as str_eq}
pub use text.Mathlib.TextEquality.{eq_iff}
