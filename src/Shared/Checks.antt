-- ===== src/Shared/Checks.antt =====
-- `do` blocks over checks that may throw and change nothing.
use training_travel_booking.Shared.Exceptions.{Result, ok, err}

module _ {A B : Type 0} where
  infixl 5 ◌>>=◌
  abbrev pub ◌>>=◌ : Result A → (A → Result B) → Result B
  checked >>= next = elim checked [ ok value ↦ next value | err thrown ↦ err thrown ]
