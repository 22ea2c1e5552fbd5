-- ===== src/Shared/Numbers.antt =====
-- The numbers of the source. A finite amount is an exact integer of thousandths, which covers
-- every amount of money with up to three decimal places; NaN and the infinities are kept apart.
use Prim.Native.Nat.{ℕ, zero, suc, ◌*◌}
use mathlib.Core.Bool.{Bool, true, false, not}
use training_travel_booking.Shared.Doubles.{round_hundredths, round_hundredths_below}
use training_travel_booking.Shared.Tests.{ltb, leb, if◌then◌else◌}

-- `negsuc n` is -(n + 1).
pub data ℤ : Type 0 where
  pos : ℕ → ℤ
  negsuc : ℕ → ℤ

abbrev pub ltb_ℤ : ℤ → ℤ → Bool
ltb_ℤ (pos a) (pos b) = ltb a b
ltb_ℤ (pos a) (negsuc b) = false
ltb_ℤ (negsuc a) (pos b) = true
ltb_ℤ (negsuc a) (negsuc b) = ltb b a

pub data Number : Type 0 where
  nan : Number
  minus_infinity : Number
  infinity : Number
  finite : ℤ → Number

-- A whole number of the unit.
abbrev pub whole : ℕ → Number
whole n = finite (pos (1000 * n))

-- `a < b`, which is false as soon as one side is NaN.
abbrev pub ltb_number : Number → Number → Bool
ltb_number nan b = false
ltb_number minus_infinity nan = false
ltb_number minus_infinity minus_infinity = false
ltb_number minus_infinity infinity = true
ltb_number minus_infinity (finite b) = true
ltb_number infinity b = false
ltb_number (finite a) nan = false
ltb_number (finite a) minus_infinity = false
ltb_number (finite a) infinity = true
ltb_number (finite a) (finite b) = ltb_ℤ a b

-- `a >= b`, false at NaN too.
abbrev pub geb_number : Number → Number → Bool
geb_number nan b = false
geb_number minus_infinity minus_infinity = true
geb_number minus_infinity nan = false
geb_number minus_infinity infinity = false
geb_number minus_infinity (finite b) = false
geb_number infinity nan = false
geb_number infinity minus_infinity = true
geb_number infinity infinity = true
geb_number infinity (finite b) = true
geb_number (finite a) nan = false
geb_number (finite a) minus_infinity = true
geb_number (finite a) infinity = false
geb_number (finite a) (finite b) = not (ltb_ℤ a b)

-- `Number.isFinite`.
abbrev pub is_finite : Number → Bool
is_finite nan = false
is_finite minus_infinity = false
is_finite infinity = false
is_finite (finite a) = true

-- -n
abbrev pub negative : ℕ → ℤ
negative zero = pos 0
negative (suc n) = negsuc n

-- `Math.round(a * 100)`.
unfoldable pub to_cents : Number → Number
to_cents (finite (pos mills)) = whole (round_hundredths mills)
to_cents (finite (negsuc n)) = finite (negative (1000 * round_hundredths_below (suc n)))
to_cents x = x

-- `n / 100` for a whole number of cents.
abbrev pub cents : ℕ → Number
cents n = finite (pos (10 * n))

abbrev pub min : ℕ → ℕ → ℕ
min a b = if leb a b then a else b
