-- ===== src/Shared/Doubles.antt =====
-- `Math.round(a * 100)` of JavaScript's binary fractions. An amount of thousandths is the double nearest
-- to it, and its product with 100 is rounded to a double again. This decides on which side of a half
-- the product falls when the amount has a half cent: 1.005 * 100 is below 100.5. Other amounts below
-- ten thousand million are so far from a half that the two roundings do not matter.
use Prim.Native.Nat.{ℕ, zero, suc, ◌+◌, ◌*◌, ◌/◌, ◌%◌, ◌≤◌}
use native.Mathlib.Omega.{arith}
use mathlib.Core.Path.{◌≡◌, refl}
use mathlib.Core.Bool.{Bool, not, ◌&&◌}
use training_travel_booking.Shared.Tests.{ltb, leb, ◌==◌, if◌then◌else◌}

-- 2 ** n
unfoldable pub power_of_two : ℕ → ℕ
power_of_two zero = 1
power_of_two (suc n) = 2 * power_of_two n

-- `a / unit` to the nearest whole number, a half going to the even one.
abbrev nearest_even : ℕ → ℕ → ℕ
nearest_even a unit =
    let q = a / unit in
    let r = a % unit in
    if ltb (2 * r) unit then q else if ltb unit (2 * r) then q + 1 else q + q % 2

-- The least power of two that makes `a` thousandths a number of 53 bits.
unfoldable exponent : ℕ → ℕ → ℕ
exponent zero a = 0
exponent (suc fuel) a =
    let rest = exponent fuel (2 * a) in if leb 4503599627370496000 a then 0 else suc rest

-- The product of the double nearest to `mills` thousandths and 100, as a double, in units of 2 ** -s:
-- 53 bits are left of its 59 or 60.
abbrev product : ℕ → ℕ → ℕ
product mills s =
    let exact = 100 * nearest_even (mills * power_of_two s) 1000 in
    let unit = if ltb exact 576460752303423488 then 64 else 128 in unit * nearest_even exact unit

-- The half above the whole cents of `mills` thousandths, in units of 2 ** -(s + 1).
abbrev half_above : ℕ → ℕ → ℕ
half_above mills s = (2 * (mills / 10) + 1) * power_of_two s

-- The double product is at least that half.
pub reaches_half : ℕ → Bool
unfolding exponent power_of_two
reaches_half mills = let s = exponent 64 mills in leb (half_above mills s) (2 * product mills s)

-- It is above it.
pub passes_half : ℕ → Bool
unfolding exponent power_of_two
passes_half mills = let s = exponent 64 mills in ltb (half_above mills s) (2 * product mills s)

-- `Math.round(a * 100)` of `mills` thousandths: the nearest whole number, and of a half cent the one
-- above if the product reaches the half.
abbrev pub round_hundredths : ℕ → ℕ
round_hundredths mills =
    if (mills % 10 == 5) && not (reaches_half mills) then mills / 10 else (mills + 5) / 10

-- The same below zero, without the sign: a half goes towards zero.
abbrev pub round_hundredths_below : ℕ → ℕ
round_hundredths_below mills =
    if (mills % 10 == 5) && not (passes_half mills) then mills / 10 else (mills + 5) / 10

round_hundredths_at_halves :
    (round_hundredths 1005 ≡ 100)
    × (round_hundredths 5 ≡ 1)
    × (round_hundredths 8345 ≡ 835)
    × (round_hundredths 1115 ≡ 112)
    × (round_hundredths 1025 ≡ 102)
    × (round_hundredths 1999 ≡ 200)
    × (round_hundredths_below 1005 ≡ 100)
    × (round_hundredths_below 8345 ≡ 835)
    × (round_hundredths_below 125 ≡ 12)
unfolding reaches_half passes_half exponent power_of_two
round_hundredths_at_halves = (refl, refl, refl, refl, refl, refl, refl, refl, refl)

-- Half a cent is one.
pub half_cent_lem : round_hundredths 5 ≡ 1
unfolding reaches_half exponent power_of_two
half_cent_lem = refl

pub round_hundredths-whole : (n : ℕ) → round_hundredths (10 * n) ≡ n
round_hundredths-whole n = ground arith

-- The result is a nearest whole number.
pub round_hundredths-near :
    (mills : ℕ)
    → (10 * round_hundredths mills ≤ mills + 5) × (mills ≤ 10 * round_hundredths mills + 5)
round_hundredths-near mills = (ground arith, ground arith)
