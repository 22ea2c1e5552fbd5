-- ===== src/Payment/Values.antt =====
-- payment-service/src/domain/value-objects.
use training_travel_booking.Shared.{
  String, not, ◌||◌, List, [], ◌∷◌, Number, finite, pos, ltb_number, is_finite, whole, cents,
  round_hundredths, Result, ok, err, domain, ◌<>◌, includes, if◌then◌else◌,
}
use training_travel_booking.Shared.Text.{is_three_capitals, is_digit, matches_exactly, codes}

pub record Money : Type 0 where
  pub amount : Number
  pub currency : String

-- `Math.round(amount * 100) / 100` of an amount above zero, as doubles compute it; the constructor lets no other come here.
abbrev pub round_money : Number → Number
round_money (finite (pos mills)) = cents (round_hundredths mills)
round_money x = x

-- `new Money(amount, currency)`. The amount's text in the message is left out.
unfoldable pub new_money : Number → String → Result Money
new_money amount currency =
    if not (is_finite amount) || not (ltb_number (whole 0) amount)
    then err (domain "Invalid money amount. Must be greater than 0." "INVALID_MONEY_AMOUNT" 422)
    else if not (is_three_capitals currency)
    then err (
        domain ("Invalid currency: \"" <> currency <> "\". Must be a 3-character ISO 4217 code.")
          "INVALID_CURRENCY" 422)
    else ok (record { amount = round_money amount; currency = currency })

-- `new Last4(value)`
unfoldable pub new_last4 : String → Result String
new_last4 value =
    if not (matches_exactly is_digit 4 (codes value))
    then err (
        domain ("Invalid last4: \"" <> value <> "\". Must be exactly 4 digits.") "INVALID_LAST4"
          422)
    else ok value

abbrev pub valid_brands : List String
valid_brands = "visa" ∷ "mastercard" ∷ "amex" ∷ "discover" ∷ "unknown" ∷ []

-- `new CardBrand(value)`
unfoldable pub new_card_brand : String → Result String
new_card_brand value =
    if not (includes valid_brands value)
    then err (domain ("Invalid card brand: \"" <> value <> "\".") "INVALID_CARD_BRAND" 422)
    else ok value
