-- ===== src/Booking/Itinerary.antt =====
-- booking-service/src/domain/value-objects/itinerary.value-object.ts. Dates are milliseconds since
-- the epoch, an ISO calendar date is the number of its day.
use training_travel_booking.Shared.{
  ℕ, ◌/◌, String, Option, none, some, List, [], ◌∷◌, not, ◌||◌, Number, whole, ltb_number, Result,
  ok, err, domain, ◌<>◌, includes, if◌then◌else◌,
}
use training_travel_booking.Shared.Text.{is_three_capitals}

abbrev pub cabin_classes : List String
cabin_classes = "ECONOMY" ∷ "PREMIUM_ECONOMY" ∷ "BUSINESS" ∷ "FIRST" ∷ []

-- `ItineraryProps`, and the object that the constructor makes of them.
pub record Itinerary : Type 0 where
  pub origin : String
  pub destination : String
  pub departure_date : ℕ
  pub return_date : Option ℕ
  pub cabin_class : String
  pub passengers : Number

-- What `toJSON` returns.
pub record ItineraryJson : Type 0 where
  pub origin : String
  pub destination : String
  pub departure_date : ℕ
  pub return_date : Option ℕ
  pub cabin_class : String
  pub passengers : Number

-- The messages of three of the checks name the offending value; that of the passengers is printed
-- by the runtime and left out.
unfoldable pub new_itinerary : Itinerary → Result Itinerary
unfolding is_three_capitals
new_itinerary props =
    if not (is_three_capitals props.origin)
    then err (domain ("Invalid origin IATA code: " <> props.origin) "INVALID_ORIGIN" 400)
    else if not (is_three_capitals props.destination)
    then err
        (domain ("Invalid destination IATA code: " <> props.destination) "INVALID_DESTINATION" 400)
    else if ltb_number props.passengers (whole 1) || ltb_number (whole 9) props.passengers
    then err (domain "Passengers must be between 1 and 9" "INVALID_PASSENGERS" 400)
    else if not (includes cabin_classes props.cabin_class)
    then err (domain ("Invalid cabin class: " <> props.cabin_class) "INVALID_CABIN_CLASS" 400)
    else ok props

-- `date.toISOString().split('T')[0]`
unfoldable pub iso_day : ℕ → ℕ
iso_day date = date / 86400000

-- `x !== undefined && iso_day(x)`, under a spread
unfoldable pub iso_day? : Option ℕ → Option ℕ
unfolding iso_day
iso_day? none = none
iso_day? (some date) = some (iso_day date)

unfoldable pub to_json : Itinerary → ItineraryJson
unfolding iso_day iso_day?
to_json i = record {
  origin = i.origin;
  destination = i.destination;
  departure_date = iso_day i.departure_date;
  return_date = iso_day? i.return_date;
  cabin_class = i.cabin_class;
  passengers = i.passengers;
}
