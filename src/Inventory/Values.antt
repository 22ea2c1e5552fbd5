-- ===== src/Inventory/Values.antt =====
-- inventory-service/src/domain/value-objects. A Date is its time in milliseconds, or none for an
-- Invalid Date, which compares false with every date.
use training_travel_booking.Shared.{
  ℕ, String, Option, none, some, Bool, false, leb, str_eq, Result, ok, err, Error, domain,
  if◌then◌else◌,
}
use training_travel_booking.Shared.Trim.{trim, to_upper_case}

abbrev pub Date : Type 0
Date = Option ℕ

pub data ReservationStatus : Type 0 where
  pending confirmed cancelled expired : ReservationStatus

abbrev pub status_name : ReservationStatus → String
status_name pending = "PENDING"
status_name confirmed = "CONFIRMED"
status_name cancelled = "CANCELLED"
status_name expired = "EXPIRED"

abbrev pub is_pending : ReservationStatus → Bool
is_pending pending = Bool.true
is_pending _ = false

abbrev pub is_confirmed : ReservationStatus → Bool
is_confirmed confirmed = Bool.true
is_confirmed _ = false

pub record FlightSegment : Type 0 where
  pub origin : String
  pub destination : String
  pub departure_date : Date
  pub arrival_date : Date
  pub flight_number : String
  pub carrier : String

pub record PassengerDetails : Type 0 where
  pub passenger_id : String
  pub first_name : String
  pub last_name : String
  pub date_of_birth : Option Date
  pub passport_number : Option String

-- `departure >= arrival`
abbrev pub not_before : Date → Date → Bool
not_before none _ = false
not_before (some d) none = false
not_before (some d) (some a) = leb a d

-- `trim().toUpperCase()`
abbrev pub airport : String → String
airport s = to_upper_case (trim s)

abbrev pub invalid_segment : String → Error
invalid_segment message = domain message "INVALID_FLIGHT_SEGMENT" 422

-- The constructor of FlightSegment.
unfoldable pub new_segment : FlightSegment → Result FlightSegment
new_segment props =
    if str_eq (airport props.origin) (airport props.destination)
    then err (invalid_segment "Origin and destination must be different")
    else if not_before props.departure_date props.arrival_date
    then err (invalid_segment "Departure date must be before arrival date")
    else ok
        (record props { origin = airport props.origin; destination = airport props.destination })

abbrev pub is_blank : String → Bool
is_blank s = str_eq (trim s) ""

abbrev pub invalid_passenger : String → Error
invalid_passenger message = domain message "INVALID_PASSENGER_DETAILS" 422

-- The constructor of PassengerDetails.
unfoldable pub new_passenger : PassengerDetails → Result PassengerDetails
new_passenger props =
    if is_blank props.passenger_id
    then err (invalid_passenger "passengerId must not be empty")
    else if is_blank props.first_name
    then err (invalid_passenger "firstName must not be empty")
    else if is_blank props.last_name
    then err (invalid_passenger "lastName must not be empty")
    else ok (record props {
      passenger_id = trim props.passenger_id;
      first_name = trim props.first_name;
      last_name = trim props.last_name;
    })
