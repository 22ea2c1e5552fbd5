-- ===== src/Booking/Aggregate.antt =====
-- booking-service/src/domain: the Booking aggregate and its status. A method that mutates the
-- object returns the new one, or the exception; `new Date()` is an argument, `now`.
use training_travel_booking.Shared.{
  ℕ, String, Option, none, some, Bool, true, false, not, Number, Result, ok, err, domain, ◌<>◌,
  or_default, if◌then◌else◌,
}
use training_travel_booking.Booking.Itinerary.{Itinerary}

pub data BookingStatus : Type 0 where
  pending reserved payment_processing confirmed cancelled failed : BookingStatus

-- The texts of the enum.
abbrev pub status_name : BookingStatus → String
status_name pending = "PENDING"
status_name reserved = "RESERVED"
status_name payment_processing = "PAYMENT_PROCESSING"
status_name confirmed = "CONFIRMED"
status_name cancelled = "CANCELLED"
status_name failed = "FAILED"

abbrev pub is_pending : BookingStatus → Bool
is_pending pending = true
is_pending _ = false

abbrev pub is_reserved : BookingStatus → Bool
is_reserved reserved = true
is_reserved _ = false

abbrev pub is_payment_processing : BookingStatus → Bool
is_payment_processing payment_processing = true
is_payment_processing _ = false

abbrev pub is_cancelled : BookingStatus → Bool
is_cancelled cancelled = true
is_cancelled _ = false

-- `TERMINAL_STATUSES.includes(s)`
abbrev pub is_terminal : BookingStatus → Bool
is_terminal confirmed = true
is_terminal cancelled = true
is_terminal failed = true
is_terminal _ = false

-- `BookingProps`, with the version that AggregateRoot keeps.
pub record Booking : Type 0 where
  pub id : String
  pub traveler_id : String
  pub offer_id : String
  pub status : BookingStatus
  pub itinerary : Itinerary
  pub policy_validation_id : Option String
  pub reservation_id : Option String
  pub payment_id : Option String
  pub total_amount : Number
  pub currency : String
  pub special_requests : Option String
  pub confirmed_at : Option ℕ
  pub cancelled_at : Option ℕ
  pub cancel_reason : Option String
  pub traveler_name : Option String
  pub traveler_email : Option String
  pub version : ℕ

pub record CreateBookingProps : Type 0 where
  pub traveler_id : String
  pub offer_id : String
  pub itinerary : Itinerary
  pub total_amount : Number
  pub currency : Option String

-- `id` is the generated UUID.
unfoldable pub create : String → CreateBookingProps → Booking
create id props = record {
  id = id;
  traveler_id = props.traveler_id;
  offer_id = props.offer_id;
  status = pending;
  itinerary = props.itinerary;
  policy_validation_id = none;
  reservation_id = none;
  payment_id = none;
  total_amount = props.total_amount;
  currency = or_default props.currency "USD";
  special_requests = none;
  confirmed_at = none;
  cancelled_at = none;
  cancel_reason = none;
  traveler_name = none;
  traveler_email = none;
  version = 0;
}

abbrev pub invalid_transition : String → BookingStatus → Result Booking
invalid_transition what s = err (domain (what <> status_name s) "INVALID_STATE_TRANSITION" 422)

unfoldable pub reserve : String → Booking → Result Booking
reserve reservation_id b =
    if not (is_pending b.status)
    then invalid_transition "Cannot reserve a booking with status " b.status
    else ok (record b { status = reserved; reservation_id = some reservation_id })

unfoldable pub start_payment_processing : String → Booking → Result Booking
start_payment_processing payment_id b =
    if not (is_reserved b.status)
    then invalid_transition "Cannot start payment processing for booking with status " b.status
    else ok (record b { status = payment_processing; payment_id = some payment_id })

unfoldable pub confirm : ℕ → String → String → Booking → Result Booking
confirm now traveler_name traveler_email b =
    if not (is_payment_processing b.status)
    then invalid_transition "Cannot confirm a booking with status " b.status
    else ok (record b {
      status = confirmed;
      confirmed_at = some now;
      traveler_name = some traveler_name;
      traveler_email = some traveler_email;
    })

unfoldable pub cancel : ℕ → String → Booking → Result Booking
cancel now reason b =
    if is_cancelled b.status
    then err (domain "Booking is already cancelled" "BOOKING_ALREADY_CANCELLED" 409)
    else ok (record b { status = cancelled; cancelled_at = some now; cancel_reason = some reason })

unfoldable pub fail : String → Booking → Booking
fail reason b = record b { status = failed; cancel_reason = some reason }

unfoldable pub update_special_requests : String → Booking → Booking
update_special_requests special_requests b = record b { special_requests = some special_requests }

unfoldable pub set_policy_validation_id : String → Booking → Booking
set_policy_validation_id policy_validation_id b = record b {
  policy_validation_id = some policy_validation_id;
}
