-- ===== src/Inventory/Reservation.antt =====
-- inventory-service/src/domain/aggregates and domain/events. A method that mutates the object
-- returns the new one, or the exception; `new Date()` is an argument, `now`, and the ISO texts of
-- the events are kept as times. The hold is a whole number of minutes.
use training_travel_booking.Shared.{
  ℕ, ◌+◌, ◌*◌, String, Option, none, some, Bool, not, ◌&&◌, List, [], ◌∷◌, ◌++◌, ltb, Result, ok,
  err, domain, failure, ◌<>◌, or_default, if◌then◌else◌,
}
use training_travel_booking.Shared.Checks.{◌>>=◌}
use training_travel_booking.Inventory.Values.{
  Date, ReservationStatus, pending, confirmed, cancelled, expired, status_name, is_pending,
  is_confirmed, FlightSegment, PassengerDetails,
}

-- The events of the topic inventory-events, each with its correlation and causation ids.
pub data ReservationEvent : Type 0 where
  -- reservation, offer, passenger, segment with its two times, cabin, expiry
  flight_reserved :
      (correlation_id causation_id : Option String)
      → (reservation_id offer_id passenger_id origin destination flight_number carrier : String)
      → (departure_at arrival_at : ℕ) → (cabin_class : String) → (expires_at : ℕ) → ReservationEvent
  flight_reservation_cancelled :
      (correlation_id causation_id : Option String)
      → (reservation_id passenger_id : String) → (cancelled_at : ℕ) → (reason : String)
      → ReservationEvent
  flight_reservation_expired :
      (correlation_id causation_id : Option String)
      → (reservation_id passenger_id offer_id : String) → (expired_at : ℕ) → ReservationEvent

-- `eventName`
abbrev pub event_name : ReservationEvent → String
event_name (flight_reserved _ _ _ _ _ _ _ _ _ _ _ _ _) = "FlightReserved"
event_name (flight_reservation_cancelled _ _ _ _ _ _) = "FlightReservationCancelled"
event_name (flight_reservation_expired _ _ _ _ _ _) = "FlightReservationExpired"

-- `FlightReservationProps`, with the events and the version that AggregateRoot keeps.
pub record FlightReservation : Type 0 where
  pub id : String
  pub offer_id : String
  pub amadeus_order_id : Option String
  pub segment : FlightSegment
  pub passenger : PassengerDetails
  pub status : ReservationStatus
  pub cabin_class : String
  pub idempotency_key : String
  pub expires_at : ℕ
  pub created_at : ℕ
  pub updated_at : ℕ
  pub uncommitted_events : List ReservationEvent
  pub version : ℕ

pub record CreateFlightReservationProps : Type 0 where
  pub offer_id : String
  pub amadeus_order_id : Option String
  pub segment : FlightSegment
  pub passenger : PassengerDetails
  pub cabin_class : String
  pub idempotency_key : String
  pub hold_minutes : Option ℕ
  pub correlation_id : Option String
  pub causation_id : Option String

-- `toISOString()`, which throws on an Invalid Date.
abbrev pub to_iso_string : Date → Result ℕ
to_iso_string none = err (failure "Invalid time value")
to_iso_string (some t) = ok t

abbrev pub emit : ReservationEvent → FlightReservation → FlightReservation
emit e r = record r { uncommitted_events = r.uncommitted_events ++ e ∷ []; version = r.version + 1 }

abbrev pub clear_events : FlightReservation → FlightReservation
clear_events r = record r { uncommitted_events = [] }

abbrev pub expiry : ℕ → Option ℕ → ℕ
expiry now hold_minutes = now + or_default hold_minutes 15 * 60 * 1000

abbrev pub pending_reservation : String → ℕ → CreateFlightReservationProps → FlightReservation
pending_reservation id now props = record {
  id = id;
  offer_id = props.offer_id;
  amadeus_order_id = props.amadeus_order_id;
  segment = props.segment;
  passenger = props.passenger;
  status = pending;
  cabin_class = props.cabin_class;
  idempotency_key = props.idempotency_key;
  expires_at = expiry now props.hold_minutes;
  created_at = now;
  updated_at = now;
  uncommitted_events = [];
  version = 0;
}

-- `FlightReservation.create`, with the generated UUID and the time first.
unfoldable pub create_flight_reservation :
    String → ℕ → CreateFlightReservationProps → Result FlightReservation
create_flight_reservation id now props = do
  departure_at ← to_iso_string props.segment.departure_date
  arrival_at ← to_iso_string props.segment.arrival_date
  ok (
      emit
        (flight_reserved props.correlation_id props.causation_id id props.offer_id
          props.passenger.passenger_id props.segment.origin props.segment.destination
          props.segment.flight_number props.segment.carrier departure_at arrival_at
          props.cabin_class (expiry now props.hold_minutes))
        (pending_reservation id now props))

-- `InvalidReservationStateException`
abbrev pub invalid_state : {A : Type 0} → String → ReservationStatus → Result A
invalid_state what s = err (domain (what <> status_name s) "INVALID_STATUS_TRANSITION" 422)

unfoldable pub confirm_reservation : ℕ → FlightReservation → Result FlightReservation
confirm_reservation now r =
    if not (is_pending r.status)
    then invalid_state "Cannot confirm reservation in status " r.status
    else ok (record r { status = confirmed; updated_at = now })

unfoldable pub cancel_flight :
    ℕ → Option String → Option String → FlightReservation → Result FlightReservation
cancel_flight now correlation_id causation_id r =
    if not (is_pending r.status) && not (is_confirmed r.status)
    then invalid_state "Cannot cancel reservation in status " r.status
    else ok (
        emit
          (flight_reservation_cancelled correlation_id causation_id r.id r.passenger.passenger_id
            now "USER_REQUESTED")
          (record r { status = cancelled; updated_at = now }))

unfoldable pub expire :
    ℕ → Option String → Option String → FlightReservation → Result FlightReservation
expire now correlation_id causation_id r =
    if not (is_pending r.status)
    then invalid_state "Cannot expire reservation in status " r.status
    else ok (
        emit
          (flight_reservation_expired correlation_id causation_id r.id r.passenger.passenger_id
            r.offer_id now)
          (record r { status = expired; updated_at = now }))

-- `isExpired()` at the time `now`.
unfoldable pub is_expired : ℕ → FlightReservation → Bool
is_expired now r = ltb r.expires_at now
