-- ===== src/Booking/Calls.antt =====
-- What the booking service calls: its databases, the three services, the broker, the metrics. The
-- answers, the clock and the generated UUIDs are those of an environment, each a function of the
-- calls made so far, the call that is answered included. HTTP clients, retries and circuit
-- breakers are the libraries'; what the service sees of them is an answer or a fault.
use training_travel_booking.Shared.{ℕ, String, Option, Bool, List, Number}
use training_travel_booking.Shared.Effect.{Reply}
use training_travel_booking.Booking.Itinerary.{ItineraryJson}
use training_travel_booking.Booking.Saga.{BookingSaga}
use training_travel_booking.Booking.Mapper.{BookingReadModelRow, BookingEntity}

pub record PolicyValidationRequest : Type 0 where
  pub traveler_id : String
  pub department : String
  pub offer_id : String
  pub total_amount : Number
  pub currency : String
  pub itinerary : ItineraryJson

pub record PolicyValidationResponse : Type 0 where
  pub valid : Bool
  pub policy_id : Option String
  pub violations : Option (List String)

pub record ReservationResponse : Type 0 where
  pub reservation_id : String
  pub status : String

pub record AuthorizeResponse : Type 0 where
  pub payment_id : String
  pub status : String

-- The events of the topic booking-events, without the id and time of their envelopes.
pub data BookingEvent : Type 0 where
  -- id, correlation id; traveler, offer, itinerary, amount, currency
  booking_created :
      (id correlation_id traveler_id offer_id : String)
      → ItineraryJson
      → Number
      → String
      → BookingEvent
  -- id, correlation id; traveler, their name and email, reservation, payment; itinerary, amount,
  -- currency, time
  booking_confirmed :
      (id correlation_id traveler_id traveler_name traveler_email reservation_id
        payment_id : String)
      → ItineraryJson
      → Number
      → String
      → ℕ
      → BookingEvent
  -- id, correlation id; traveler, reason, time
  booking_cancelled : (id correlation_id traveler_id reason : String) → ℕ → BookingEvent

pub data Metric : Type 0 where
  bookings_created bookings_confirmed bookings_cancelled compensation_failed : Metric
  -- in milliseconds
  saga_duration : ℕ → Metric

pub data Call : Type 0 where
  save_booking : BookingEntity → Call
  save_saga : BookingSaga → Call
  upsert_row : BookingReadModelRow → Call
  update_row_status : (id status : String) → Call
  validate_policy : PolicyValidationRequest → (correlation_id : String) → Call
  create_reservation : (offer_id : String) → ItineraryJson → (correlation_id : String) → Call
  cancel_reservation : (reservation_id correlation_id : String) → Call
  authorize_payment :
      (booking_id traveler_id : String) → Number → (currency correlation_id : String) → Call
  capture_payment : (payment_id correlation_id : String) → Call
  refund_payment : (payment_id correlation_id : String) → Call
  publish : BookingEvent → Call
  metric : Metric → Call

pub record Env : Type 0 where
  pub now : List Call → ℕ
  pub uuid : List Call → String
  pub policy_reply : List Call → Reply PolicyValidationResponse
  pub reservation_reply : List Call → Reply ReservationResponse
  pub authorize_reply : List Call → Reply AuthorizeResponse
  -- the calls that return nothing: saves, captures, refunds, cancellations, publications
  pub done : List Call → Reply (Unit {0})
  pub find_booking : String → List Call → Reply (Option BookingEntity)
  pub find_saga : String → List Call → Reply (Option BookingSaga)
  pub find_row : String → List Call → Reply (Option BookingReadModelRow)
