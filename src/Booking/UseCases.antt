-- ===== src/Booking/UseCases.antt =====
-- booking-service/src/application/use-cases. A use case keeps no objects between its calls, so its
-- state is empty; the booking that it works on is passed along. Logging is left out, and dates of a
-- request are taken parsed.
use training_travel_booking.Shared.{
  String, Option, none, some, not, ◌&&◌, http, Result, ok, err, not_found, conflict, message_of,
  ◌<>◌, is_truthy, or_default, Number, str_eq,
}
use training_travel_booking.Shared.Effect.{
  Method, pure, throw, lift, gets, ask, read, try_catch, note, when, scoped, ◌>>=◌, ◌>>◌,
}
use training_travel_booking.Booking.Itinerary.{Itinerary, new_itinerary, to_json}
use training_travel_booking.Booking.Aggregate.{
  Booking, create, cancel, fail, is_cancelled, update_special_requests,
}
use training_travel_booking.Booking.Saga.{create_saga}
use training_travel_booking.Booking.Mapper.{
  BookingResponseDto, to_dto, to_read_model_row, to_entity, to_domain,
}
use training_travel_booking.Booking.Calls.{
  BookingEvent, booking_created, booking_cancelled, Call, Env, save_booking, upsert_row,
  update_row_status, cancel_reservation, refund_payment, publish, metric, bookings_created,
  bookings_cancelled,
}
use training_travel_booking.Booking.Orchestrator.{Objects, execute}

abbrev pub UseCase : Type 0 → Type 0
UseCase = Method Call (Unit {0})

pub record CreateBookingDto : Type 0 where
  pub traveler_id : String
  pub flight_offer_id : String
  pub itinerary : Itinerary
  pub total_amount : Number
  pub currency : Option String
  pub special_requests : Option String

pub record JwtPayload : Type 0 where
  pub sub : String
  pub role : String

abbrev pub created_event : String → Booking → BookingEvent
created_event correlation_id b =
    booking_created b.id correlation_id b.traveler_id b.offer_id (to_json b.itinerary)
      b.total_amount b.currency

-- The saga runs on the new booking; the saga object that stands there before is never looked at.
abbrev pub objects_of : Booking → Objects
objects_of b = record { booking = b; saga = create_saga "" "" }

abbrev pub booking_of : CreateBookingDto → Itinerary → String → Booking
booking_of dto itinerary id = create id (record {
  traveler_id = dto.traveler_id;
  offer_id = dto.flight_offer_id;
  itinerary = itinerary;
  total_amount = dto.total_amount;
  currency = some (or_default dto.currency "USD");
})

module _ (env : Env) where
  open env use {now, uuid, done, find_booking}

  abbrev pub save : Booking → UseCase (Unit {0})
  save b = ask (save_booking (to_entity b)) done

  abbrev pub upsert : Booking → UseCase (Unit {0})
  upsert b w = ask (upsert_row (to_read_model_row (now w.trace) b)) done w

  -- A call whose fault is logged and forgotten.
  unfoldable pub attempt : Call → UseCase (Unit {0})
  attempt c = try_catch (ask {A = Unit {0}} c done) (λ _. pure tt)

  -- `findById` of BookingRepository.
  unfoldable pub stored : String → UseCase (Option Booking)
  stored id = do
    found ← read (find_booking id)
    elim found [ none ↦ pure none | some e ↦ (do b ← lift (to_domain e); pure (some b)) ]

  unfoldable pub require : String → UseCase Booking
  unfolding stored
  require id = do
    found ← stored id
    elim found [ none ↦ throw (not_found ("Booking " <> id <> " not found")) | some b ↦ pure b ]

  -- What follows the saga: its outcome and the booking as it left it.
  unfoldable pub conclude : Result (Unit {0}) → Booking → UseCase BookingResponseDto
  conclude (ok u) b = do save b; upsert b; pure (to_dto b)
  conclude (err e) b = do save (fail (message_of e) b); upsert (fail (message_of e) b); throw e

  -- From the first save on.
  unfoldable pub place : String → Booking → UseCase BookingResponseDto
  place correlation_id b = do
    save b
    note (metric bookings_created)
    attempt (publish (created_event correlation_id b))
    (outcome, objects) ← scoped (objects_of b) (execute env correlation_id)
    conclude outcome objects.booking

  unfoldable pub create_booking :
      CreateBookingDto → JwtPayload → String → UseCase BookingResponseDto
  create_booking dto jwt correlation_id = do
    when (str_eq jwt.role "EMPLOYEE" && not (str_eq dto.traveler_id jwt.sub))
        (throw (http "EMPLOYEE can only create bookings for themselves" 403))
    itinerary ← lift (new_itinerary dto.itinerary)
    id ← gets λ w. uuid w.trace
    place correlation_id (booking_of dto itinerary id)

  unfoldable pub attempt_with : Option String → (String → Call) → UseCase (Unit {0})
  attempt_with id call = when (is_truthy id) (attempt (call (or_default id "")))

  -- The calls of a cancellation, after the aggregate has been cancelled.
  unfoldable pub release : String → String → Booking → UseCase BookingResponseDto
  release correlation_id reason b = do
    attempt_with b.reservation_id λ id. cancel_reservation id correlation_id
    attempt_with b.payment_id λ id. refund_payment id correlation_id
    save b
    note (metric bookings_cancelled)
    at ← gets λ w. or_default b.cancelled_at (now w.trace)
    attempt (publish (booking_cancelled b.id correlation_id b.traveler_id reason at))
    ask {A = Unit {0}} (update_row_status b.id "CANCELLED") done
    pure (to_dto b)

  unfoldable pub cancel_booking : String → Option String → String → UseCase BookingResponseDto
  cancel_booking booking_id dto_reason correlation_id = do
    b ← require booking_id
    when (is_cancelled b.status)
        (throw (conflict "Booking is already cancelled" "BOOKING_ALREADY_CANCELLED"))
    let reason = or_default dto_reason "Cancelled by user"
    at ← gets λ w. now w.trace
    cancelled ← lift (cancel at reason b)
    release correlation_id reason cancelled

  unfoldable pub update_booking : String → Option String → UseCase BookingResponseDto
  update_booking booking_id special_requests = do
    b ← require booking_id
    let updated : Booking = elim special_requests [
      | none ↦ b
      | some s ↦ update_special_requests s b
    ]
    save updated
    pure (to_dto updated)
