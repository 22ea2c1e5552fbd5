-- ===== src/Booking/PaymentEvents.antt =====
-- booking-service/src/infrastructure/kafka/payment-event.consumer.ts. Logging is left out.
use training_travel_booking.Shared.{
  String, Option, none, some, Bool, true, false, or_default, if◌then◌else◌, Number,
}
use training_travel_booking.Shared.Effect.{pure, lift, gets, ask, read, ◌>>=◌, ◌>>◌}
use training_travel_booking.Booking.Itinerary.{to_json}
use training_travel_booking.Booking.Aggregate.{Booking, confirm, fail}
use training_travel_booking.Booking.Saga.{
  SagaStatus, BookingSaga, begin_compensation, mark_compensated, complete,
}
use training_travel_booking.Booking.Calls.{
  booking_confirmed, booking_cancelled, Env, save_saga, update_row_status, cancel_reservation,
  publish,
}
use training_travel_booking.Booking.UseCases.{UseCase, save, attempt, attempt_with, stored}

pub record PaymentCapturedData : Type 0 where
  pub booking_id : String
  pub payment_id : String
  pub traveler_id : String
  pub amount : Number
  pub currency : String

pub record PaymentFailedData : Type 0 where
  pub booking_id : String
  pub payment_id : Option String
  pub reason : String

abbrev pub is_completed : Option BookingSaga → Bool
is_completed none = false
is_completed (some saga) = elim saga.status [ SagaStatus.completed ↦ true | _ ↦ false ]

-- COMPENSATED or COMPENSATED_WITH_ERRORS
abbrev pub is_compensated : Option BookingSaga → Bool
is_compensated none = false
is_compensated (some saga) = elim saga.status [
  | SagaStatus.compensated ↦ true
  | SagaStatus.compensated_with_errors ↦ true
  | _ ↦ false
]

module _ (env : Env) where
  open env use {now, done, find_saga}

  abbrev pub save_saga? : Option BookingSaga → (BookingSaga → BookingSaga) → UseCase (Unit {0})
  save_saga? none f = pure tt
  save_saga? (some saga) f = ask (save_saga (f saga)) done

  -- The rest of `handlePaymentCaptured`, for a booking whose saga is not COMPLETED.
  unfoldable pub confirm_captured :
      PaymentCapturedData → String → Option BookingSaga → Booking → UseCase (Unit {0})
  confirm_captured d correlation_id saga booking = do
    at ← gets λ w. now w.trace
    b ← lift (confirm at "" "" booking)
    save env b
    save_saga? saga complete
    sent_at ← gets λ w. now w.trace
    attempt env (
        publish (
          booking_confirmed b.id correlation_id b.traveler_id (or_default b.traveler_name "")
            (or_default b.traveler_email "") (or_default b.reservation_id "") d.payment_id
            (to_json b.itinerary) b.total_amount b.currency sent_at))
    ask (update_row_status b.id "CONFIRMED") done

  unfoldable pub handle_payment_captured : PaymentCapturedData → String → UseCase (Unit {0})
  handle_payment_captured d correlation_id = do
    found ← stored env d.booking_id
    elim found [
      | none ↦ pure tt
      | some b ↦ (do
        saga ← read (find_saga d.booking_id)
        if is_completed saga then pure tt else confirm_captured d correlation_id saga b)
    ]

  -- The rest of `handlePaymentFailed`, for a booking whose saga is not compensated.
  unfoldable pub fail_booking :
      PaymentFailedData → String → Option BookingSaga → Booking → UseCase (Unit {0})
  fail_booking d correlation_id saga booking = do
    attempt_with env booking.reservation_id λ id. cancel_reservation id correlation_id
    let b = fail d.reason booking
    save env b
    save_saga? saga λ s. mark_compensated (begin_compensation s)
    at ← gets λ w. now w.trace
    attempt env (publish (booking_cancelled b.id correlation_id b.traveler_id d.reason at))

  unfoldable pub handle_payment_failed : PaymentFailedData → String → UseCase (Unit {0})
  handle_payment_failed d correlation_id = do
    found ← stored env d.booking_id
    elim found [
      | none ↦ pure tt
      | some b ↦ (do
        saga ← read (find_saga d.booking_id)
        if is_compensated saga then pure tt else fail_booking d correlation_id saga b)
    ]
