-- ===== src/Booking/Steps.antt =====
-- What each step of the saga does to the booking and asks of the other services, when the saga can
-- be saved.
pub mod Policy
pub mod Reservation
pub mod Payment
use training_travel_booking.Shared.{
  message_of, ℕ, ◌-◌, String, Option, none, some, Bool, true, false, List, [], ◌∷◌, ◌++◌, ◌≡◌, refl,
  ◌∙◌, ◌⊎◌, arith, Error, policy_violation, failure, Result, ok, err, or_default, Bool-cases, inl,
  inr, ◌||◌,
}
use training_travel_booking.Shared.Effect.{World, Reply-cases, Reply, answer, fault, Ends}
use training_travel_booking.Booking.Itinerary.{to_json}
use training_travel_booking.Booking.Aggregate.{
  Booking, BookingStatus, pending, reserved, payment_processing, confirmed, reserve,
  start_payment_processing, confirm, fail,
}
use training_travel_booking.Booking.Saga.{
  BookingSaga, SagaStatus, add_step, on_step, mark_in_progress, mark_failed, mark_step_completed,
  mark_step_failed, complete, fail_saga,
}
use training_travel_booking.Booking.Calls.{
  PolicyValidationResponse, ReservationResponse, AuthorizeResponse, Call, Env, save_saga,
  validate_policy, create_reservation, authorize_payment, capture_payment, metric, saga_duration,
  bookings_confirmed,
}
use training_travel_booking.Booking.Orchestrator.{
  Objects, persist, compensate, compensation_error, roll_back, begin_step, complete_step,
  policy_request, policy_refused, policy_unavailable, validate_step, reserve_step, authorize_step,
  finish, capture_step,
}
use training_travel_booking.Booking.Compensation.{
  SavesSucceed, requests, undo_requests, persist_lem, compensate_ends,
}

abbrev pub objects_at : Booking → BookingSaga → List Call → World Call Objects
objects_at b saga t = record { state = record { booking = b; saga = saga }; trace = t }

-- The policy service refused: the booking and the saga's record of it, after the requests `asked`.
abbrev pub Refused : Booking → List Call → Error → World Call Objects → Type 0
Refused b asked e v =
    (violations : List String) × (e ≡ policy_violation violations)
    × (v.state.booking ≡ b)
    × (requests v.trace ≡ asked)
    × (v.state.saga.status ≡ SagaStatus.failed)

-- The booking `b` was failed and what it held was undone, after the requests `asked`.
pub record RolledBack (correlation_id : String) (b : Booking) (asked : List Call) (e : Error)
    (v : World Call Objects) : Type 0 where
  pub booking : v.state.booking ≡ fail "Saga compensation" b
  pub undone : requests v.trace ≡ undo_requests correlation_id b ++ asked
  pub outcome :
      (v.state.saga.status ≡ SagaStatus.compensated)
      ⊎ ((v.state.saga.status ≡ SagaStatus.compensated_with_errors) × (e ≡ compensation_error))

-- The id of a reply of the inventory service, and of the payment service, which came when the requests
-- `asked` had been made.
abbrev pub GaveReservation : Env → List Call → String → Type 0
GaveReservation env asked id =
    (t : List Call) × (r : ReservationResponse) × (env.reservation_reply t ≡ answer r)
    × (r.reservation_id ≡ id)
    × (requests t ≡ asked)

abbrev pub GavePayment : Env → List Call → String → Type 0
GavePayment env asked id =
    (t : List Call) × (r : AuthorizeResponse) × (env.authorize_reply t ≡ answer r)
    × (r.payment_id ≡ id)
    × (requests t ≡ asked)

abbrev pub reserved_with : String → Booking → Booking
reserved_with reservation_id b = record b {
  status = reserved;
  reservation_id = some reservation_id;
}

abbrev pub paying_with : String → Booking → Booking
paying_with payment_id b = record b { status = payment_processing; payment_id = some payment_id }

abbrev pub confirmed_at : ℕ → Booking → Booking
confirmed_at now b = record b {
  status = confirmed;
  confirmed_at = some now;
  traveler_name = some "";
  traveler_email = some "";
}

module _ (env : Env) (saves : SavesSucceed env) where
  pub begin_step_lem :
      (n : ℕ) (name : String) (w : World Call Objects)
      → (saga : BookingSaga) × (begin_step env n name w
          ≡ (ok tt, objects_at w.state.booking saga (save_saga saga ∷ w.trace)))
  unfolding begin_step
  begin_step_lem n name w =
      let added = add_step (env.uuid w.trace) name w.state.saga in
      let saga : BookingSaga = record added {
        steps = on_step n (mark_in_progress (env.now w.trace)) added.steps;
      } in
      (saga, ground (arith, persist_lem env saves (objects_at w.state.booking saga w.trace)))

  pub complete_step_lem :
      (n : ℕ) (w : World Call Objects)
      → (saga : BookingSaga) × (complete_step env n w
          ≡ (ok tt, objects_at w.state.booking saga (save_saga saga ∷ w.trace)))
  unfolding complete_step
  complete_step_lem n w =
      let saga = mark_step_completed (env.now w.trace) n w.state.saga in
      (saga, ground (arith, persist_lem env saves (objects_at w.state.booking saga w.trace)))

  module _ (correlation_id : String) where
    pub roll_back_lem :
        (n : ℕ) (e : Error) (w : World Call Objects)
        → Ends
            (λ _ _. ⊥)
            (RolledBack correlation_id w.state.booking (requests w.trace))
            (roll_back env correlation_id n e w)
    unfolding roll_back
    roll_back_lem n e w =
        let saga = mark_step_failed n (message_of e) w.state.saga in
        let w' = objects_at w.state.booking saga w.trace in
        let w'' = objects_at w.state.booking saga (save_saga saga ∷ w.trace) in
        ground (arith, persist_lem env saves w', compensate_ends env saves correlation_id w'')
