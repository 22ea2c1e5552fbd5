-- ===== src/Booking/Orchestrator.antt =====
-- booking-service/src/application/saga/booking-saga.orchestrator.ts, on the booking and the saga
-- that one run works on. Logging is left out. The four steps of `execute` are methods of their own.
use training_travel_booking.Shared.{
  ℕ, ◌-◌, String, Option, Bool, true, false, not, ◌||◌, List, [], ◌∷◌, Error, policy_violation,
  failure, Result, ok, err, message_of, is_truthy, or_default, if◌then◌else◌,
}
use training_travel_booking.Shared.Effect.{
  Method, pure, throw, gets, ask, try_catch, modify, update, note, when, ◌>>=◌, ◌>>◌,
}
use training_travel_booking.Booking.Itinerary.{to_json}
use training_travel_booking.Booking.Aggregate.{
  Booking, reserve, start_payment_processing, confirm, fail,
}
use training_travel_booking.Booking.Saga.{
  BookingSaga, create_saga, add_step, on_step, mark_in_progress, mark_failed, mark_step_completed,
  mark_step_failed, begin_compensation, mark_compensated, mark_compensated_with_errors, complete,
  fail_saga,
}
use training_travel_booking.Booking.Calls.{
  PolicyValidationRequest, PolicyValidationResponse, Call, Env, bookings_confirmed,
  compensation_failed, saga_duration, save_saga, validate_policy, create_reservation,
  cancel_reservation, authorize_payment, capture_payment, refund_payment, metric,
}

pub record Objects : Type 0 where
  pub booking : Booking
  pub saga : BookingSaga

abbrev pub Run : Type 0 → Type 0
Run = Method Call Objects

abbrev pub to_booking : (Booking → Result Booking) → Run (Unit {0})
to_booking f =
    update
      λ o. elim (f o.booking) [ ok b ↦ ok (record { booking = b; saga = o.saga }) | err e ↦ err e ]

abbrev pub to_saga : (List Call → BookingSaga → BookingSaga) → Run (Unit {0})
to_saga f w = modify (λ o. record { booking = o.booking; saga = f w.trace o.saga }) w

abbrev pub is_policy_violation : Error → Bool
is_policy_violation (policy_violation violations) = true
is_policy_violation _ = false

abbrev pub compensation_error : Error
compensation_error = failure "Saga compensation failed — manual intervention required"

abbrev pub policy_request : Booking → PolicyValidationRequest
policy_request b = record {
  traveler_id = b.traveler_id;
  department = "UNKNOWN";
  offer_id = b.offer_id;
  total_amount = b.total_amount;
  currency = b.currency;
  itinerary = to_json b.itinerary;
}

module _ (env : Env) where
  open env use {now, uuid, policy_reply, reservation_reply, authorize_reply, done}

  unfoldable pub persist : Run (Unit {0})
  persist w = ask (save_saga w.state.saga) done w

  -- A call inside `try`, whose fault only counts: true if it failed.
  unfoldable pub best_effort : Call → Run Bool
  best_effort c =
      try_catch (do ask {A = Unit {0}} c done; pure false)
        λ _. do note (metric compensation_failed); pure true

  -- Undo what has an id, a text that is not empty.
  unfoldable pub undo : Option String → (String → Call) → Run Bool
  undo id call = if is_truthy id then best_effort (call (or_default id "")) else pure false

  -- The end of `compensate`.
  unfoldable pub settle : Bool → Run (Unit {0})
  settle failed = do
    to_booking λ b. ok (fail "Saga compensation" b)
    to_saga λ _. if failed then mark_compensated_with_errors else mark_compensated
    persist
    when failed (throw compensation_error)

  unfoldable pub compensate : String → Run (Unit {0})
  compensate correlation_id = do
    to_saga λ _. begin_compensation
    persist
    payment_id ← gets λ w. w.state.booking.payment_id
    refund_failed ← undo payment_id λ id. refund_payment id correlation_id
    reservation_id ← gets λ w. w.state.booking.reservation_id
    cancel_failed ← undo reservation_id λ id. cancel_reservation id correlation_id
    settle (refund_failed || cancel_failed)

  -- The `catch` blocks of the steps 2, 3 and 4.
  unfoldable pub roll_back : String → ℕ → Error → Run (Unit {0})
  roll_back correlation_id n e = do
    to_saga λ _. mark_step_failed n (message_of e)
    persist
    compensate correlation_id
    throw e

  -- `addStep`, `markInProgress` on the new step, and the save.
  unfoldable pub begin_step : ℕ → String → Run (Unit {0})
  begin_step n step_name = do
    to_saga λ t saga. add_step (uuid t) step_name saga
    to_saga λ t saga. record saga { steps = on_step n (mark_in_progress (now t)) saga.steps }
    persist

  unfoldable pub complete_step : ℕ → Run (Unit {0})
  complete_step n = do to_saga λ t. mark_step_completed (now t) n; persist

  unfoldable pub policy_refused : PolicyValidationResponse → Run (Unit {0})
  policy_refused result = do
    to_saga λ _ saga. record saga { steps = on_step 1 (mark_failed "Policy violation") saga.steps }
    to_saga λ _. mark_step_failed 1 "Policy violation"
    to_saga λ _. fail_saga
    persist
    throw (policy_violation (or_default result.violations ("Policy violation" ∷ [])))

  unfoldable pub policy_unavailable : String → Error → Run (Unit {0})
  policy_unavailable correlation_id e = do
    to_saga λ _. mark_step_failed 1 (message_of e)
    to_saga λ _. fail_saga
    persist
    compensate correlation_id
    throw e

  unfoldable pub validate_step : String → Run (Unit {0})
  validate_step correlation_id = do
    begin_step 1 "validate_policy"
    try_catch
        (do
          b ← gets λ w. w.state.booking
          result ← ask (validate_policy (policy_request b) correlation_id) policy_reply
          if not result.valid then policy_refused result else complete_step 1)
        λ e. if is_policy_violation e then throw e else policy_unavailable correlation_id e

  unfoldable pub reserve_step : String → Run (Unit {0})
  reserve_step correlation_id = do
    begin_step 2 "create_reservation"
    try_catch
        (do
          b ← gets λ w. w.state.booking
          reservation ←
              ask (create_reservation b.offer_id (to_json b.itinerary) correlation_id)
                reservation_reply
          to_booking (reserve reservation.reservation_id)
          complete_step 2)
        (roll_back correlation_id 2)

  unfoldable pub authorize_step : String → Run (Unit {0})
  authorize_step correlation_id = do
    begin_step 3 "authorize_payment"
    try_catch
        (do
          b ← gets λ w. w.state.booking
          result ←
              ask (authorize_payment b.id b.traveler_id b.total_amount b.currency correlation_id)
                authorize_reply
          to_booking (start_payment_processing result.payment_id)
          complete_step 3)
        (roll_back correlation_id 3)

  -- `confirm`, the last saves and the metrics, after the capture went through.
  unfoldable pub finish : ℕ → Run (Unit {0})
  finish saga_start = do
    confirmed_at ← gets λ w. now w.trace
    to_booking (confirm confirmed_at "" "")
    to_saga λ t. mark_step_completed (now t) 4
    to_saga λ _. complete
    persist
    duration ← gets λ w. now w.trace - saga_start
    note (metric (saga_duration duration))
    note (metric bookings_confirmed)

  unfoldable pub capture_step : String → ℕ → Run (Unit {0})
  capture_step correlation_id saga_start = do
    begin_step 4 "capture_payment"
    try_catch
        (do
          payment_id ← gets λ w. w.state.booking.payment_id
          ask {A = Unit {0}} (capture_payment (or_default payment_id "") correlation_id) done
          finish saga_start)
        (roll_back correlation_id 4)

  -- `execute` makes the saga, so whatever saga the objects hold before is replaced.
  unfoldable pub execute : String → Run (Unit {0})
  execute correlation_id = do
    b ← gets λ w. w.state.booking
    to_saga λ t _. create_saga (uuid t) b.id
    saga_start ← gets λ w. now w.trace
    persist
    validate_step correlation_id
    reserve_step correlation_id
    authorize_step correlation_id
    capture_step correlation_id saga_start
