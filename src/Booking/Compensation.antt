-- ===== src/Booking/Compensation.antt =====
-- What the saga's compensation undoes, when the saga can be saved.
use training_travel_booking.Shared.{
  String, Option, Bool, true, false, List, [], ◌∷◌, ◌++◌, ◌≡◌, ◌⊎◌, arith, Result, ok, err,
  is_truthy, or_default, if◌then◌else◌, Bool-cases, inl, inr, ◌||◌,
}
use training_travel_booking.Shared.Effect.{World, Reply-cases, answer, fault}
use training_travel_booking.Booking.Aggregate.{Booking, fail}
use training_travel_booking.Booking.Saga.{
  BookingSaga, SagaStatus, begin_compensation, mark_compensated, mark_compensated_with_errors,
}
use training_travel_booking.Booking.Calls.{
  Call, Env, save_booking, save_saga, upsert_row, update_row_status, validate_policy,
  create_reservation, cancel_reservation, authorize_payment, capture_payment, refund_payment,
  publish, metric, compensation_failed,
}
use training_travel_booking.Booking.Orchestrator.{
  Objects, persist, best_effort, undo, settle, compensate, compensation_error,
}

-- The database accepts every save of a saga.
abbrev pub SavesSucceed : Env → Type 0
SavesSucceed env = (saga : BookingSaga) (t : List Call) → env.done (save_saga saga ∷ t) ≡ answer tt

-- The requests to other services among the calls, the newest first.
abbrev pub requests : List Call → List Call
requests [] = []
requests (save_booking b ∷ t) = requests t
requests (save_saga s ∷ t) = requests t
requests (upsert_row r ∷ t) = requests t
requests (update_row_status i s ∷ t) = requests t
requests (validate_policy r c ∷ t) = validate_policy r c ∷ requests t
requests (create_reservation o i c ∷ t) = create_reservation o i c ∷ requests t
requests (cancel_reservation r c ∷ t) = cancel_reservation r c ∷ requests t
requests (authorize_payment b t' a m c ∷ t) = authorize_payment b t' a m c ∷ requests t
requests (capture_payment p c ∷ t) = capture_payment p c ∷ requests t
requests (refund_payment p c ∷ t) = refund_payment p c ∷ requests t
requests (publish e ∷ t) = requests t
requests (metric m ∷ t) = requests t

-- The requests that undo what a booking holds, the newest first: first the payment is refunded,
-- then the reservation is cancelled, each only if there is an id.
abbrev pub undo_requests : String → Booking → List Call
undo_requests correlation_id b =
    (if is_truthy b.reservation_id
      then cancel_reservation (or_default b.reservation_id "") correlation_id ∷ []
      else [])
    ++ (if is_truthy b.payment_id
        then refund_payment (or_default b.payment_id "") correlation_id ∷ []
        else [])

-- Whether the other service faulted a request that undoes, after the calls `t`, if there is an id.
unfoldable pub undo_failed : Env → Option String → (String → Call) → List Call → Bool
undo_failed env id call t =
    if is_truthy id
    then elim (env.done (call (or_default id "") ∷ t)) [ answer u ↦ false | fault m ↦ true ]
    else false

-- The calls of undoing: the request, if there is an id, and a metric if it was faulted.
unfoldable pub after_undo : Env → Option String → (String → Call) → List Call → List Call
unfolding undo_failed
after_undo env id call t =
    let asked = if is_truthy id then call (or_default id "") ∷ t else t in
    if undo_failed env id call t then metric compensation_failed ∷ asked else asked

-- Undoing leaves the objects alone, makes at most its one request, and does not throw.
pub undo_lem :
    (env : Env) (id : Option String) (call : String → Call) (w : World Call Objects)
    → (undo env id call w ≡ (
      ok (undo_failed env id call w.trace),
      record { state = w.state; trace = after_undo env id call w.trace },
    ))
      × (requests (after_undo env id call w.trace)
          ≡ requests (if is_truthy id then call (or_default id "") ∷ w.trace else w.trace))
unfolding undo best_effort undo_failed after_undo
undo_lem env id call w = elim (Bool-cases (is_truthy id)) [
  | inl there ↦ elim (Reply-cases (env.done (call (or_default id "") ∷ w.trace))) [
    | inl (u, e) ↦ (ground arith, ground arith)
    | inr (m, e) ↦ (ground arith, ground arith)
  ]
  | inr gone ↦ (ground arith, ground arith)
]

-- Whether a compensation from `w` could not undo something: the payment first, then the reservation.
abbrev pub some_undo_failed : Env → String → World Call Objects → Bool
some_undo_failed env correlation_id w =
    let refund : String → Call = λ id. refund_payment id correlation_id in
    let t = save_saga (begin_compensation w.state.saga) ∷ w.trace in
    undo_failed env w.state.booking.payment_id refund t
    || undo_failed env w.state.booking.reservation_id (λ id. cancel_reservation id correlation_id)
        (after_undo env w.state.booking.payment_id refund t)

-- How a compensation ends, by whether something could not be undone.
abbrev pub Reports : Bool → Result (Unit {0}) → SagaStatus → Type 0
Reports false r status = (r ≡ ok tt) × (status ≡ SagaStatus.compensated)
Reports true r status = (r ≡ err compensation_error) × (status ≡ SagaStatus.compensated_with_errors)

abbrev pub Undid :
    Env → String → World Call Objects → Result (Unit {0}) × World Call Objects → Type 0
Undid env correlation_id w (r, v) =
    (v.state.booking ≡ fail "Saga compensation" w.state.booking)
    × (requests v.trace ≡ undo_requests correlation_id w.state.booking ++ requests w.trace)
    × Reports (some_undo_failed env correlation_id w) r v.state.saga.status

abbrev pub Compensated :
    String → World Call Objects → Result (Unit {0}) × World Call Objects → Type 0
Compensated correlation_id w (r, v) =
    (v.state.booking ≡ fail "Saga compensation" w.state.booking)
    × (requests v.trace ≡ undo_requests correlation_id w.state.booking ++ requests w.trace)
    × ((r ≡ ok tt) × (v.state.saga.status ≡ SagaStatus.compensated)
        ⊎ (r ≡ err compensation_error) × (v.state.saga.status ≡ SagaStatus.compensated_with_errors))

abbrev objects : Booking → BookingSaga → List Call → World Call Objects
objects b saga t = record { state = record { booking = b; saga = saga }; trace = t }

module _ (env : Env) (saves : SavesSucceed env) where
  pub persist_lem :
      (w : World Call Objects)
      → persist env w
        ≡ (ok tt, record { state = w.state; trace = save_saga w.state.saga ∷ w.trace })
  unfolding persist
  persist_lem w = rw (saves w.state.saga w.trace)

  module _ (correlation_id : String) where
    settle_lem :
        (b : Booking) (saga : BookingSaga) (t : List Call) (failed : Bool)
        → let w : World Call Objects = record {
          state = record { booking = b; saga = saga };
          trace = t;
        } in
          let (r, v) = settle env failed w in
          (v.state.booking ≡ fail "Saga compensation" b)
          × (requests v.trace ≡ requests t)
          × Reports failed r v.state.saga.status
    unfolding settle mark_compensated mark_compensated_with_errors
    settle_lem b saga t true = ground (
      arith,
      persist_lem (record {
        state = record {
          booking = fail "Saga compensation" b;
          saga = mark_compensated_with_errors saga;
        };
        trace = t;
      }),
    )
    settle_lem b saga t false = ground (
      arith,
      persist_lem (record {
        state = record { booking = fail "Saga compensation" b; saga = mark_compensated saga };
        trace = t;
      }),
    )

    -- A compensation, when the database accepts every save of the saga, whatever the other services
    -- answer: the booking is FAILED and else as it was; exactly what it holds is undone, the payment
    -- first and then the reservation; if neither of these requests was faulted, the run returns with
    -- a COMPENSATED saga, and if one was, it throws the compensation error with a saga that is
    -- COMPENSATED_WITH_ERRORS.
    pub compensate_lem :
        (w : World Call Objects) → Undid env correlation_id w (compensate env correlation_id w)
    unfolding compensate
    compensate_lem w =
        let b = w.state.booking in
        let saga = begin_compensation w.state.saga in
        let refund : String → Call = λ id. refund_payment id correlation_id in
        let cancel : String → Call = λ id. cancel_reservation id correlation_id in
        let t = save_saga saga ∷ w.trace in
        let t' = after_undo env b.payment_id refund t in
        let t'' = after_undo env b.reservation_id cancel t' in
        let (refunds, refund_sent) = undo_lem env b.payment_id refund (objects b saga t) in
        let (cancels, cancel_sent) = undo_lem env b.reservation_id cancel (objects b saga t') in
        let (marked, quiet, outcome) =
          settle_lem b saga t'' (some_undo_failed env correlation_id w) in
        let run : compensate env correlation_id w
            ≡ settle env (some_undo_failed env correlation_id w) (objects b saga t'') =
          ground (arith, persist_lem (objects b saga w.trace), refunds, cancels) in
        rw run (marked, ground arith, outcome)

    -- What the callers of a compensation use of it.
    pub compensate_ends :
        (w : World Call Objects) → Compensated correlation_id w (compensate env correlation_id w)
    compensate_ends w =
        let (booking, asked, reported) = compensate_lem w in
        (booking, asked, either (some_undo_failed env correlation_id w) reported)
      where
        r : Result (Unit {0})
        r = (compensate env correlation_id w).0

        status : SagaStatus
        status = (compensate env correlation_id w).1.state.saga.status

        either :
            (failed : Bool)
            → Reports failed r status
            → (r ≡ ok tt) × (status ≡ SagaStatus.compensated)
              ⊎ (r ≡ err compensation_error) × (status ≡ SagaStatus.compensated_with_errors)
        either false h = inl h
        either true h = inr h
