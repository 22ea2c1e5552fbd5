-- ===== src/Booking/Cancellation.antt =====
-- booking-service/src/application/use-cases/cancel-booking.use-case.ts: what a cancellation leaves.
use training_travel_booking.Shared.{
  ℕ, String, Option, some, List, [], ◌∷◌, ◌++◌, ◌≡◌, ◌≢◌, refl, ◌∙◌, arith, ok, inl, inr,
  Bool-cases, is_truthy, or_default, if◌then◌else◌,
}
use training_travel_booking.Shared.Effect.{
  World, ask, pure, bind-returns, note, gets, ◌>>=◌, ◌>>◌, Reply-cases, answer,
}
use training_travel_booking.Booking.Aggregate.{Booking, cancelled, cancel}
use training_travel_booking.Booking.Mapper.{
  BookingEntity, BookingResponseDto, to_dto, to_entity, to_domain,
}
use training_travel_booking.Booking.Calls.{
  Call, Env, save_booking, update_row_status, cancel_reservation, refund_payment, publish,
  booking_cancelled, metric, bookings_cancelled,
}
use training_travel_booking.Booking.Compensation.{requests}
use training_travel_booking.Booking.UseCases.{
  UseCase, save, attempt, attempt_with, stored, require, release, cancel_booking,
}

-- The requests of a cancellation, the newest first.
abbrev pub release_requests : String → Booking → List Call
release_requests correlation_id b =
    (if is_truthy b.payment_id
      then refund_payment (or_default b.payment_id "") correlation_id ∷ []
      else [])
    ++ (if is_truthy b.reservation_id
        then cancel_reservation (or_default b.reservation_id "") correlation_id ∷ []
        else [])

attempt_with_lem :
    (env : Env) (id : Option String) (call : String → Call) (w : World Call (Unit {0}))
    → attempt_with env id call w ≡ (
      ok tt,
      record {
        state = w.state;
        trace = if is_truthy id then call (or_default id "") ∷ w.trace else w.trace;
      },
    )
unfolding attempt_with attempt
attempt_with_lem env id call w = elim (Bool-cases (is_truthy id)) [
  | inl there ↦ elim (Reply-cases (env.done (call (or_default id "") ∷ w.trace))) [
    | inl (u, e) ↦ ground arith
    | inr (m, e) ↦ ground arith
  ]
  | inr gone ↦ ground arith
]

attempt_lem :
    (env : Env) (c : Call) (w : World Call (Unit {0}))
    → attempt env c w ≡ (ok tt, record { state = w.state; trace = c ∷ w.trace })
unfolding attempt
attempt_lem env c w = elim (Reply-cases (env.done (c ∷ w.trace))) [
  | inl (u, e) ↦ ground arith
  | inr (m, e) ↦ ground arith
]

-- How the cancellation of `b` returns, and the booking that it stored.
abbrev pub Cancelled :
    Env → String → Option String → String → World Call (Unit {0}) → Booking → Type 0
Cancelled env booking_id reason correlation_id w b =
    (b' : Booking) × (v : World Call (Unit {0})) × (cancel_booking env booking_id reason
        correlation_id w
      ≡ (ok (to_dto b'), v))
    × (b' ≡ record b {
      status = cancelled;
      cancelled_at = some (env.now w.trace);
      cancel_reason = some (or_default reason "Cancelled by user");
    })
    × (requests v.trace ≡ release_requests correlation_id b ++ requests w.trace)
    × ((t : List Call) × (v.trace
          ≡ update_row_status b.id "CANCELLED"
            ∷ publish (
                booking_cancelled b.id correlation_id b.traveler_id
                  (or_default reason "Cancelled by user") (env.now w.trace))
            ∷ metric bookings_cancelled
            ∷ save_booking (to_entity b')
            ∷ t))

module _ (env : Env)
    (saves : (e : BookingEntity) (t : List Call) → env.done (save_booking e ∷ t) ≡ answer tt)
    (rows : (id status : String) (t : List Call)
      → env.done (update_row_status id status ∷ t) ≡ answer tt) where
  module _ (correlation_id reason : String) (b : Booking) (w : World Call (Unit {0})) where
    abbrev called : List Call
    called =
        let t =
          if is_truthy b.reservation_id
          then cancel_reservation (or_default b.reservation_id "") correlation_id ∷ w.trace
          else w.trace in
        if is_truthy b.payment_id
        then refund_payment (or_default b.payment_id "") correlation_id ∷ t
        else t

    abbrev recorded : List Call
    recorded = metric bookings_cancelled ∷ save_booking (to_entity b) ∷ called

    abbrev announced : List Call
    announced =
        publish (
          booking_cancelled b.id correlation_id b.traveler_id reason
            (or_default b.cancelled_at (env.now recorded)))
        ∷ recorded

    the_world : List Call → World Call (Unit {0})
    the_world t = record { state = w.state; trace = t }

    saved : save env b (the_world called) ≡ (ok tt, the_world (save_booking (to_entity b) ∷ called))
    unfolding the_world
    saved = ground (arith, saves (to_entity b) called)

    rowed :
        ask {A = Unit {0}} (update_row_status b.id "CANCELLED") env.done (the_world announced)
        ≡ (ok tt, the_world (update_row_status b.id "CANCELLED" ∷ announced))
    unfolding the_world
    rowed = ground (arith, rows b.id "CANCELLED" announced)

    -- The two calls that are attempted answer, fault, or are not made.
    release_lem : release env correlation_id reason b w ≡ (
      ok (to_dto b),
      record { state = w.state; trace = update_row_status b.id "CANCELLED" ∷ announced },
    )
    unfolding release the_world
    release_lem =
        let t =
          if is_truthy b.reservation_id
          then cancel_reservation (or_default b.reservation_id "") correlation_id ∷ w.trace
          else w.trace in
        let first =
          attempt_with_lem env b.reservation_id (λ id. cancel_reservation id correlation_id) w in
        let second =
          attempt_with_lem env b.payment_id (λ id. refund_payment id correlation_id)
            (record { state = w.state; trace = t }) in
        let announcement =
          booking_cancelled b.id correlation_id b.traveler_id reason
            (or_default b.cancelled_at (env.now recorded)) in
        let at = λ (t : List Call). the_world t in
        let show : Unit {0} → UseCase BookingResponseDto = λ _. pure (to_dto b) in
        let mark : Unit {0} → UseCase BookingResponseDto =
          λ _. ask {A = Unit {0}} (update_row_status b.id "CANCELLED") env.done >>= show in
        let tell : Unit {0} → UseCase BookingResponseDto = λ _.
          note (metric bookings_cancelled)
          >> (gets (λ w. or_default b.cancelled_at (env.now w.trace)) >>= λ time.
              attempt env
                (publish (booking_cancelled b.id correlation_id b.traveler_id reason time))
              >>= mark) in
        let store : Unit {0} → UseCase BookingResponseDto = λ _. save env b >>= tell in
        let refund : Unit {0} → UseCase BookingResponseDto =
          λ _. attempt_with env b.payment_id (λ id. refund_payment id correlation_id) >>= store in
        bind-returns (attempt_with env b.reservation_id λ id. cancel_reservation id correlation_id)
          refund w tt (at t) first
        ∙ bind-returns (attempt_with env b.payment_id λ id. refund_payment id correlation_id) store
            (at t) tt (at called) second
        ∙ bind-returns (save env b) tell (at called) tt (at (save_booking (to_entity b) ∷ called))
            saved
        ∙ bind-returns (attempt env (publish announcement)) mark (at recorded) tt (at announced)
            (attempt_lem env (publish announcement) (at recorded))
        ∙ bind-returns (ask {A = Unit {0}} (update_row_status b.id "CANCELLED") env.done) show
            (at announced) tt (at (update_row_status b.id "CANCELLED" ∷ announced)) rowed

    release_asks :
        requests (update_row_status b.id "CANCELLED" ∷ announced)
        ≡ release_requests correlation_id b ++ requests w.trace
    release_asks = ground arith

  abbrev cancelled_by : ℕ → String → Booking → Booking
  cancelled_by now reason b = record b {
    status = cancelled;
    cancelled_at = some now;
    cancel_reason = some reason;
  }

  cancel_booking_runs :
      (booking_id : String) (reason : Option String) (correlation_id : String)
      (w : World Call (Unit {0})) (e : BookingEntity) (b : Booking)
      → env.find_booking booking_id w.trace ≡ answer (some e)
      → to_domain e ≡ ok b
      → b.status ≢ cancelled
      → let r = or_default reason "Cancelled by user" in
        cancel_booking env booking_id reason correlation_id w
        ≡ release env correlation_id r (cancelled_by (env.now w.trace) r b) w
  unfolding cancel_booking require stored cancel
  cancel_booking_runs booking_id reason correlation_id w e b found read live = ground arith

  -- A cancellation of a booking that was found and is not cancelled yet, when the database accepts
  -- both writes: it returns whatever the inventory service, the payment service and the broker
  -- answer. The booking that is answered, and stored, is the one that was found, but CANCELLED at
  -- that time with the reason; the reservation is cancelled if there is one, then the payment
  -- refunded if there is one, and nothing else is asked of the other services; the last calls are the
  -- write of the booking, its metric, its event and the status of its row.
  pub cancel_booking_returns :
      (booking_id : String) (reason : Option String) (correlation_id : String)
      (w : World Call (Unit {0})) (e : BookingEntity) (b : Booking)
      → env.find_booking booking_id w.trace ≡ answer (some e)
      → to_domain e ≡ ok b
      → b.status ≢ cancelled
      → Cancelled env booking_id reason correlation_id w b
  cancel_booking_returns booking_id reason correlation_id w e b found read live =
      let r = or_default reason "Cancelled by user" in
      let b' = cancelled_by (env.now w.trace) r b in
      let run = cancel_booking_runs booking_id reason correlation_id w e b found read live in
      (
        b',
        _,
        run ∙ release_lem correlation_id r b' w,
        refl,
        release_asks correlation_id r b' w,
        (called correlation_id r b' w, refl),
      )
