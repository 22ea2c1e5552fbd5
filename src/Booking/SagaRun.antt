-- ===== src/Booking/SagaRun.antt =====
-- Whole runs of the saga, when the saga can be saved.
use training_travel_booking.Shared.{
  ℕ, String, List, ◌∷◌, ◌≡◌, refl, ap, ◌∙◌, ◌⊎◌, arith, Error, or_default, inl, inr,
}
use training_travel_booking.Shared.Effect.{World, Ends, Ends-bind, Ends-mono, ◌>>◌}
use training_travel_booking.Booking.Itinerary.{to_json}
use training_travel_booking.Booking.Aggregate.{Booking, pending}
use training_travel_booking.Booking.Saga.{SagaStatus, create_saga}
use training_travel_booking.Booking.Calls.{
  Call, Env, save_saga, validate_policy, create_reservation, authorize_payment, capture_payment,
}
use training_travel_booking.Booking.Orchestrator.{
  Objects, persist, policy_request, validate_step, reserve_step, authorize_step, capture_step,
  execute,
}
use training_travel_booking.Booking.Compensation.{SavesSucceed, requests, persist_lem}
use training_travel_booking.Booking.Steps.{
  objects_at, Refused, RolledBack, GaveReservation, GavePayment, reserved_with, paying_with,
  confirmed_at,
}
use training_travel_booking.Booking.Steps.Policy.{validate_step_lem}
use training_travel_booking.Booking.Steps.Reservation.{reserve_step_lem}
use training_travel_booking.Booking.Steps.Payment.{authorize_step_lem, capture_step_lem}

module _ (correlation_id : String) (b : Booking) where
  -- The requests of a run, step by step, the newest first.
  abbrev pub asked_policy : List Call → List Call
  asked_policy before = validate_policy (policy_request b) correlation_id ∷ before

  abbrev pub asked_reservation : List Call → List Call
  asked_reservation before =
      create_reservation b.offer_id (to_json b.itinerary) correlation_id ∷ asked_policy before

  abbrev pub asked_authorization : List Call → List Call
  asked_authorization before =
      authorize_payment b.id b.traveler_id b.total_amount b.currency correlation_id
      ∷ asked_reservation before

  abbrev pub asked_capture : String → List Call → List Call
  asked_capture payment_id before =
      capture_payment payment_id correlation_id ∷ asked_authorization before

module _ (env : Env) (correlation_id : String) (b : Booking) where
  -- The ids that a run got from the other services.
  abbrev pub ReservedAs : List Call → String → Type 0
  ReservedAs before = GaveReservation env (asked_reservation correlation_id b before)

  abbrev pub PayingAs : List Call → String → Type 0
  PayingAs before = GavePayment env (asked_authorization correlation_id b before)

  -- How far a run had come when it was rolled back: the booking it held, and its requests.
  pub data Interrupted (before : List Call) (held : Booking) (asked : List Call) : Type 0 where
    at_policy :
        held ≡ b → asked ≡ asked_policy correlation_id b before → Interrupted before held asked
    at_reservation :
        held ≡ b → asked ≡ asked_reservation correlation_id b before → Interrupted before held asked
    at_authorization :
        (reservation_id : String)
        → ReservedAs before reservation_id
        → held ≡ reserved_with reservation_id b
        → asked ≡ asked_authorization correlation_id b before
        → Interrupted before held asked
    at_capture :
        (reservation_id payment_id : String)
        → ReservedAs before reservation_id
        → PayingAs before payment_id
        → held ≡ paying_with payment_id (reserved_with reservation_id b)
        → asked ≡ asked_capture correlation_id b payment_id before
        → Interrupted before held asked

  -- The booking is confirmed, with the ids that the services gave.
  pub record Confirmed (before : List Call) (v : World Call Objects) : Type 0 where
    pub reservation_id : String
    pub payment_id : String
    pub reservation_given : ReservedAs before reservation_id
    pub payment_given : PayingAs before payment_id
    pub at : ℕ
    pub booking :
        v.state.booking ≡ confirmed_at at (paying_with payment_id (reserved_with reservation_id b))
    pub saga : v.state.saga.status ≡ SagaStatus.completed
    pub asked : requests v.trace ≡ asked_capture correlation_id b payment_id before

  -- Policy refused, or everything that was held is undone.
  abbrev pub Undone : List Call → Error → World Call Objects → Type 0
  Undone before e v =
      Refused b (asked_policy correlation_id b before) e v
      ⊎ ((held : Booking) × (asked : List Call) × Interrupted before held asked
          × RolledBack correlation_id held asked e v)

module _ (env : Env) (saves : SavesSucceed env) (correlation_id : String) (b : Booking)
    (before : List Call) where
  abbrev Done : Unit {0} → World Call Objects → Type 0
  Done _ = Confirmed env correlation_id b before

  abbrev Failed : Error → World Call Objects → Type 0
  Failed = Undone env correlation_id b before

  -- The booking between two steps, where `grown` adds the id that the step got.
  abbrev Grown :
      (String → Type 0) → (String → Booking) → List Call → Unit {0} → World Call Objects → Type 0
  Grown Given grown asked _ u =
      (id : String) × (u.state.booking ≡ grown id) × (requests u.trace ≡ asked) × Given id

  capture_run :
      (start : ℕ) (v : World Call Objects) (reservation_id payment_id : String)
      → ReservedAs env correlation_id b before reservation_id
      → PayingAs env correlation_id b before payment_id
      → v.state.booking ≡ paying_with payment_id (reserved_with reservation_id b)
      → requests v.trace ≡ asked_authorization correlation_id b before
      → Ends Done Failed (capture_step env correlation_id start v)
  capture_run start v reservation_id payment_id reserved paying held asked =
      let sent : capture_payment (or_default v.state.booking.payment_id "") correlation_id
            ∷ requests v.trace
          ≡ asked_capture correlation_id b payment_id before =
        ground (arith, held, asked) in
      Ends-mono _ Done _ Failed _
        (λ _ u done.
          let (now, booking, requested, status) = done in
          record {
            reservation_id = reservation_id;
            payment_id = payment_id;
            reservation_given = reserved;
            payment_given = paying;
            at = now;
            booking = booking ∙ ap (confirmed_at now) held;
            saga = status;
            asked = requested ∙ sent;
          })
        (λ e u undone. inr (
          v.state.booking,
          _,
          at_capture reservation_id payment_id reserved paying held sent,
          undone,
        ))
        (capture_step_lem env saves correlation_id start v (ap (λ x. x.status) held))

  authorize_run :
      (start : ℕ) (v : World Call Objects) (reservation_id : String)
      → ReservedAs env correlation_id b before reservation_id
      → v.state.booking ≡ reserved_with reservation_id b
      → requests v.trace ≡ asked_reservation correlation_id b before
      → Ends Done Failed
          ((authorize_step env correlation_id >> capture_step env correlation_id start) v)
  authorize_run start v reservation_id reserved held asked =
      let x = v.state.booking in
      let sent : authorize_payment x.id x.traveler_id x.total_amount x.currency correlation_id
            ∷ requests v.trace
          ≡ asked_authorization correlation_id b before =
        ground (arith, held, asked) in
      Ends-bind
        (Grown (PayingAs env correlation_id b before) (λ id. paying_with id x)
          (asked_authorization correlation_id b before))
        Done Failed (authorize_step env correlation_id) (λ _. capture_step env correlation_id start)
        v
        (Ends-mono _
          (Grown (PayingAs env correlation_id b before) (λ id. paying_with id x)
            (asked_authorization correlation_id b before))
          _ Failed (authorize_step env correlation_id v)
          (λ _ u (id, held', asked', (t, r, e, i, q)).
            (id, held', asked' ∙ sent, (t, r, e, i, q ∙ sent)))
          (λ e u undone. inr (x, _, at_authorization reservation_id reserved held sent, undone))
          (authorize_step_lem env saves correlation_id v (ap (λ y. y.status) held)))
        (λ _ u done.
          capture_run start u reservation_id done.0 reserved done.3
            (done.1 ∙ ap (paying_with done.0) held) done.2)

  reserve_run :
      (start : ℕ) (v : World Call Objects)
      → b.status ≡ pending
      → v.state.booking ≡ b
      → requests v.trace ≡ asked_policy correlation_id b before
      → Ends Done Failed (
          (reserve_step env correlation_id
              >> (authorize_step env correlation_id >> capture_step env correlation_id start))
            v)
  reserve_run start v fresh held asked =
      let x = v.state.booking in
      let sent : create_reservation x.offer_id (to_json x.itinerary) correlation_id
            ∷ requests v.trace
          ≡ asked_reservation correlation_id b before =
        ground (arith, held, asked) in
      Ends-bind
        (Grown (ReservedAs env correlation_id b before) (λ id. reserved_with id x)
          (asked_reservation correlation_id b before))
        Done Failed (reserve_step env correlation_id)
        (λ _. authorize_step env correlation_id >> capture_step env correlation_id start) v
        (Ends-mono _
          (Grown (ReservedAs env correlation_id b before) (λ id. reserved_with id x)
            (asked_reservation correlation_id b before))
          _ Failed (reserve_step env correlation_id v)
          (λ _ u (id, held', asked', (t, r, e, i, q)).
            (id, held', asked' ∙ sent, (t, r, e, i, q ∙ sent)))
          (λ e u undone. inr (x, _, at_reservation held sent, undone))
          (reserve_step_lem env saves correlation_id v (ap (λ y. y.status) held ∙ fresh)))
        (λ _ u done.
          authorize_run start u done.0 done.3 (done.1 ∙ ap (reserved_with done.0) held) done.2)

  validate_run :
      (start : ℕ) (v : World Call Objects)
      → b.status ≡ pending
      → v.state.booking ≡ b
      → requests v.trace ≡ before
      → Ends Done Failed (
          (validate_step env correlation_id
              >> (reserve_step env correlation_id
                  >> (authorize_step env correlation_id >> capture_step env correlation_id start)))
            v)
  validate_run start v fresh held asked =
      let x = v.state.booking in
      let sent : validate_policy (policy_request x) correlation_id ∷ requests v.trace
          ≡ asked_policy correlation_id b before =
        ground (arith, held, asked) in
      Ends-bind
        (λ _ u. (u.state.booking ≡ x) × (requests u.trace ≡ asked_policy correlation_id b before))
        Done Failed (validate_step env correlation_id)
        (λ _.
          reserve_step env correlation_id
          >> (authorize_step env correlation_id >> capture_step env correlation_id start))
        v
        (Ends-mono _
          (λ _ u. (u.state.booking ≡ x) × (requests u.trace ≡ asked_policy correlation_id b before))
          (λ e u.
            Refused x (validate_policy (policy_request x) correlation_id ∷ requests v.trace) e u
            ⊎ RolledBack correlation_id x
                (validate_policy (policy_request x) correlation_id ∷ requests v.trace) e u)
          Failed (validate_step env correlation_id v) (λ _ u done. (done.0, done.1 ∙ sent))
          (λ e u failed. elim failed [
            | inl (violations, same, kept, requested, status) ↦
                inl (violations, same, kept ∙ held, requested ∙ sent, status)
            | inr undone ↦ inr (x, _, at_policy held sent, undone)
          ])
          (validate_step_lem env saves correlation_id v))
        (λ _ u done. reserve_run start u fresh (done.0 ∙ held) done.1)

pub execute-Ends :
    (env : Env) (correlation_id : String) (w : World Call Objects)
    → SavesSucceed env
    → w.state.booking.status ≡ pending
    → let b = w.state.booking in
      let before = requests w.trace in
      Ends
        (λ _. Confirmed env correlation_id b before)
        (Undone env correlation_id b before)
        (execute env correlation_id w)
unfolding execute
execute-Ends env correlation_id w saves fresh =
    let b = w.state.booking in
    let saga = create_saga (env.uuid w.trace) b.id in
    let rest = λ (start : ℕ).
      validate_step env correlation_id
      >> (reserve_step env correlation_id
          >> (authorize_step env correlation_id >> capture_step env correlation_id start)) in
    Ends-bind (λ _ u. u ≡ objects_at b saga (save_saga saga ∷ w.trace)) _ _ (persist env)
      (λ _. rest (env.now w.trace)) (objects_at b saga w.trace)
      (rw (persist_lem env saves (objects_at b saga w.trace)) refl)
      (λ _ u same.
        validate_run env saves correlation_id b (requests w.trace) (env.now w.trace) u fresh
          (ap (λ x. x.state.booking) same) (ap (λ x. requests x.trace) same))
