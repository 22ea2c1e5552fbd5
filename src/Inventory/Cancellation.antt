-- ===== src/Inventory/Cancellation.antt =====
-- inventory-service/src/application/use-cases/cancel-reservation.
use training_travel_booking.Shared.{
  ℕ, String, Option, none, some, Bool, true, false, not, ◌&&◌, List, [], ◌∷◌, ◌≡◌, refl, ap, subst,
  ◌∙◌, ◌⊎◌, inl, inr, arith, Error, failure, not_found, domain, Result, ok, err, Result-cases,
  Bool-cases, ◌<>◌,
}
use training_travel_booking.Shared.Effect.{
  World, Reply-cases, answer, Ends, Ends-bind, Ends-mono, update-then, pure, bind-returns, ◌>>◌,
}
use training_travel_booking.Inventory.Values.{
  ReservationStatus, cancelled, is_pending, is_confirmed, status_name,
}
use training_travel_booking.Inventory.Reservation.{
  ReservationEvent, flight_reservation_cancelled, FlightReservation, cancel_flight,
}
use training_travel_booking.Inventory.Storage.{ReservationEntity, to_reservation}
use training_travel_booking.Inventory.Calls.{Json, delete_order, Call, save_row, Env}
use training_travel_booking.Inventory.Amadeus.{cancel_order, execute_request}
use training_travel_booking.Inventory.Retries.{Asked, Gave, execute_request-Asked}
use training_travel_booking.Inventory.Writes.{
  IsRowOf, IsRowOf-status, told, Writes, unwritten, write_failed, send_failed, written,
  save_and_publish-Writes,
}
use training_travel_booking.Inventory.Expiry.{to_reservation-quiet}
use training_travel_booking.Inventory.UseCases.{
  on_reservation, CancelReservationCommand, existing_reservation, cancel_at_amadeus,
  cancel_existing, cancel_flight_reservation, save_and_publish,
}

-- The event of a cancellation at a time.
abbrev pub cancel_event : ℕ → CancelReservationCommand → FlightReservation → ReservationEvent
cancel_event now c r =
    flight_reservation_cancelled c.correlation_id c.causation_id r.id r.passenger.passenger_id now
      "USER_REQUESTED"

abbrev pub is_live : ReservationStatus → Bool
is_live s = not (not (is_pending s) && not (is_confirmed s))

cancel_flight-live :
    (now : ℕ) (c : CancelReservationCommand) (r : FlightReservation)
    → r.uncommitted_events ≡ []
    → is_live r.status ≡ true
    → (r' : FlightReservation) × (cancel_flight now c.correlation_id c.causation_id r ≡ ok r')
      × (r'.uncommitted_events ≡ cancel_event now c r ∷ [])
      × (r'.status ≡ cancelled)
      × (r'.amadeus_order_id ≡ r.amadeus_order_id)
unfolding cancel_flight
cancel_flight-live now c r q h =
    elim (Result-cases (cancel_flight now c.correlation_id c.causation_id r)) [
      | inl (r', e) ↦ (r', e, ground arith, ground arith, ground arith)
      | inr (x, e) ↦ ground arith
    ]

abbrev cancel_error : FlightReservation → Error
cancel_error r =
    domain ("Cannot cancel reservation in status " <> status_name r.status)
      "INVALID_STATUS_TRANSITION" 422

cancel_flight-refused :
    (now : ℕ) (c : CancelReservationCommand) (r : FlightReservation)
    → is_live r.status ≡ false
    → cancel_flight now c.correlation_id c.causation_id r ≡ err (cancel_error r)
unfolding cancel_flight
cancel_flight-refused now c r h = ground arith

-- Amadeus was asked to cancel the order, if the reservation has one.
abbrev pub Undone :
    Env → Option String → World Call FlightReservation → World Call FlightReservation → Type 0
Undone env none w u = u ≡ w
Undone env (some order_id) w u = Asked env (delete_order order_id) 3 w u

-- Amadeus answered the last of these requests.
abbrev pub Granted : Env → Option String → World Call FlightReservation → Type 0
Granted env none u = Unit
Granted env (some order_id) u = (body : Json) × Gave env (delete_order order_id) body u

Undone-state :
    (env : Env) (o : Option String) (w u : World Call FlightReservation)
    → Undone env o w u
    → u.state ≡ w.state
Undone-state env none w u z = ap (λ x. x.state) z
Undone-state env (some o) w u z = z.state

cancel_at_amadeus-Undone :
    (env : Env) (w : World Call FlightReservation) (o : Option String)
    → w.state.amadeus_order_id ≡ o
    → Ends
        (λ _ u. Undone env o w u × Granted env o u)
        (λ e u. Undone env o w u)
        (cancel_at_amadeus env w)
unfolding cancel_at_amadeus cancel_order
cancel_at_amadeus-Undone env w none h =
    let run : cancel_at_amadeus env w ≡ (ok tt, w) = ground arith in rw run (refl, tt)
cancel_at_amadeus-Undone env w (some o) h =
    let run : cancel_at_amadeus env w ≡ cancel_order env o w = ground arith in
    rw run (
      Ends-bind (λ body u. Undone env (some o) w u × Gave env (delete_order o) body u)
        (λ _ u. Undone env (some o) w u × Granted env (some o) u) (λ e u. Undone env (some o) w u)
        (execute_request env (delete_order o)) (λ _. pure tt) w
        (execute_request-Asked env (delete_order o) w) (λ body u (h, g). (h, (body, g))))

-- Where a cancellation that had begun stopped: before the save, at it, or at the publication.
pub data Broke : List Call → List Call → Type 0 where
  before_save : {t : List Call} → Broke t t
  at_save : {t : List Call} (row : ReservationEntity) → Broke t (save_row row ∷ t)
  at_send :
      {t : List Call} (row : ReservationEntity) (e : ReservationEvent)
      → Broke t (told row e false t)

module _ (env : Env) (c : CancelReservationCommand) where
  -- The row of `r'` was saved as CANCELLED, and the event published.
  abbrev pub Cancelled : ℕ → FlightReservation → FlightReservation → List Call → List Call → Type 0
  Cancelled now r r' t v =
      (row : ReservationEntity) × IsRowOf env t r' row
      × (row.status ≡ cancelled)
      × (v ≡ told row (cancel_event now c r) true t)

  after_save :
      (now : ℕ) (r r' : FlightReservation) (t : List Call)
      (p : Result (Unit {0}) × World Call FlightReservation)
      → r'.status ≡ cancelled
      → Writes env (cancel_event now c r) (record { state = r'; trace = t }) p
      → Ends (λ _ v. Cancelled now r r' t v.trace) (λ e v. Broke t v.trace) p
  after_save now r r' t p s (unwritten x z) = before_save
  after_save now r r' t p s (write_failed row m i d) = at_save row
  after_save now r r' t p s (send_failed row m i d) = at_send row (cancel_event now c r)
  after_save now r r' t p s (written row i) = (row, i, IsRowOf-status env t r' row i ∙ s, refl)

  -- From the reservation `r` that was read.
  abbrev pub CancelledFrom : FlightReservation → List Call → List Call → Type 0
  CancelledFrom r t v =
      (r' : FlightReservation) × (u : World Call FlightReservation) × (cancel_flight (env.now t)
          c.correlation_id c.causation_id r
        ≡ ok r')
      × Undone env r.amadeus_order_id (record { state = r'; trace = t }) u
      × Granted env r.amadeus_order_id u
      × Cancelled (env.now t) r r' u.trace v

  abbrev pub BrokeFrom : FlightReservation → List Call → List Call → Type 0
  BrokeFrom r t v =
      (v ≡ t)
      ⊎ ((r' : FlightReservation) × (u : World Call FlightReservation) × (cancel_flight (env.now t)
              c.correlation_id c.causation_id r
            ≡ ok r')
          × Undone env r.amadeus_order_id (record { state = r'; trace = t }) u
          × Broke u.trace v)

  save-Ends :
      (r r' : FlightReservation) (t : List Call) (u : World Call FlightReservation)
      → cancel_flight (env.now t) c.correlation_id c.causation_id r ≡ ok r'
      → Undone env r.amadeus_order_id (record { state = r'; trace = t }) u
      → Granted env r.amadeus_order_id u
      → u.state ≡ r'
      → r'.uncommitted_events ≡ cancel_event (env.now t) c r ∷ []
      → r'.status ≡ cancelled
      → is_live r.status ≡ true
      → Ends
          (λ _ v. (is_live r.status ≡ true) × CancelledFrom r t v.trace)
          (λ e v. BrokeFrom r t v.trace)
          (save_and_publish env u)
  save-Ends r r' t u e z g same one s h =
      Ends-mono (λ _ v. Cancelled (env.now t) r u.state u.trace v.trace)
        (λ _ v. (is_live r.status ≡ true) × CancelledFrom r t v.trace)
        (λ e v. Broke u.trace v.trace) (λ e v. BrokeFrom r t v.trace) (save_and_publish env u)
        (λ a v (row, i, st, tr).
          (h, (r', u, e, z, g, (row, subst (λ q. IsRowOf env u.trace q row) same i, st, tr))))
        (λ x v b. inr (r', u, e, z, b))
        (after_save (env.now t) r u.state u.trace (save_and_publish env u)
          (ap (λ q. q.status) same ∙ s)
          (save_and_publish-Writes env u (cancel_event (env.now t) c r)
            (ap (λ q. q.uncommitted_events) same ∙ one)))

  cancel_existing-Ends :
      (r : FlightReservation) (t : List Call)
      → r.uncommitted_events ≡ []
      → Ends
          (λ _ v. (is_live r.status ≡ true) × CancelledFrom r t v.trace)
          (λ e v. BrokeFrom r t v.trace)
          (cancel_existing env c.correlation_id c.causation_id (record { state = r; trace = t }))
  unfolding cancel_existing
  cancel_existing-Ends r t q = elim (Bool-cases (is_live r.status)) [
    | inl h ↦
        let (r', e, one, s, same) = cancel_flight-live (env.now t) c r q h in
        let w : World Call FlightReservation = record { state = r; trace = t } in
        let w' : World Call FlightReservation = record { state = r'; trace = t } in
        let begun =
          update-then (cancel_flight (env.now t) c.correlation_id c.causation_id)
            (cancel_at_amadeus env >> save_and_publish env) w r' e in
        rw begun (
          Ends-bind (λ _ u. Undone env r.amadeus_order_id w' u × Granted env r.amadeus_order_id u)
            (λ _ v. (is_live r.status ≡ true) × CancelledFrom r t v.trace)
            (λ e v. BrokeFrom r t v.trace) (cancel_at_amadeus env) (λ _. save_and_publish env) w'
            (Ends-mono
              (λ _ u. Undone env r.amadeus_order_id w' u × Granted env r.amadeus_order_id u)
              (λ _ u. Undone env r.amadeus_order_id w' u × Granted env r.amadeus_order_id u)
              (λ _ u. Undone env r.amadeus_order_id w' u) (λ e v. BrokeFrom r t v.trace)
              (cancel_at_amadeus env w') (λ a u z. z) (λ x u z. inr (r', u, e, z, before_save))
              (cancel_at_amadeus-Undone env w' r.amadeus_order_id same))
            (λ a u (z, g).
              save-Ends r r' t u e z g (Undone-state env r.amadeus_order_id w' u z) one s h))
    | inr h ↦
        let f = cancel_flight-refused (env.now t) c r h in
        let w : World Call FlightReservation = record { state = r; trace = t } in
        let run : cancel_existing env c.correlation_id c.causation_id w
            ≡ (err (cancel_error r), w) =
          ground arith in
        rw run (inl refl)
  ]

  -- A reservation that was found, live, and is cancelled.
  abbrev pub FoundAndCancelled : World Call (Unit {0}) → World Call (Unit {0}) → Type 0
  FoundAndCancelled w v =
      (row : ReservationEntity) × (r : FlightReservation) × (env.find_row c.reservation_id w.trace
        ≡ answer (some row))
      × (to_reservation env.decrypt row ≡ ok r)
      × (is_live r.status ≡ true)
      × CancelledFrom r w.trace v.trace

  abbrev pub NotCancelled : World Call (Unit {0}) → World Call (Unit {0}) → Type 0
  NotCancelled w v = (v.trace ≡ w.trace) ⊎ ((r : FlightReservation) × BrokeFrom r w.trace v.trace)

  on_reservation_lem :
      (row : ReservationEntity) (r : FlightReservation) (w : World Call (Unit {0}))
      (p : Result (Unit {0}) × World Call FlightReservation)
      → env.find_row c.reservation_id w.trace ≡ answer (some row)
      → to_reservation env.decrypt row ≡ ok r
      → Ends
          (λ _ v. (is_live r.status ≡ true) × CancelledFrom r w.trace v.trace)
          (λ e v. BrokeFrom r w.trace v.trace)
          p
      → Ends {S = Unit {0}}
          (λ _ v. FoundAndCancelled w v)
          (λ e v. NotCancelled w v)
          (p.0, record { state = w.state; trace = p.1.trace })
  on_reservation_lem row r w (ok a, v) f m (h, z) = (row, r, f, m, h, z)
  on_reservation_lem row r w (err e, v) f m z = inr (r, z)

  -- Cancelling a reservation, whatever the database, Amadeus and the broker do. It returns only if the
  -- reservation was found PENDING or CONFIRMED, and then Amadeus was asked to cancel its order, if it
  -- has one, at least once and at most four times, and answered the last request, the row was saved
  -- as CANCELLED and one event published. If it throws, nothing was done, or it stopped after asking
  -- Amadeus, which the breaker may have refused, at the save or at the publication, in this order.
  pub cancel_flight_reservation-Ends :
      (w : World Call (Unit {0}))
      → Ends
          (λ _ v. FoundAndCancelled w v)
          (λ e v. NotCancelled w v)
          (cancel_flight_reservation env c w)
  unfolding cancel_flight_reservation existing_reservation
  cancel_flight_reservation-Ends w = elim (Reply-cases (env.find_row c.reservation_id w.trace)) [
    | inl (none, f) ↦
        let run : cancel_flight_reservation env c w
            ≡ (err (not_found ("Reservation " <> c.reservation_id <> " not found")), w) =
          ground arith in
        rw run (inl refl)
    | inl (some row, f) ↦ elim (Result-cases (to_reservation env.decrypt row)) [
      | inl (r, m) ↦
          let found : existing_reservation env c.reservation_id w ≡ (ok r, w) = ground arith in
          let run =
            bind-returns (existing_reservation env c.reservation_id)
              (λ r. on_reservation r (cancel_existing env c.correlation_id c.causation_id)) w r w
              found in
          rw run (
            on_reservation_lem row r w
              (cancel_existing env c.correlation_id c.causation_id
                (record { state = r; trace = w.trace }))
              f m (cancel_existing-Ends r w.trace (to_reservation-quiet env.decrypt row r m)))
      | inr (x, m) ↦
          let run : cancel_flight_reservation env c w ≡ (err x, w) = ground arith in
          rw run (inl refl)
    ]
    | inr (m, f) ↦
        let run : cancel_flight_reservation env c w ≡ (err (failure m), w) = ground arith in
        rw run (inl refl)
  ]
