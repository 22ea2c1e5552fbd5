-- ===== src/Inventory/Writes.antt =====
-- How a save and the publication of one event end.
use training_travel_booking.Shared.{
  String, none, some, true, false, Bool, List, [], ◌∷◌, ◌≡◌, refl, ap, ◌⊎◌, inl, inr, arith, Error,
  failure, Result, ok, err, Result-cases,
}
use training_travel_booking.Shared.Effect.{World, Reply-cases, answer, fault}
use training_travel_booking.Inventory.Reservation.{
  ReservationEvent, event_name, FlightReservation, clear_events,
}
use training_travel_booking.Inventory.Storage.{
  through, ReservationEntity, reservation_to_entity, update_entity,
}
use training_travel_booking.Inventory.Calls.{Call, save_row, publish, metric, kafka_published, Env}
use training_travel_booking.Inventory.UseCases.{save, publish_event, publish_each, save_and_publish}

-- The row that a save writes for `r`: a new one, or the stored one with three columns changed.
abbrev pub IsRowOf : Env → List Call → FlightReservation → ReservationEntity → Type 0
IsRowOf env t r row =
    ((old : ReservationEntity) × (env.find_row r.id t ≡ answer (some old))
      × (row ≡ update_entity old r))
    ⊎ ((env.find_row r.id t ≡ answer none) × (reservation_to_entity (env.encrypt t) r ≡ ok row))

-- A row that is written has the status of the reservation.
pub IsRowOf-status :
    (env : Env) (t : List Call) (r : FlightReservation) (row : ReservationEntity)
    → IsRowOf env t r row
    → row.status ≡ r.status
unfolding reservation_to_entity update_entity
IsRowOf-status env t r row (inl (old, f, e)) = ap (λ x. x.status) e
IsRowOf-status env t r row (inr (f, e)) =
    elim (Result-cases (through (env.encrypt t) r.passenger.passport_number)) [
      | inl (y, g) ↦ ground arith
      | inr (x, g) ↦ ground arith
    ]

-- The calls of a save of `row` and the publication of `e`, which succeeds or not.
abbrev pub told : ReservationEntity → ReservationEvent → Bool → List Call → List Call
told row e sent t = metric (kafka_published (event_name e) sent) ∷ publish e ∷ save_row row ∷ t

-- Why no row could be made: the database could not be read, or the passport not be encrypted.
abbrev pub CannotWrite : Env → List Call → FlightReservation → Error → Type 0
CannotWrite env t r x =
    ((message : String) × (env.find_row r.id t ≡ fault message) × (x ≡ failure message))
    ⊎ ((env.find_row r.id t ≡ answer none) × (reservation_to_entity (env.encrypt t) r ≡ err x))

-- How it ends for the event `e` of the reservation in `w`: nothing could be written; the write
-- failed; the event could not be sent; or all went through, and no event waits any more.
pub data Writes (env : Env) (e : ReservationEvent) (w : World Call FlightReservation)
    : Result (Unit {0}) × World Call FlightReservation → Type 0 where
  unwritten : (x : Error) → CannotWrite env w.trace w.state x → Writes env e w (err x, w)
  write_failed :
      (row : ReservationEntity) (message : String)
      → IsRowOf env w.trace w.state row
      → env.done (save_row row ∷ w.trace) ≡ fault message
      → Writes env e w
          (err (failure message), record { state = w.state; trace = save_row row ∷ w.trace })
  send_failed :
      (row : ReservationEntity) (message : String)
      → IsRowOf env w.trace w.state row
      → env.done (publish e ∷ save_row row ∷ w.trace) ≡ fault message
      → Writes env e w
          (err (failure message), record { state = w.state; trace = told row e false w.trace })
  written :
      (row : ReservationEntity)
      → IsRowOf env w.trace w.state row
      → Writes env e w
          (ok tt, record { state = clear_events w.state; trace = told row e true w.trace })

module _ (env : Env) (w : World Call FlightReservation) where
  abbrev Saved : ReservationEntity → World Call FlightReservation
  Saved row = record { state = w.state; trace = save_row row ∷ w.trace }

  save-cases :
      ((x : Error) × CannotWrite env w.trace w.state x × (save env w ≡ (err x, w)))
      ⊎ ((row : ReservationEntity) × IsRowOf env w.trace w.state row
          × (((message : String) × (env.done (save_row row ∷ w.trace) ≡ fault message)
                × (save env w ≡ (err (failure message), Saved row)))
              ⊎ (save env w ≡ (ok tt, Saved row))))
  unfolding save
  save-cases = elim (Reply-cases (env.find_row w.state.id w.trace)) [
    | inl (none, f) ↦ elim (Result-cases (reservation_to_entity (env.encrypt w.trace) w.state)) [
      | inl (row, e) ↦ inr (
        row,
        inr (f, e),
        elim (Reply-cases (env.done (save_row row ∷ w.trace))) [
          | inl (x, d) ↦ inr (ground arith)
          | inr (m, d) ↦ inl (m, d, ground arith)
        ],
      )
      | inr (x, e) ↦ inl (x, inr (f, e), ground arith)
    ]
    | inl (some old, f) ↦
        let row = update_entity old w.state in
        inr (
          row,
          inl (old, f, refl),
          elim (Reply-cases (env.done (save_row row ∷ w.trace))) [
            | inl (x, d) ↦ inr (ground arith)
            | inr (m, d) ↦ inl (m, d, ground arith)
          ],
        )
    | inr (m, f) ↦ inl (failure m, inl (m, f, refl), ground arith)
  ]

module _ (env : Env) (w : World Call FlightReservation) (e : ReservationEvent) where
  published_lem :
      (row : ReservationEntity)
      → w.state.uncommitted_events ≡ e ∷ []
      → IsRowOf env w.trace w.state row
      → save env w ≡ (ok tt, Saved env w row)
      → Writes env e w (save_and_publish env w)
  unfolding save_and_publish publish_each publish_event
  published_lem row one i s = elim (Reply-cases (env.done (publish e ∷ save_row row ∷ w.trace))) [
    | inl (x, d) ↦
        let run : save_and_publish env w
            ≡ (ok tt, record { state = clear_events w.state; trace = told row e true w.trace }) =
          ground arith in
        rw run (written row i)
    | inr (m, d) ↦
        let run : save_and_publish env w
            ≡ (err (failure m), record { state = w.state; trace = told row e false w.trace }) =
          ground arith in
        rw run (send_failed row m i d)
  ]

  -- A save and the publication of the one event that waits, whatever the outside answers.
  pub save_and_publish-Writes :
      w.state.uncommitted_events ≡ e ∷ [] → Writes env e w (save_and_publish env w)
  unfolding save_and_publish
  save_and_publish-Writes one = elim (save-cases env w) [
    | inl (x, c, s) ↦
        let run : save_and_publish env w ≡ (err x, w) = ground arith in rw run (unwritten x c)
    | inr (row, i, inl (m, d, s)) ↦
        let run : save_and_publish env w ≡ (err (failure m), Saved env w row) = ground arith in
        rw run (write_failed row m i d)
    | inr (row, i, inr s) ↦ published_lem row one i s
  ]
