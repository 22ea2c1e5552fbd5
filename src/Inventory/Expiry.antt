-- ===== src/Inventory/Expiry.antt =====
-- What a run of the expiry job does, of inventory-service/src/infrastructure/jobs.
use training_travel_booking.Shared.{
  ℕ, String, none, true, false, List, [], ◌∷◌, ◌≡◌, ◌≢◌, refl, ap, subst, ◌∙◌, ◌⊎◌, inl, inr, arith,
  Error, domain, failure, ◌<>◌, Result, ok, err, Bool-cases, Result-cases,
}
use training_travel_booking.Shared.Effect.{
  World, Reply-cases, answer, fault, Ends, update-then, note, ◌>>◌,
}
use training_travel_booking.Inventory.Values.{pending, expired, is_pending, status_name}
use training_travel_booking.Inventory.Reservation.{
  ReservationEvent, flight_reservation_expired, FlightReservation, expire,
}
use training_travel_booking.Inventory.Storage.{
  ReservationEntity, Cipher, to_reservation, entity_to_segment, entity_to_passenger,
}
use training_travel_booking.Inventory.Calls.{
  Call, save_row, publish, metric, reservations_expired, Env,
}
use training_travel_booking.Inventory.UseCases.{save_and_publish}
use training_travel_booking.Inventory.ExpiryJob.{
  map_rows, expire_item, expire_all, expire_reservations,
}
use training_travel_booking.Inventory.Writes.{
  IsRowOf, IsRowOf-status, told, CannotWrite, Writes, unwritten, write_failed, send_failed, written,
  save_and_publish-Writes,
}

-- The event of an expiry at a time.
abbrev pub expiry_event : ℕ → FlightReservation → ReservationEvent
expiry_event now r =
    flight_reservation_expired none none r.id r.passenger.passenger_id r.offer_id now

-- The row that expiring `r` writes, which says EXPIRED.
abbrev pub IsExpiryOf : Env → List Call → FlightReservation → ReservationEntity → Type 0
IsExpiryOf env t r row =
    (r' : FlightReservation) × (expire (env.now t) none none r ≡ ok r')
    × IsRowOf env t r' row
    × (row.status ≡ expired)

-- What the job did for one reservation, by the calls before and after.
pub data Handled (env : Env) (r : FlightReservation) : List Call → List Call → Type 0 where
  -- it does not wait any more
  not_due : {t : List Call} → r.status ≢ pending → Handled env r t t
  no_row :
      {t : List Call} (r' : FlightReservation) (x : Error)
      → expire (env.now t) none none r ≡ ok r'
      → CannotWrite env t r' x
      → Handled env r t t
  not_saved :
      {t : List Call} (row : ReservationEntity) (message : String)
      → IsExpiryOf env t r row
      → env.done (save_row row ∷ t) ≡ fault message
      → Handled env r t (save_row row ∷ t)
  not_sent :
      {t : List Call} (row : ReservationEntity) (message : String)
      → IsExpiryOf env t r row
      → env.done (publish (expiry_event (env.now t) r) ∷ save_row row ∷ t) ≡ fault message
      → Handled env r t (told row (expiry_event (env.now t) r) false t)
  handled :
      {t : List Call} (row : ReservationEntity)
      → IsExpiryOf env t r row
      → Handled env r t (metric reservations_expired ∷ told row (expiry_event (env.now t) r) true t)

-- One reservation after the other, each handled.
pub data AllHandled (env : Env) : List FlightReservation → List Call → List Call → Type 0 where
  none_left : {t : List Call} → AllHandled env [] t t
  next :
      {r : FlightReservation} {rs : List FlightReservation} {t u v : List Call}
      → Handled env r t u
      → AllHandled env rs u v
      → AllHandled env (r ∷ rs) t v

abbrev expiry_error : FlightReservation → Error
expiry_error r =
    domain ("Cannot expire reservation in status " <> status_name r.status)
      "INVALID_STATUS_TRANSITION" 422

expire-refused :
    (now : ℕ) (r : FlightReservation)
    → is_pending r.status ≡ false
    → expire now none none r ≡ err (expiry_error r)
unfolding expire
expire-refused now r h = ground arith

expire-pending :
    (now : ℕ) (r : FlightReservation)
    → r.uncommitted_events ≡ []
    → is_pending r.status ≡ true
    → (r' : FlightReservation) × (expire now none none r ≡ ok r')
      × (r'.uncommitted_events ≡ expiry_event now r ∷ [])
      × (r'.status ≡ expired)
unfolding expire
expire-pending now r q h = elim (Result-cases (expire now none none r)) [
  | inl (r', e) ↦ (r', e, ground arith, ground arith)
  | inr (x, e) ↦ ground arith
]

abbrev pub AllQuiet : List FlightReservation → Type 0
AllQuiet [] = Unit
AllQuiet (r ∷ rs) = (r.uncommitted_events ≡ []) × AllQuiet rs

pub to_reservation-quiet :
    (decrypt : Cipher) (e : ReservationEntity) (r : FlightReservation)
    → to_reservation decrypt e ≡ ok r
    → r.uncommitted_events ≡ []
unfolding to_reservation
to_reservation-quiet decrypt e r h = elim (Result-cases (entity_to_segment e)) [
  | inl (s, f) ↦ elim (Result-cases (entity_to_passenger decrypt e)) [
    | inl (p, g) ↦ ground arith
    | inr (x, g) ↦ ground arith
  ]
  | inr (x, f) ↦ ground arith
]

pub map_rows-AllQuiet :
    (decrypt : Cipher) (rows : List ReservationEntity) (rs : List FlightReservation)
    → map_rows decrypt rows ≡ ok rs
    → AllQuiet rs
unfolding map_rows
map_rows-AllQuiet decrypt [] rs h = let same : [] ≡ rs = ground arith in subst AllQuiet same tt
map_rows-AllQuiet decrypt (e ∷ rows) rs h = elim (Result-cases (to_reservation decrypt e)) [
  | inl (r, f) ↦ elim (Result-cases (map_rows decrypt rows)) [
    | inl (qs, g) ↦
        let same : r ∷ qs ≡ rs = ground arith in
        subst AllQuiet same
          (to_reservation-quiet decrypt e r f, map_rows-AllQuiet decrypt rows qs g)
    | inr (x, g) ↦ ground arith
  ]
  | inr (x, f) ↦ ground arith
]

module _ (env : Env) where
  after_save :
      (r r' : FlightReservation) (t : List Call)
      (p : Result (Unit {0}) × World Call FlightReservation)
      → expire (env.now t) none none r ≡ ok r'
      → r'.status ≡ expired
      → Writes env (expiry_event (env.now t) r) (record { state = r'; trace = t }) p
      → Handled env r t
          (((λ w. p) >> note (metric reservations_expired))
            (record { state = r'; trace = t })).1.trace
  after_save r r' t p e s (unwritten x c) = no_row r' x e c
  after_save r r' t p e s (write_failed row m i d) =
      not_saved row m (r', e, i, IsRowOf-status env t r' row i ∙ s) d
  after_save r r' t p e s (send_failed row m i d) =
      not_sent row m (r', e, i, IsRowOf-status env t r' row i ∙ s) d
  after_save r r' t p e s (written row i) =
      handled row (r', e, i, IsRowOf-status env t r' row i ∙ s)

  expire_item-Handled :
      (r : FlightReservation) (t : List Call)
      → r.uncommitted_events ≡ []
      → Handled env r t (expire_item env (record { state = r; trace = t })).1.trace
  unfolding expire_item
  expire_item-Handled r t q = elim (Bool-cases (is_pending r.status)) [
    | inl h ↦
        let (r', e, one, s) = expire-pending (env.now t) r q h in
        let w : World Call FlightReservation = record { state = r; trace = t } in
        let begun =
          update-then (expire (env.now t) none none)
            (save_and_publish env >> note (metric reservations_expired)) w r' e in
        let w' : World Call FlightReservation = record { state = r'; trace = t } in
        rw begun (
          after_save r r' t (save_and_publish env w') e s
            (save_and_publish-Writes env w' (expiry_event (env.now t) r) one))
    | inr h ↦
        let e = expire-refused (env.now t) r h in
        let run : expire_item env (record { state = r; trace = t })
            ≡ (err (expiry_error r), record { state = r; trace = t }) =
          ground arith in
        let late : r.status ≢ pending = ground arith in rw run (not_due late)
  ]

  -- What a list of mapped rows has in common: no event waits.
  pub expire_all-AllHandled :
      (rs : List FlightReservation) (w : World Call (Unit {0}))
      → AllQuiet rs
      → ((expire_all env rs w).0 ≡ ok tt) × AllHandled env rs w.trace (expire_all env rs w).1.trace
  unfolding expire_all
  expire_all-AllHandled [] w q = (refl, none_left)
  expire_all-AllHandled (r ∷ rs) w (q, qs) =
      let u : World Call FlightReservation = record { state = r; trace = w.trace } in
      let (e, h) =
        expire_all-AllHandled rs (record { state = w.state; trace = (expire_item env u).1.trace })
          qs in
      (e, next (expire_item-Handled r w.trace q) h)

  abbrev pub RanThrough : World Call (Unit {0}) → World Call (Unit {0}) → Type 0
  RanThrough w v =
      (rows : List ReservationEntity) × (rs : List FlightReservation) × (env.find_pending_before
          (env.now w.trace) w.trace
        ≡ answer rows)
      × (map_rows env.decrypt rows ≡ ok rs)
      × AllHandled env rs w.trace v.trace

  abbrev pub NeverBegan : World Call (Unit {0}) → Error → World Call (Unit {0}) → Type 0
  NeverBegan w e v =
      (v ≡ w)
      × (((message : String) × (env.find_pending_before (env.now w.trace) w.trace ≡ fault message)
            × (e ≡ failure message))
          ⊎ ((rows : List ReservationEntity) × (env.find_pending_before (env.now w.trace) w.trace
                ≡ answer rows)
              × (map_rows env.decrypt rows ≡ err e)))

  pub through_all :
      (rows : List ReservationEntity) (rs : List FlightReservation) (w : World Call (Unit {0}))
      → env.find_pending_before (env.now w.trace) w.trace ≡ answer rows
      → map_rows env.decrypt rows ≡ ok rs
      → expire_reservations env w ≡ (ok tt, (expire_all env rs w).1)
  unfolding expire_reservations
  through_all rows rs w f m =
      let (e, h) = expire_all-AllHandled rs w (map_rows-AllQuiet env.decrypt rows rs m) in
      let run : expire_reservations env w ≡ expire_all env rs w = ground arith in
      run ∙ ap (λ x. (x, (expire_all env rs w).1)) e

  -- A run of the expiry job, whatever the database, the cipher and the broker do, from call to call.
  -- If the search or the mapping of one row that it found fails, it throws and nothing is done. If
  -- not, it returns, and every reservation found is handled in turn, what fails for one of them
  -- leaving the others: its EXPIRED row is saved and the event published, up to the first failure,
  -- and it is counted exactly if nothing failed.
  pub expire_reservations-Ends :
      (w : World Call (Unit {0}))
      → Ends (λ _ v. RanThrough w v) (NeverBegan w) (expire_reservations env w)
  unfolding expire_reservations
  expire_reservations-Ends w =
      elim (Reply-cases (env.find_pending_before (env.now w.trace) w.trace)) [
        | inl (rows, f) ↦ elim (Result-cases (map_rows env.decrypt rows)) [
          | inl (rs, m) ↦ rw (through_all rows rs w f m) (
            rows,
            rs,
            f,
            m,
            (expire_all-AllHandled rs w (map_rows-AllQuiet env.decrypt rows rs m)).1,
          )
          | inr (x, m) ↦
              let run : expire_reservations env w ≡ (err x, w) = ground arith in
              rw run (refl, inr (rows, f, m))
        ]
        | inr (message, f) ↦
            let run : expire_reservations env w ≡ (err (failure message), w) = ground arith in
            rw run (refl, inl (message, f, refl))
      ]
