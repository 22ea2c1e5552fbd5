-- ===== src/Booking/Placement.antt =====
-- What creating a booking leaves in the databases.
use training_travel_booking.Shared.{
  ℕ, String, some, true, false, not, ◌&&◌, List, ◌∷◌, ◌≡◌, ◌≢◌, refl, ap, ◌∙◌, ◌⊎◌, arith, Error,
  http, Result, ok, err, inl, inr, message_of, str_eq, eq_iff, Bool-cases, Result-cases,
}
use training_travel_booking.Shared.Effect.{World, Reply-cases, answer, Ends, Ends-mono}
use training_travel_booking.Booking.Itinerary.{Itinerary, new_itinerary}
use training_travel_booking.Booking.Aggregate.{Booking, pending, confirmed, failed, create, fail}
use training_travel_booking.Booking.Mapper.{
  BookingEntity, BookingReadModelRow, BookingResponseDto, to_dto, to_entity, to_read_model_row,
}
use training_travel_booking.Booking.Calls.{
  Call, Env, save_booking, upsert_row, publish, metric, bookings_created,
}
use training_travel_booking.Booking.Orchestrator.{Objects, execute}
use training_travel_booking.Booking.Compensation.{SavesSucceed, requests}
use training_travel_booking.Booking.SagaRun.{
  Confirmed, Undone, Interrupted, at_policy, at_reservation, at_authorization, at_capture,
  execute-Ends,
}
use training_travel_booking.Booking.UseCases.{
  attempt, CreateBookingDto, JwtPayload, conclude, created_event, objects_of, booking_of, place,
  create_booking,
}

-- The database accepts every write.
pub record WritesSucceed (env : Env) : Type 0 where
  pub bookings : (e : BookingEntity) (t : List Call) → env.done (save_booking e ∷ t) ≡ answer tt
  pub rows : (r : BookingReadModelRow) (t : List Call) → env.done (upsert_row r ∷ t) ≡ answer tt
  pub sagas : SavesSucceed env

-- The last two writes are the booking `b` and its row.
abbrev pub LeftBehind : Booking → World Call (Unit {0}) → Type 0
LeftBehind b v =
    (now : ℕ) × (t : List Call) × (v.trace
      ≡ upsert_row (to_read_model_row now b) ∷ save_booking (to_entity b) ∷ t)

abbrev pub Shown : Booking → BookingResponseDto → World Call (Unit {0}) → Type 0
Shown b dto v =
    (b' : Booking) × (b'.status ≡ confirmed) × (b'.id ≡ b.id) × (dto ≡ to_dto b') × LeftBehind b' v

abbrev pub Recorded : Booking → Error → World Call (Unit {0}) → Type 0
Recorded b e v =
    (b' : Booking) × (b'.status ≡ failed)
    × (b'.cancel_reason ≡ some (message_of e))
    × (b'.id ≡ b.id)
    × LeftBehind b' v

-- The objects on which the saga runs, after the first save and the first event.
abbrev pub Launched : String → Booking → World Call (Unit {0}) → World Call Objects
Launched correlation_id b w = record {
  state = objects_of b;
  trace =
      publish (created_event correlation_id b)
      ∷ metric bookings_created
      ∷ save_booking (to_entity b)
      ∷ w.trace;
}

held-id :
    (env : Env) (correlation_id : String) (b : Booking) (before : List Call) (held : Booking)
    (asked : List Call)
    → Interrupted env correlation_id b before held asked
    → held.id ≡ b.id
held-id env correlation_id b before held asked (at_policy e _) = ap (λ x. x.id) e
held-id env correlation_id b before held asked (at_reservation e _) = ap (λ x. x.id) e
held-id env correlation_id b before held asked (at_authorization r g e _) = ap (λ x. x.id) e
held-id env correlation_id b before held asked (at_capture r p g k e _) = ap (λ x. x.id) e

Undone-id :
    (env : Env) (correlation_id : String) (b : Booking) (before : List Call) (e : Error)
    (v : World Call Objects)
    → Undone env correlation_id b before e v
    → v.state.booking.id ≡ b.id
unfolding fail
Undone-id env correlation_id b before e v (inl (_, _, same, _, _)) = ap (λ x. x.id) same
Undone-id env correlation_id b before e v (inr (held, asked, how, rolled)) =
    ap (λ x. x.id) rolled.booking ∙ held-id env correlation_id b before held asked how

fresh :
    (dto : CreateBookingDto) (i : Itinerary) (id : String) → (booking_of dto i id).status ≡ pending
unfolding create
fresh dto i id = refl

abbrev pub Allowed : CreateBookingDto → JwtPayload → Type 0
Allowed dto jwt = (jwt.role ≢ "EMPLOYEE") ⊎ (dto.traveler_id ≡ jwt.sub)

module _ (env : Env) (dto : CreateBookingDto) (jwt : JwtPayload) (w : World Call (Unit {0})) where
  -- The booking that a request with a valid itinerary begins with.
  abbrev pub Begun : Booking → Type 0
  Begun b =
      (i : Itinerary) × (new_itinerary dto.itinerary ≡ ok i)
      × (b ≡ booking_of dto i (env.uuid w.trace))

  abbrev pub Answered : BookingResponseDto → World Call (Unit {0}) → Type 0
  Answered shown v = Allowed dto jwt × ((b : Booking) × Begun b × Shown b shown v)

  abbrev pub Rejected : Error → World Call (Unit {0}) → Type 0
  Rejected e v = (v ≡ w) ⊎ ((b : Booking) × Begun b × Recorded b e v)

module _ (env : Env) (writes : WritesSucceed env) where
  conclude_ok :
      (u : Unit {0}) (b : Booking) (w : World Call (Unit {0}))
      → (v : World Call (Unit {0})) × (conclude env (ok u) b w ≡ (ok (to_dto b), v))
        × LeftBehind b v
  unfolding conclude
  conclude_ok u b w =
      let t = save_booking (to_entity b) ∷ w.trace in
      let r = to_read_model_row (env.now t) b in
      (
        record { state = w.state; trace = upsert_row r ∷ t },
        ground (arith, writes.bookings (to_entity b) w.trace, writes.rows r t),
        (env.now t, w.trace, refl),
      )

  conclude_err :
      (e : Error) (b : Booking) (w : World Call (Unit {0}))
      → (v : World Call (Unit {0})) × (conclude env (err e) b w ≡ (err e, v))
        × LeftBehind (fail (message_of e) b) v
  unfolding conclude
  conclude_err e b w =
      let f = fail (message_of e) b in
      let t = save_booking (to_entity f) ∷ w.trace in
      let r = to_read_model_row (env.now t) f in
      (
        record { state = w.state; trace = upsert_row r ∷ t },
        ground (arith, writes.bookings (to_entity f) w.trace, writes.rows r t),
        (env.now t, w.trace, refl),
      )

  abbrev Finished :
      World Call (Unit {0})
      → Result (Unit {0}) × World Call Objects
      → Result BookingResponseDto × World Call (Unit {0})
  Finished w (r, v) = conclude env r v.state.booking (record { state = w.state; trace = v.trace })

  place_finishes :
      (correlation_id : String) (b : Booking) (w : World Call (Unit {0}))
      → place env correlation_id b w
        ≡ Finished w (execute env correlation_id (Launched correlation_id b w))
  unfolding place attempt
  place_finishes correlation_id b w =
      let saved = writes.bookings (to_entity b) w.trace in
      elim (Reply-cases (env.done (Launched correlation_id b w).trace)) [
        | inl (u, e) ↦ ground (arith, saved, e)
        | inr (m, e) ↦ ground (arith, saved, e)
      ]

  -- Creating a booking from its first save on, when the databases accept every write: if it returns,
  -- the booking was confirmed, and the answer shows what the last two writes stored, the row for
  -- reading included; if it throws, the same booking was stored FAILED in both, with the message
  -- of the error that the caller gets as its reason.
  pub place-Ends :
      (correlation_id : String) (b : Booking) (w : World Call (Unit {0}))
      → b.status ≡ pending
      → Ends (Shown b) (Recorded b) (place env correlation_id b w)
  unfolding fail
  place-Ends correlation_id b w h = rw (place_finishes correlation_id b w) (
      finishes (execute env correlation_id (Launched correlation_id b w))
        (execute-Ends env correlation_id (Launched correlation_id b w) writes.sagas h))
    where
      finishes :
          (p : Result (Unit {0}) × World Call Objects)
          → Ends
              (λ _. Confirmed env correlation_id b (requests (Launched correlation_id b w).trace))
              (Undone env correlation_id b (requests (Launched correlation_id b w).trace))
              p
          → Ends (Shown b) (Recorded b) (Finished w p)
      finishes (ok u, v) c =
          let (v', run, left) =
            conclude_ok u v.state.booking (record { state = w.state; trace = v.trace }) in
          rw run
            (v.state.booking, ap (λ x. x.status) c.booking, ap (λ x. x.id) c.booking, refl, left)
      finishes (err e, v) u =
          let (v', run, left) =
            conclude_err e v.state.booking (record { state = w.state; trace = v.trace }) in
          rw run (
            fail (message_of e) v.state.booking,
            refl,
            refl,
            Undone-id env correlation_id b (requests w.trace) e v u,
            left,
          )

  create_booking_runs :
      (dto : CreateBookingDto) (jwt : JwtPayload) (correlation_id : String)
      (w : World Call (Unit {0})) (i : Itinerary)
      → (str_eq jwt.role "EMPLOYEE" && not (str_eq dto.traveler_id jwt.sub)) ≡ false
      → new_itinerary dto.itinerary ≡ ok i
      → create_booking env dto jwt correlation_id w
        ≡ place env correlation_id (booking_of dto i (env.uuid w.trace)) w
  unfolding create_booking
  create_booking_runs dto jwt correlation_id w i h e = ground arith

  create_booking_stops :
      (dto : CreateBookingDto) (jwt : JwtPayload) (correlation_id : String)
      (w : World Call (Unit {0})) (x : Error)
      → new_itinerary dto.itinerary ≡ err x
      → (e : Error) × (create_booking env dto jwt correlation_id w ≡ (err e, w))
  unfolding create_booking
  create_booking_stops dto jwt correlation_id w x e =
      elim (Bool-cases (str_eq jwt.role "EMPLOYEE" && not (str_eq dto.traveler_id jwt.sub))) [
        | inl h ↦ (http "EMPLOYEE can only create bookings for themselves" 403, ground arith)
        | inr h ↦ (x, ground arith)
      ]

  create_booking_refuses :
      (dto : CreateBookingDto) (jwt : JwtPayload) (correlation_id : String)
      (w : World Call (Unit {0}))
      → (str_eq jwt.role "EMPLOYEE" && not (str_eq dto.traveler_id jwt.sub)) ≡ true
      → create_booking env dto jwt correlation_id w
        ≡ (err (http "EMPLOYEE can only create bookings for themselves" 403), w)
  unfolding create_booking
  create_booking_refuses dto jwt correlation_id w h = ground arith

  allowed :
      (dto : CreateBookingDto) (jwt : JwtPayload)
      → (str_eq jwt.role "EMPLOYEE" && not (str_eq dto.traveler_id jwt.sub)) ≡ false
      → Allowed dto jwt
  allowed dto jwt h = elim (Bool-cases (str_eq dto.traveler_id jwt.sub)) [
    | inl same ↦ inr ((eq_iff dto.traveler_id jwt.sub).0 same)
    | inr other ↦ inl λ e. let same = (eq_iff jwt.role "EMPLOYEE").1 e in ground arith
  ]

  -- Creating a booking, when the databases accept every write. If it returns, the caller is no
  -- EMPLOYEE or books for themselves, the itinerary is valid, and the answer shows the booking that
  -- the last two writes stored CONFIRMED. If it throws, then either no call was made at all, or the
  -- booking was stored FAILED, in its row for reading too, with the error's message as the reason.
  pub create_booking-Ends :
      (dto : CreateBookingDto) (jwt : JwtPayload) (correlation_id : String)
      (w : World Call (Unit {0}))
      → Ends
          (Answered env dto jwt w)
          (Rejected env dto jwt w)
          (create_booking env dto jwt correlation_id w)
  create_booking-Ends dto jwt correlation_id w =
      elim (Bool-cases (str_eq jwt.role "EMPLOYEE" && not (str_eq dto.traveler_id jwt.sub))) [
        | inl h ↦ rw (create_booking_refuses dto jwt correlation_id w h) (inl refl)
        | inr h ↦ elim (Result-cases (new_itinerary dto.itinerary)) [
          | inl (i, e) ↦
              let b = booking_of dto i (env.uuid w.trace) in
              rw (create_booking_runs dto jwt correlation_id w i h e) (
                Ends-mono (Shown b) (Answered env dto jwt w) (Recorded b) (Rejected env dto jwt w)
                  (place env correlation_id b w)
                  (λ shown v s. (allowed dto jwt h, (b, (i, e, refl), s)))
                  (λ x v r. inr (b, (i, e, refl), r))
                  (place-Ends correlation_id b w (fresh dto i (env.uuid w.trace))))
          | inr (x, e) ↦
              let (y, run) = create_booking_stops dto jwt correlation_id w x e in rw run (inl refl)
        ]
      ]
