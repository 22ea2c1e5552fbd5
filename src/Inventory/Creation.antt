-- ===== src/Inventory/Creation.antt =====
-- inventory-service/src/application/use-cases/create-reservation.
use training_travel_booking.Shared.{
  String, none, some, Bool, true, false, List, ◌≡◌, refl, sym, ap, subst, ◌∙◌, ◌⊎◌, inl, inr, arith,
  Error, Result, ok, err, Result-cases, eq_iff, str_eq,
}
use training_travel_booking.Shared.Effect.{
  World, Reply-cases, answer, fault, Ends, Ends-bind, Ends-mono, bind-returns, pure, ◌>>=◌,
}
use training_travel_booking.Inventory.Values.{new_segment, invalid_segment, airport}
use training_travel_booking.Inventory.Reservation.{ReservationEvent, FlightReservation}
use training_travel_booking.Inventory.Calls.{
  Json, AmadeusRequest, post_order, Call, ReservationResponse, Env,
}
use training_travel_booking.Inventory.Amadeus.{create_order, execute_request}
use training_travel_booking.Inventory.Retries.{Asked, Gave, execute_request-Asked}
use training_travel_booking.Inventory.UseCases.{
  UseCase, on_reservation, CreateReservationCommand, Readings, readings, extract, reservation_of,
  build_reservation, record_reservation, create_uncached, create_reservation,
}
use training_travel_booking.Inventory.NewReservation.{IsNew, reservation_of-New}
use training_travel_booking.Inventory.Recording.{
  Stopped, before_save, Recorded, Kept, record_reservation-Kept,
}

module _ (env : Env) where
  -- What a command asks Amadeus for.
  abbrev order_for : CreateReservationCommand → AmadeusRequest
  order_for c = post_order c.offer_id c.passenger_id c.cabin_class

  -- Amadeus was asked for the order, and this is its answer to the last request.
  abbrev pub Ordered :
      CreateReservationCommand → Json → World Call (Unit {0}) → World Call (Unit {0}) → Type 0
  Ordered c order w u = Asked env (order_for c) 3 w u × Gave env (order_for c) order u

  -- The reservation that the command and the order tell of.
  abbrev pub BuiltFrom : CreateReservationCommand → Json → List Call → FlightReservation → Type 0
  BuiltFrom c order t r = reservation_of env.parse_date (env.uuid t) (readings env t) c order ≡ ok r

  -- A reservation that a run made, stored, announced and kept for the key, after its order.
  abbrev pub Made :
      CreateReservationCommand
      → World Call (Unit {0})
      → ReservationResponse
      → World Call (Unit {0})
      → Type 0
  Made c w response v =
      (u : World Call (Unit {0})) × (order : Json) × (r : FlightReservation)
      × (event : ReservationEvent) × Ordered c order w u
      × BuiltFrom c order u.trace r
      × IsNew c (env.now u.trace) r event response
      × Recorded env c.idempotency_key r event response u.trace v.trace

  abbrev pub Unmade :
      CreateReservationCommand → World Call (Unit {0}) → Error → World Call (Unit {0}) → Type 0
  Unmade c w e v =
      (u : World Call (Unit {0})) × Asked env (order_for c) 3 w u
      × Stopped c.idempotency_key u.trace v.trace

  -- After the order.
  abbrev AfterOrder : CreateReservationCommand → Json → UseCase ReservationResponse
  AfterOrder c order = do
    r ← build_reservation env c order
    on_reservation r (record_reservation env c.idempotency_key)

  on_reservation_lem :
      (c : CreateReservationCommand) (order : Json) (w u : World Call (Unit {0}))
      (r : FlightReservation) (event : ReservationEvent) (shown : ReservationResponse)
      (p : Result ReservationResponse × World Call FlightReservation)
      → Ordered c order w u
      → BuiltFrom c order u.trace r
      → IsNew c (env.now u.trace) r event shown
      → Kept env c.idempotency_key r event shown u.trace p
      → Ends {S = Unit {0}}
          (Made c w)
          (Unmade c w)
          (p.0, record { state = u.state; trace = p.1.trace })
  on_reservation_lem c order w u r event shown (ok a, v) asked built new (same, kept) = (
    u,
    order,
    r,
    event,
    asked,
    built,
    subst (IsNew c (env.now u.trace) r event) (sym same) new,
    subst (λ a. Recorded env c.idempotency_key r event a u.trace v.trace) (sym same) kept,
  )
  on_reservation_lem c order w u r event shown (err e, v) asked built new stopped =
      (u, asked.0, stopped)

  after_order-Ends :
      (c : CreateReservationCommand) (order : Json) (w u : World Call (Unit {0}))
      → Ordered c order w u
      → Ends (Made c w) (Unmade c w) (AfterOrder c order u)
  unfolding build_reservation
  after_order-Ends c order w u asked =
      elim (Result-cases
        (reservation_of env.parse_date (env.uuid u.trace) (readings env u.trace) c order)) [
          | inl (r, e) ↦
              let (event, shown, new) =
                reservation_of-New env.parse_date (env.uuid u.trace) (readings env u.trace) c order
                  r e in
              let built : build_reservation env c order u ≡ (ok r, u) = ap (λ x. (x, u)) e in
              let run =
                bind-returns (build_reservation env c order)
                  (λ r. on_reservation r (record_reservation env c.idempotency_key)) u r u built in
              rw run (
                on_reservation_lem c order w u r event shown
                  (record_reservation env c.idempotency_key (record { state = r; trace = u.trace }))
                  asked e new
                  (record_reservation-Kept env c.idempotency_key r event shown u.trace new.waits
                    new.answered))
          | inr (x, e) ↦
              let built : build_reservation env c order u ≡ (err x, u) = ap (λ x. (x, u)) e in
              let run : AfterOrder c order u ≡ (err x, u) = ground arith in
              rw run (u, asked.0, before_save)
        ]

  create_uncached-Ends :
      (c : CreateReservationCommand) (w : World Call (Unit {0}))
      → Ends (Made c w) (Unmade c w) (create_uncached env c w)
  unfolding create_uncached create_order
  create_uncached-Ends c w =
      Ends-bind (λ order u. Ordered c order w u) (Made c w) (Unmade c w)
        (create_order env c.offer_id c.passenger_id c.cabin_class) (AfterOrder c) w
        (Ends-mono (λ order u. Ordered c order w u) (λ order u. Ordered c order w u)
          (λ _ u. Asked env (order_for c) 3 w u) (Unmade c w) (execute_request env (order_for c) w)
          (λ a v h. h) (λ e v h. (v, h, before_save)) (execute_request-Asked env (order_for c) w))
        (λ order u asked. after_order-Ends c order w u asked)

  -- No response is known for the key, or Redis did not say.
  abbrev pub Unknown : CreateReservationCommand → World Call (Unit {0}) → Type 0
  Unknown c w =
      (env.find_response c.idempotency_key w.trace ≡ answer none)
      ⊎ ((message : String) × (env.find_response c.idempotency_key w.trace ≡ fault message))

  abbrev pub Answered :
      CreateReservationCommand
      → World Call (Unit {0})
      → ReservationResponse × Bool
      → World Call (Unit {0})
      → Type 0
  Answered c w (response, is_new) v =
      ((is_new ≡ false)
        × (v ≡ w)
        × (env.find_response c.idempotency_key w.trace ≡ answer (some response)))
      ⊎ ((is_new ≡ true) × Unknown c w × Made c w response v)

  answered_lem :
      (c : CreateReservationCommand) (w : World Call (Unit {0}))
      (p : Result ReservationResponse × World Call (Unit {0}))
      → Unknown c w
      → Ends (Made c w) (Unmade c w) p
      → Ends {S = Unit {0}}
          (Answered c w)
          (λ e v. Unknown c w × Unmade c w e v)
          (((λ _. p) >>= λ response. pure (response, true)) w)
  answered_lem c w (ok a, v) k h = inr (refl, k, h)
  answered_lem c w (err e, v) k h = (k, h)

  unkept_runs :
      (c : CreateReservationCommand) (w : World Call (Unit {0}))
      → Unknown c w
      → create_reservation env c w ≡ (create_uncached env c >>= λ response. pure (response, true)) w
  unfolding create_reservation
  unkept_runs c w (inl e) = ground arith
  unkept_runs c w (inr (m, e)) = ground arith

  unkept-Ends :
      (c : CreateReservationCommand) (w : World Call (Unit {0}))
      → Unknown c w
      → Ends (Answered c w) (λ e v. Unknown c w × Unmade c w e v) (create_reservation env c w)
  unkept-Ends c w k =
      rw (unkept_runs c w k)
        (answered_lem c w (create_uncached env c w) k (create_uncached-Ends c w))

  known_runs :
      (c : CreateReservationCommand) (w : World Call (Unit {0})) (response : ReservationResponse)
      → env.find_response c.idempotency_key w.trace ≡ answer (some response)
      → create_reservation env c w ≡ (ok (response, false), w)
  unfolding create_reservation
  known_runs c w response e = ground arith

  -- Creating a reservation, whatever Redis, Amadeus, the database, the cipher and the broker do. It
  -- returns the response that is kept for the key, and does nothing, or, if none was found, that of a
  -- new PENDING reservation, due at the end of its hold: then Amadeus was asked for the order alone, at
  -- least once and at most four times, the reservation is the one that the command and the answer of
  -- Amadeus to the last request tell of, and one save, one publication and keeping the response
  -- followed. If it throws, none was found for the key, and the run stopped before the save, at it, at the publication or at keeping
  -- the response; in no case is Amadeus asked to cancel the order.
  pub create_reservation-Ends :
      (c : CreateReservationCommand) (w : World Call (Unit {0}))
      → Ends (Answered c w) (λ e v. Unknown c w × Unmade c w e v) (create_reservation env c w)
  create_reservation-Ends c w = elim (Reply-cases (env.find_response c.idempotency_key w.trace)) [
    | inl (none, e) ↦ unkept-Ends c w (inl e)
    | inl (some response, e) ↦ rw (known_runs c w response e) (inl (refl, refl, e))
    | inr (m, e) ↦ unkept-Ends c w (inr (m, e))
  ]

  unplaced_order :
      (id : String) (clock : Readings) (c : CreateReservationCommand) (order : Json)
      → extract "origin" order ≡ none
      → extract "destination" order ≡ none
      → reservation_of env.parse_date id clock c order
        ≡ err (invalid_segment "Origin and destination must be different")
  unfolding reservation_of new_segment
  unplaced_order id clock c order o d =
      let same : str_eq (airport "XXX") (airport "XXX") ≡ true =
        (eq_iff (airport "XXX") (airport "XXX")).1 refl in
      rw (o, d, same) refl

  -- If the order that Amadeus made names neither airport in its `data`, the creation throws
  -- INVALID_FLIGHT_SEGMENT, and what was done is the asking for the order alone.
  pub create_uncached-unplaced :
      (c : CreateReservationCommand) (order : Json) (w u : World Call (Unit {0}))
      → create_order env c.offer_id c.passenger_id c.cabin_class w ≡ (ok order, u)
      → extract "origin" order ≡ none
      → extract "destination" order ≡ none
      → create_uncached env c w
        ≡ (err (invalid_segment "Origin and destination must be different"), u)
  unfolding create_uncached build_reservation
  create_uncached-unplaced c order w u h o d =
      let e = unplaced_order (env.uuid u.trace) (readings env u.trace) c order o d in
      let built : build_reservation env c order u
          ≡ (err (invalid_segment "Origin and destination must be different"), u) =
        ap (λ x. (x, u)) e in
      let rest : AfterOrder c order u
          ≡ (err (invalid_segment "Origin and destination must be different"), u) =
        ground arith in
      bind-returns (create_order env c.offer_id c.passenger_id c.cabin_class) (AfterOrder c) w order
        u h
      ∙ rest
