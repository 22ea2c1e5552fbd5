-- ===== src/Inventory/NewReservation.antt =====
-- The reservation that inventory-service/src/application/use-cases/create-reservation builds.
use training_travel_booking.Shared.{
  ℕ, ◌+◌, ◌*◌, String, [], ◌∷◌, ◌≡◌, refl, inl, inr, arith, ok, Result-cases, Option-cases,
  or_default,
}
use training_travel_booking.Inventory.Values.{pending, new_segment, new_passenger, Date}
use training_travel_booking.Inventory.Reservation.{
  ReservationEvent, flight_reserved, FlightReservation, CreateFlightReservationProps, expiry,
  create_flight_reservation,
}
use training_travel_booking.Inventory.Calls.{Json, ReservationResponse}
use training_travel_booking.Inventory.UseCases.{
  CreateReservationCommand, Readings, segment_of, passenger_of, reservation_props, reservation_of,
  to_reservation_response,
}

-- A reservation that a command made at the time `now`, with the one event that tells of it, and what
-- its client is shown.
pub record IsNew (c : CreateReservationCommand) (now : ℕ) (r : FlightReservation)
    (event : ReservationEvent) (shown : ReservationResponse) : Type 0 where
  pub is_pending : r.status ≡ pending
  pub waits : r.uncommitted_events ≡ event ∷ []
  pub key : r.idempotency_key ≡ c.idempotency_key
  pub held : r.expires_at ≡ now + or_default c.hold_minutes 15 * 60 * 1000
  pub answered : to_reservation_response r ≡ ok shown
  pub shown_pending : shown.status ≡ pending
  pub shown_id : shown.reservation_id ≡ r.id
  pub shown_due : shown.expires_at ≡ r.expires_at

abbrev pub New : CreateReservationCommand → ℕ → FlightReservation → Type 0
New c now r = (event : ReservationEvent) × (shown : ReservationResponse) × IsNew c now r event shown

created-New :
    (c : CreateReservationCommand) (id : String) (now : ℕ) (props : CreateFlightReservationProps)
    (r : FlightReservation)
    → props.idempotency_key ≡ c.idempotency_key
    → props.hold_minutes ≡ c.hold_minutes
    → create_flight_reservation id now props ≡ ok r
    → New c now r
unfolding create_flight_reservation to_reservation_response
created-New c id now props r k m h = elim (Option-cases props.segment.departure_date) [
  | inl e ↦ ground arith
  | inr (d, e) ↦ elim (Option-cases props.segment.arrival_date) [
    | inl f ↦ ground arith
    | inr (a, f) ↦
        let event =
          flight_reserved props.correlation_id props.causation_id id props.offer_id
            props.passenger.passenger_id props.segment.origin props.segment.destination
            props.segment.flight_number props.segment.carrier d a props.cabin_class
            (expiry now props.hold_minutes) in
        elim (Result-cases (to_reservation_response r)) [
          | inl (shown, g) ↦ (
            event,
            shown,
            record {
              is_pending = ground arith;
              waits = ground arith;
              key = ground arith;
              held = ground arith;
              answered = g;
              shown_pending = ground arith;
              shown_id = ground arith;
              shown_due = ground arith;
            },
          )
          | inr (x, g) ↦ ground arith
        ]
  ]
]

pub reservation_of-New :
    (parse : String → Date) (id : String) (clock : Readings) (c : CreateReservationCommand)
    (order : Json) (r : FlightReservation)
    → reservation_of parse id clock c order ≡ ok r
    → New c clock.created r
unfolding reservation_of
reservation_of-New parse id clock c order r h =
    elim (Result-cases (new_segment (segment_of parse clock order))) [
      | inl (s, e) ↦ elim (Result-cases (new_passenger (passenger_of parse c))) [
        | inl (p, f) ↦
            let made : create_flight_reservation id clock.created (reservation_props c order s p)
                ≡ ok r =
              ground arith in
            created-New c id clock.created (reservation_props c order s p) r refl refl made
        | inr (x, f) ↦ ground arith
      ]
      | inr (x, e) ↦ ground arith
    ]
