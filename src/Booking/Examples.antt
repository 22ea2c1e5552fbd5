-- ===== src/Booking/Examples.antt =====
-- Runs of the booking service at concrete inputs.
use training_travel_booking.Shared.{
  ◌+◌, ◌/◌, Number, finite, pos, cents, none, some, true, [], ◌∷◌, ◌≡◌, ◌≢◌, refl, ◌↔◌, arith,
  whole, ok,
}
use training_travel_booking.Shared.Text.{matches_exactly, is_three_capitals}
use training_travel_booking.Shared.Effect.{World, answer, Ends}
use training_travel_booking.Booking.Itinerary.{Itinerary, new_itinerary, to_json}
use training_travel_booking.Booking.Aggregate.{
  Booking, CreateBookingProps, create, cancel, fail, cancelled, failed, confirmed,
}
use training_travel_booking.Booking.Saga.{create_saga}
use training_travel_booking.Booking.Mapper.{to_entity, to_domain}
use training_travel_booking.Booking.Calls.{Call, Env}
use training_travel_booking.Booking.Orchestrator.{Objects, compensate}
use training_travel_booking.Booking.Compensation.{Undid, compensate_lem}
use training_travel_booking.Booking.UseCases.{CreateBookingDto, JwtPayload, create_booking}
use training_travel_booking.Booking.Placement.{
  WritesSucceed, Answered, Rejected, create_booking-Ends,
}
use training_travel_booking.Booking.Cancellation.{Cancelled, cancel_booking_returns}
use training_travel_booking.Booking.Lifecycle.{
  to_reserve, to_pay, to_confirm, run, apply, IsConsistent, run-create-IsConsistent, Moves,
  apply-Moves, keep, terminal_left,
}
use training_travel_booking.Booking.Storage.{IsBookable, new_itinerary_iff}

abbrev trip : Itinerary
trip = record {
  origin = "LHR";
  destination = "JFK";
  departure_date = 1767225600000;
  return_date = none;
  cabin_class = "ECONOMY";
  passengers = whole 2;
}

abbrev trip_props : CreateBookingProps
trip_props = record {
  traveler_id = "t1";
  offer_id = "o1";
  itinerary = trip;
  total_amount = whole 350;
  currency = none;
}

abbrev new_booking : Booking
new_booking = create "b1" trip_props

abbrev held_booking : Booking
held_booking = record new_booking { reservation_id = some "r1"; payment_id = some "p1" }

-- Everything answers, but the refund service and the broker may be down.
abbrev env : Env
env = record {
  now = λ t. 1767000000000;
  uuid = λ t. "b1";
  policy_reply = λ t. answer (record { valid = true; policy_id = none; violations = none });
  reservation_reply = λ t. answer (record { reservation_id = "r1"; status = "CONFIRMED" });
  authorize_reply = λ t. answer (record { payment_id = "p1"; status = "AUTHORIZED" });
  done = λ t. answer tt;
  find_booking = λ id t. answer (some (to_entity held_booking));
  find_saga = λ id t. answer none;
  find_row = λ id t. answer none;
}

abbrev writes : WritesSucceed env
writes = record { bookings = λ e t. refl; rows = λ r t. refl; sagas = λ s t. refl }

abbrev at_rest : World Call (Unit {0})
at_rest = record { state = tt; trace = [] }

abbrev objects : World Call Objects
objects = record {
  state = record { booking = new_booking; saga = create_saga "s1" "b1" };
  trace = [];
}

abbrev request : CreateBookingDto
request = record {
  traveler_id = "t1";
  flight_offer_id = "o1";
  itinerary = trip;
  total_amount = whole 350;
  currency = none;
  special_requests = none;
}

abbrev employee : JwtPayload
employee = record { sub = "t1"; role = "EMPLOYEE" }

create_booking-Ends_example :
    Ends
      (Answered env request employee at_rest)
      (Rejected env request employee at_rest)
      (create_booking env request employee "c1" at_rest)
create_booking-Ends_example = create_booking-Ends env writes request employee "c1" at_rest

compensate_lem_example : Undid env "c1" objects (compensate env "c1" objects)
compensate_lem_example = compensate_lem env (λ s t. refl) "c1" objects

held_read : to_domain (to_entity held_booking) ≡ ok held_booking
unfolding create to_domain to_entity to_json new_itinerary is_three_capitals matches_exactly
held_read = refl

held-live : held_booking.status ≢ cancelled
unfolding create
held-live = ground arith

cancel_booking_returns_example : Cancelled env "b1" none "c1" at_rest held_booking
cancel_booking_returns_example =
    cancel_booking_returns env (λ e t. refl) (λ i s t. refl) "b1" none "c1" at_rest
      (to_entity held_booking) held_booking refl held_read held-live

run-create-IsConsistent_example : IsConsistent (
    run
      (to_reserve "r1" ∷ to_pay "p1" ∷ to_reserve "r2" ∷ to_confirm 7 "" "" ∷ [])
      (create "b1" trip_props))
run-create-IsConsistent_example =
    run-create-IsConsistent "b1" trip_props
      (to_reserve "r1" ∷ to_pay "p1" ∷ to_reserve "r2" ∷ to_confirm 7 "" "" ∷ [])

apply-Moves_example :
    Moves new_booking.status (keep new_booking (apply (to_reserve "r1") new_booking)).status
apply-Moves_example = apply-Moves (to_reserve "r1") new_booking

abbrev confirmed_booking : Booking
confirmed_booking = record held_booking { status = confirmed }

terminal_left_example :
    (confirmed_booking.status ≢ cancelled
      → (b' : Booking) × (cancel 9 "changed" confirmed_booking ≡ ok b') × (b'.status ≡ cancelled))
    × (((fail "changed" confirmed_booking).status ≡ failed)
        × (confirmed_booking.status ≢ failed
            → (fail "changed" confirmed_booking).status ≢ confirmed_booking.status))
terminal_left_example = terminal_left confirmed_booking 9 "changed" refl

new_itinerary_iff_example : (new_itinerary trip ≡ ok trip) ↔ IsBookable trip
new_itinerary_iff_example = new_itinerary_iff trip

-- A column that rounds to two decimal places.
abbrev two_places : Number → Number
two_places (finite (pos mills)) = cents ((mills + 5) / 10)
two_places x = x
