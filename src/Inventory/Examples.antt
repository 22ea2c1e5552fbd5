-- ===== src/Inventory/Examples.antt =====
-- Runs of the inventory service at concrete inputs.
use training_travel_booking.Shared.{none, some, false, List, [], ◌∷◌, ◌≡◌, refl, sym, ok, err}
use training_travel_booking.Shared.Effect.{World, answer, Ends}
use training_travel_booking.Shared.Trim.{trim, trim_end, trim_start, to_upper_case}
use training_travel_booking.Shared.Text.{char_at}
use training_travel_booking.Inventory.Values.{
  cancelled, FlightSegment, PassengerDetails, new_segment, new_passenger, invalid_segment,
}
use training_travel_booking.Inventory.Reservation.{
  flight_reserved, flight_reservation_cancelled, FlightReservation, CreateFlightReservationProps,
  expiry, pending_reservation, emit, cancel_flight,
}
use training_travel_booking.Inventory.Storage.{
  ReservationEntity, to_reservation, reservation_to_entity, update_entity, entity_with,
  entity_to_segment, entity_to_passenger,
}
use training_travel_booking.Inventory.Calls.{
  Json, string, object, no_fields, field, post_order, delete_order, response, Call, request, Env,
}
use training_travel_booking.Inventory.Amadeus.{
  create_order, execute_request, fired, attempts_left, one_attempt, after_attempt,
}
use training_travel_booking.Inventory.UseCases.{
  CreateReservationCommand, CancelReservationCommand, extract, get_field, create_uncached,
  create_reservation, cancel_flight_reservation,
}
use training_travel_booking.Inventory.ExpiryJob.{map_rows, expire_reservations}
use training_travel_booking.Inventory.Lifecycle.{
  ReservationOp, to_confirm, to_cancel, to_expire, apply, Follows, apply-Follows,
}
use training_travel_booking.Inventory.RoundTrip.{
  IsBuilt, Padded, padded_row, reread, to_reservation-reservation_to_entity,
}
use training_travel_booking.Inventory.Retries.{Asked, Gave, execute_request-Asked}
use training_travel_booking.Inventory.Expiry.{RanThrough, NeverBegan, expire_reservations-Ends}
use training_travel_booking.Inventory.AllExpired.{
  AllExpired, IsWorking, expire_reservations-AllExpired,
}
use training_travel_booking.Inventory.Creation.{
  Answered, Unknown, Unmade, create_reservation-Ends, create_uncached-unplaced,
}
use training_travel_booking.Inventory.Cancellation.{
  FoundAndCancelled, NotCancelled, cancel_flight_reservation-Ends,
}

abbrev flight : FlightSegment
flight = record {
  origin = "LHR";
  destination = "JFK";
  departure_date = some 1000;
  arrival_date = some 2000;
  flight_number = "BA178";
  carrier = "BA";
}

abbrev alice : PassengerDetails
alice = record {
  passenger_id = "p1";
  first_name = "Alice";
  last_name = "Smith";
  date_of_birth = none;
  passport_number = some "X1";
}

abbrev hold : CreateFlightReservationProps
hold = record {
  offer_id = "o1";
  amadeus_order_id = some "a1";
  segment = flight;
  passenger = alice;
  cabin_class = "ECONOMY";
  idempotency_key = "k1";
  hold_minutes = none;
  correlation_id = none;
  causation_id = none;
}

abbrev held : FlightReservation
held =
    emit
      (flight_reserved none none "r1" "o1" "p1" "LHR" "JFK" "BA178" "BA" 1000 2000 "ECONOMY"
        (expiry 5 none))
      (pending_reservation "r1" 5 hold)

abbrev story_of_held : List ReservationOp
story_of_held = to_confirm 6 ∷ to_expire 7 none none ∷ to_cancel 8 none none ∷ []

apply-Follows_example : Follows (to_expire 7 none none) held
apply-Follows_example = apply-Follows (to_expire 7 none none) held

abbrev row : ReservationEntity
row = entity_with (some "X1") held

held_stored : reservation_to_entity (λ s. answer s) held ≡ ok row
unfolding reservation_to_entity
held_stored = refl

flight_made : new_segment flight ≡ ok flight
unfolding new_segment trim trim_end trim_start to_upper_case char_at
flight_made = refl

alice_made : new_passenger alice ≡ ok alice
unfolding new_passenger trim trim_end trim_start
alice_made = refl

held-IsBuilt : IsBuilt held
held-IsBuilt = record {
  segment_props = flight;
  segment_made = flight_made;
  passenger_props = alice;
  passenger_made = alice_made;
}

row_padded : Padded row
unfolding trim trim_end trim_start
row_padded = record {
  origin = "LHR ";
  destination = "JFK";
  birth = some (some 0);
  same_origin = refl;
  same_destination = refl;
}

abbrev called_off : FlightReservation
called_off =
    emit (flight_reservation_cancelled none none "r1" "p1" 8 "USER_REQUESTED")
      (record held { status = cancelled; updated_at = 8 })

held_cancelled : apply (to_cancel 8 none none) held ≡ ok called_off
unfolding apply cancel_flight
held_cancelled = refl

to_reservation-reservation_to_entity_example :
    (to_reservation (λ s. answer s) (padded_row row row_padded) ≡ ok (reread row_padded.birth held))
    × (reservation_to_entity (λ s. answer s) called_off ≡ ok (update_entity row called_off))
    × (to_reservation
          (λ s. answer s)
          (record (update_entity row called_off) {
            origin = row_padded.origin;
            destination = row_padded.destination;
            passenger_dob = row_padded.birth;
          })
        ≡ ok (reread row_padded.birth called_off))
to_reservation-reservation_to_entity_example =
    to_reservation-reservation_to_entity (λ s. answer s) (λ s. answer s) held called_off row
      row_padded (to_cancel 8 none none) (λ s c e. sym e) held-IsBuilt held_stored held_cancelled

-- Amadeus and the database work; the order that Amadeus returns has no airports.
abbrev working : Env
working = record {
  now = λ t. 7;
  departure_clock = λ t. 6;
  arrival_clock = λ t. 7;
  uuid = λ t. "r1";
  random = λ t. 12345;
  refuses = λ t. false;
  opened = λ t. false;
  http_reply =
      λ t. response (object (field "data" (object (field "id" (string "a1") no_fields)) no_fields));
  parse_date = λ s. some 1000;
  encrypt = λ t s. answer s;
  decrypt = λ s. answer s;
  done = λ t. answer tt;
  find_row = λ id t. answer (some row);
  find_pending_before = λ now t. answer (row ∷ []);
  find_response = λ key t. answer none;
}

abbrev at_rest : World Call (Unit {0})
at_rest = record { state = tt; trace = [] }

abbrev command : CreateReservationCommand
command = record {
  offer_id = "o1";
  passenger_id = "p1";
  passenger_first_name = "Alice";
  passenger_last_name = "Smith";
  passenger_dob = none;
  passport_number = none;
  cabin_class = "ECONOMY";
  idempotency_key = "k1";
  hold_minutes = none;
  correlation_id = none;
  causation_id = none;
}

abbrev cancel_command : CancelReservationCommand
cancel_command = record { reservation_id = "r1"; correlation_id = none; causation_id = none }

execute_request-Asked_example :
    Ends
      (λ body v.
        Asked working (delete_order "a1") 3 at_rest v × Gave working (delete_order "a1") body v)
      (λ e v. Asked working (delete_order "a1") 3 at_rest v)
      (execute_request working (delete_order "a1") at_rest)
execute_request-Asked_example = execute_request-Asked working (delete_order "a1") at_rest

create_reservation-Ends_example :
    Ends
      (Answered working command at_rest)
      (λ e v. Unknown working command at_rest × Unmade working command at_rest e v)
      (create_reservation working command at_rest)
create_reservation-Ends_example = create_reservation-Ends working command at_rest

abbrev order : Json
order = object (field "data" (object (field "id" (string "a1") no_fields)) no_fields)

abbrev ordered : World Call (Unit {0})
ordered = record { state = tt; trace = request (post_order "o1" "p1" "ECONOMY") ∷ [] }

order_made : create_order working "o1" "p1" "ECONOMY" at_rest ≡ (ok order, ordered)
unfolding create_order execute_request fired attempts_left one_attempt after_attempt
order_made = refl

no_origin : extract "origin" order ≡ none
unfolding extract get_field
no_origin = refl

no_destination : extract "destination" order ≡ none
unfolding extract get_field
no_destination = refl

create_uncached-unplaced_example :
    create_uncached working command at_rest
    ≡ (err (invalid_segment "Origin and destination must be different"), ordered)
create_uncached-unplaced_example =
    create_uncached-unplaced working command order at_rest ordered order_made no_origin
      no_destination

cancel_flight_reservation-Ends_example :
    Ends
      (λ _ v. FoundAndCancelled working cancel_command at_rest v)
      (λ e v. NotCancelled working cancel_command at_rest v)
      (cancel_flight_reservation working cancel_command at_rest)
cancel_flight_reservation-Ends_example =
    cancel_flight_reservation-Ends working cancel_command at_rest

expire_reservations-Ends_example :
    Ends
      (λ _ v. RanThrough working at_rest v)
      (NeverBegan working at_rest)
      (expire_reservations working at_rest)
expire_reservations-Ends_example = expire_reservations-Ends working at_rest

-- The held reservation as it is read back.
abbrev held_again : FlightReservation
held_again = reread held.passenger.date_of_birth held

rows_mapped : map_rows working.decrypt (row ∷ []) ≡ ok (held_again ∷ [])
unfolding map_rows to_reservation entity_to_segment entity_to_passenger new_segment new_passenger
    trim trim_end trim_start to_upper_case char_at
rows_mapped = refl

working-IsWorking : IsWorking working
working-IsWorking = record { taken = λ t. refl; row = λ id t. row; there = λ id t. refl }

expire_reservations-AllExpired_example :
    ((expire_reservations working at_rest).0 ≡ ok tt)
    × AllExpired working (held_again ∷ []) [] (expire_reservations working at_rest).1.trace
expire_reservations-AllExpired_example =
    expire_reservations-AllExpired working at_rest (row ∷ []) (held_again ∷ []) working-IsWorking
      refl rows_mapped (refl, tt)
