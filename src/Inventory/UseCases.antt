-- ===== src/Inventory/UseCases.antt =====
-- inventory-service/src/application/use-cases for reservations, with infrastructure/idempotency,
-- the reads and writes of infrastructure/persistence/repositories and the publisher of
-- infrastructure/kafka. A use case keeps no objects between its calls; the calls on one reservation
-- run on it as their state. Logging is left out.
use training_travel_booking.Shared.{
  ℕ, String, Option, none, some, Bool, true, false, List, [], ◌∷◌, not_found, ◌<>◌, or_default,
  Result, ok, str_eq, if◌then◌else◌,
}
use training_travel_booking.Shared.Checks as Checks
use training_travel_booking.Shared.Effect.{
  Method, pure, throw, lift, gets, ask, read, try_catch, modify, update, note, scoped, ◌>>=◌, ◌>>◌,
}
use training_travel_booking.Inventory.Values.{
  Date, FlightSegment, PassengerDetails, new_segment, new_passenger,
}
use training_travel_booking.Inventory.Reservation.{
  ReservationEvent, event_name, FlightReservation, CreateFlightReservationProps, to_iso_string,
  clear_events, create_flight_reservation, cancel_flight,
}
use training_travel_booking.Inventory.Storage.{to_reservation, reservation_to_entity, update_entity}
use training_travel_booking.Inventory.Calls.{
  Json, absent, string, object, Fields, no_fields, field, ReservationResponse, Call, save_row,
  publish, remember, metric, kafka_published, Env,
}
use training_travel_booking.Inventory.Amadeus.{create_order, cancel_order}

abbrev pub UseCase : Type 0 → Type 0
UseCase = Method Call (Unit {0})

-- What runs on one reservation, the object that it changes.
abbrev pub OnReservation : Type 0 → Type 0
OnReservation = Method Call FlightReservation

abbrev pub on_reservation : {A : Type 0} → FlightReservation → OnReservation A → UseCase A
on_reservation r m = do (a, r') ← scoped r m; lift a

pub record CreateReservationCommand : Type 0 where
  pub offer_id : String
  pub passenger_id : String
  pub passenger_first_name : String
  pub passenger_last_name : String
  pub passenger_dob : Option String
  pub passport_number : Option String
  pub cabin_class : String
  pub idempotency_key : String
  pub hold_minutes : Option ℕ
  pub correlation_id : Option String
  pub causation_id : Option String

pub record CancelReservationCommand : Type 0 where
  pub reservation_id : String
  pub correlation_id : Option String
  pub causation_id : Option String

-- `record[name]`
unfoldable pub get_field : String → Fields → Json
get_field name no_fields = absent
get_field name (field key value rest) =
    let later = get_field name rest in if str_eq key name then value else later

-- `data[name]` of a result with an object as its `data`, if it is a text.
abbrev pub text_of : Json → Option String
text_of (string s) = some s
text_of _ = none

abbrev pub within : String → Json → Json
within name (object fields) = get_field name fields
within name _ = absent

unfoldable pub extract : String → Json → Option String
unfolding get_field
extract name result = text_of (within name (within "data" result))

abbrev pub extract_order_id : Json → Option String
extract_order_id = extract "id"

abbrev pub extract_flight_number : Json → String
extract_flight_number result = or_default (extract "flightNumber" result) "UNKNOWN"

abbrev pub extract_carrier : Json → String
extract_carrier result = or_default (extract "carrier" result) "XX"

abbrev pub extract_origin : Json → String
extract_origin result = or_default (extract "origin" result) "XXX"

abbrev pub extract_destination : Json → String
extract_destination result = or_default (extract "destination" result) "XXX"

-- A time of the result as a Date, or the time `now`, whose text is read back as it is.
abbrev pub date_or_now : (String → Date) → ℕ → Option String → Date
date_or_now parse now none = some now
date_or_now parse now (some s) = parse s

-- What the clock says when the departure, the arrival and the aggregate ask for it.
pub record Readings : Type 0 where
  pub departure : ℕ
  pub arrival : ℕ
  pub created : ℕ

abbrev pub readings : Env → List Call → Readings
readings env t = record {
  departure = env.departure_clock t;
  arrival = env.arrival_clock t;
  created = env.now t;
}

-- The segment of the order.
abbrev pub segment_of : (String → Date) → Readings → Json → FlightSegment
segment_of parse clock order = record {
  origin = extract_origin order;
  destination = extract_destination order;
  departure_date = date_or_now parse clock.departure (extract "departureAt" order);
  arrival_date = date_or_now parse clock.arrival (extract "arrivalAt" order);
  flight_number = extract_flight_number order;
  carrier = extract_carrier order;
}

abbrev pub passenger_of : (String → Date) → CreateReservationCommand → PassengerDetails
passenger_of parse c = record {
  passenger_id = c.passenger_id;
  first_name = c.passenger_first_name;
  last_name = c.passenger_last_name;
  date_of_birth = elim c.passenger_dob [ none ↦ none | some s ↦ some (parse s) ];
  passport_number = c.passport_number;
}

abbrev pub reservation_props :
    CreateReservationCommand
    → Json
    → FlightSegment
    → PassengerDetails
    → CreateFlightReservationProps
reservation_props c order segment passenger = record {
  offer_id = c.offer_id;
  amadeus_order_id = extract_order_id order;
  segment = segment;
  passenger = passenger;
  cabin_class = c.cabin_class;
  idempotency_key = c.idempotency_key;
  hold_minutes = c.hold_minutes;
  correlation_id = c.correlation_id;
  causation_id = c.causation_id;
}

-- The aggregate, from the order that Amadeus made.
unfoldable pub reservation_of :
    (String → Date) → String → Readings → CreateReservationCommand → Json → Result FlightReservation
reservation_of parse id clock c order =
    Checks.◌>>=◌ (new_segment (segment_of parse clock order)) λ segment.
      Checks.◌>>=◌ (new_passenger (passenger_of parse c)) λ passenger.
        create_flight_reservation id clock.created (reservation_props c order segment passenger)

-- `toReservationResponse`, and `toResponse` of the query.
unfoldable pub to_reservation_response : FlightReservation → Result ReservationResponse
to_reservation_response r = Checks.◌>>=◌ (to_iso_string r.segment.departure_date) λ departure_at.
    Checks.◌>>=◌ (to_iso_string r.segment.arrival_date) λ arrival_at. ok (record {
      reservation_id = r.id;
      status = r.status;
      expires_at = r.expires_at;
      segment = record {
        origin = r.segment.origin;
        destination = r.segment.destination;
        departure_at = departure_at;
        arrival_at = arrival_at;
        flight_number = r.segment.flight_number;
        carrier = r.segment.carrier;
      };
      passenger = record {
        passenger_id = r.passenger.passenger_id;
        first_name = r.passenger.first_name;
        last_name = r.passenger.last_name;
      };
      cabin_class = r.cabin_class;
      created_at = r.created_at;
    })

module _ (env : Env) where
  open env use {now, uuid, parse_date, encrypt, decrypt, done, find_row, find_response}

  -- `save` of the repository: an existing row keeps all but three columns.
  unfoldable pub save : OnReservation (Unit {0})
  save = do
    r ← gets λ w. w.state
    existing ← read (find_row r.id)
    row ← elim existing [
      | some e ↦ pure (update_entity e r)
      | none ↦ λ w. (reservation_to_entity (encrypt w.trace) r, w)
    ]
    ask {A = Unit {0}} (save_row row) done

  -- `publish` of InventoryEventPublisher.
  unfoldable pub publish_event : ReservationEvent → OnReservation (Unit {0})
  publish_event e =
      try_catch
        (do
          ask {A = Unit {0}} (publish e) done
          note (metric (kafka_published (event_name e) true)))
        (λ thrown. do note (metric (kafka_published (event_name e) false)); throw thrown)

  unfoldable pub publish_each : List ReservationEvent → OnReservation (Unit {0})
  unfolding publish_event
  publish_each [] = pure tt
  publish_each (e ∷ es) = do publish_event e; publish_each es

  -- The save, the publications and the clearing that three operations end with.
  unfoldable pub save_and_publish : OnReservation (Unit {0})
  unfolding save publish_each
  save_and_publish = do
    save
    events ← gets λ w. w.state.uncommitted_events
    publish_each events
    modify clear_events

  -- `get` of IdempotencyService: a fault counts as nothing found.
  abbrev pub cached_response : String → UseCase (Option ReservationResponse)
  cached_response key = try_catch (read (find_response key)) (λ _. pure none)

  -- Step 3, at the times and with the id that are read on the way.
  unfoldable pub build_reservation : CreateReservationCommand → Json → UseCase FlightReservation
  unfolding reservation_of
  build_reservation c order w =
      (reservation_of parse_date (uuid w.trace) (readings env w.trace) c order, w)

  -- Steps 4 to 6.
  unfoldable pub record_reservation : String → OnReservation ReservationResponse
  unfolding save_and_publish
  record_reservation key = do
    save_and_publish
    response ← (λ w. (to_reservation_response w.state, w))
    ask {A = Unit {0}} (remember key response 86400) done
    pure response

  -- Steps 2 to 6, for a key that is not cached.
  unfoldable pub create_uncached : CreateReservationCommand → UseCase ReservationResponse
  unfolding build_reservation record_reservation
  create_uncached c = do
    order ← create_order env c.offer_id c.passenger_id c.cabin_class
    r ← build_reservation c order
    on_reservation r (record_reservation c.idempotency_key)

  -- The response, and whether it is a new reservation's.
  unfoldable pub create_reservation :
      CreateReservationCommand → UseCase (ReservationResponse × Bool)
  unfolding create_uncached
  create_reservation c = do
    cached ← cached_response c.idempotency_key
    elim cached [
      | some response ↦ pure (response, false)
      | none ↦ (do response ← create_uncached c; pure (response, true))
    ]

  -- `findById` of the repository, and the check that two use cases make.
  unfoldable pub existing_reservation : String → UseCase FlightReservation
  existing_reservation id = do
    found ← read (find_row id)
    elim found [
      | none ↦ throw (not_found ("Reservation " <> id <> " not found"))
      | some e ↦ lift (to_reservation decrypt e)
    ]

  unfoldable pub get_reservation : String → UseCase ReservationResponse
  unfolding existing_reservation
  get_reservation id = do r ← existing_reservation id; lift (to_reservation_response r)

  unfoldable pub cancel_at_amadeus : OnReservation (Unit {0})
  cancel_at_amadeus = do
    r ← gets λ w. w.state
    elim r.amadeus_order_id [ none ↦ pure tt | some order_id ↦ cancel_order env order_id ]

  -- From `reservation.cancel` on.
  unfoldable pub cancel_existing : Option String → Option String → OnReservation (Unit {0})
  unfolding cancel_at_amadeus save_and_publish
  cancel_existing correlation_id causation_id = do
    at ← gets λ w. now w.trace
    update (cancel_flight at correlation_id causation_id)
    cancel_at_amadeus
    save_and_publish

  unfoldable pub cancel_flight_reservation : CancelReservationCommand → UseCase (Unit {0})
  unfolding existing_reservation cancel_existing
  cancel_flight_reservation c = do
    r ← existing_reservation c.reservation_id
    on_reservation r (cancel_existing c.correlation_id c.causation_id)
