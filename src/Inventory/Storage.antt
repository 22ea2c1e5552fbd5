-- ===== src/Inventory/Storage.antt =====
-- inventory-service/src/application/mappers and infrastructure/persistence/entities: how a
-- reservation is stored. `encrypt` and `decrypt` stand on node's crypto with the configured key;
-- they are parameters, which may fail.
use training_travel_booking.Shared.{ℕ, String, Option, none, some, [], Result, ok}
use training_travel_booking.Shared.Checks.{◌>>=◌}
use training_travel_booking.Shared.Effect.{Reply, to_result}
use training_travel_booking.Shared.Trim.{trim}
use training_travel_booking.Inventory.Values.{
  Date, ReservationStatus, FlightSegment, PassengerDetails, new_segment, new_passenger,
}
use training_travel_booking.Inventory.Reservation.{FlightReservation}

-- A row of flight_reservations, as it is written. What is read differs in two columns of fixed width,
-- which come back padded, and in `passenger_dob`, a `date`, which comes back without its time of day
-- and as a text.
pub record ReservationEntity : Type 0 where
  pub id : String
  pub offer_id : String
  pub amadeus_order_id : Option String
  pub passenger_id : String
  pub passenger_first_name : String
  pub passenger_last_name : String
  pub passenger_dob : Option Date
  pub passport_number : Option String
  pub origin : String
  pub destination : String
  pub flight_number : String
  pub carrier : String
  pub departure_at : Date
  pub arrival_at : Date
  pub cabin_class : String
  pub status : ReservationStatus
  pub idempotency_key : String
  pub expires_at : ℕ
  pub created_at : ℕ
  pub updated_at : ℕ

abbrev pub Cipher : Type 0
Cipher = String → Reply String

-- A passport number through a cipher, if there is one.
abbrev pub through : Cipher → Option String → Result (Option String)
through cipher none = ok none
through cipher (some text) = do x ← to_result (cipher text); ok (some x)

unfoldable pub entity_to_segment : ReservationEntity → Result FlightSegment
entity_to_segment e = new_segment (record {
  origin = trim e.origin;
  destination = trim e.destination;
  departure_date = e.departure_at;
  arrival_date = e.arrival_at;
  flight_number = e.flight_number;
  carrier = e.carrier;
})

unfoldable pub entity_to_passenger : Cipher → ReservationEntity → Result PassengerDetails
entity_to_passenger decrypt e = do
  passport_number ← through decrypt e.passport_number
  new_passenger (record {
    passenger_id = e.passenger_id;
    first_name = e.passenger_first_name;
    last_name = e.passenger_last_name;
    date_of_birth = e.passenger_dob;
    passport_number = passport_number;
  })

unfoldable pub to_reservation : Cipher → ReservationEntity → Result FlightReservation
unfolding entity_to_segment entity_to_passenger
to_reservation decrypt e = do
  segment ← entity_to_segment e
  passenger ← entity_to_passenger decrypt e
  ok (record {
    id = e.id;
    offer_id = e.offer_id;
    amadeus_order_id = e.amadeus_order_id;
    segment = segment;
    passenger = passenger;
    status = e.status;
    cabin_class = e.cabin_class;
    idempotency_key = e.idempotency_key;
    expires_at = e.expires_at;
    created_at = e.created_at;
    updated_at = e.updated_at;
    uncommitted_events = [];
    version = 0;
  })

-- The row of a reservation, its passport number as it is stored.
abbrev pub entity_with : Option String → FlightReservation → ReservationEntity
entity_with passport_number r = record {
  id = r.id;
  offer_id = r.offer_id;
  amadeus_order_id = r.amadeus_order_id;
  passenger_id = r.passenger.passenger_id;
  passenger_first_name = r.passenger.first_name;
  passenger_last_name = r.passenger.last_name;
  passenger_dob = r.passenger.date_of_birth;
  passport_number = passport_number;
  origin = r.segment.origin;
  destination = r.segment.destination;
  flight_number = r.segment.flight_number;
  carrier = r.segment.carrier;
  departure_at = r.segment.departure_date;
  arrival_at = r.segment.arrival_date;
  cabin_class = r.cabin_class;
  status = r.status;
  idempotency_key = r.idempotency_key;
  expires_at = r.expires_at;
  created_at = r.created_at;
  updated_at = r.updated_at;
}

unfoldable pub reservation_to_entity : Cipher → FlightReservation → Result ReservationEntity
reservation_to_entity encrypt r = do
  passport_number ← through encrypt r.passenger.passport_number
  ok (entity_with passport_number r)

unfoldable pub update_entity : ReservationEntity → FlightReservation → ReservationEntity
update_entity e r = record e {
  status = r.status;
  amadeus_order_id = r.amadeus_order_id;
  updated_at = r.updated_at;
}
