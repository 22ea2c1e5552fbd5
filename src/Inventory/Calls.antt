-- ===== src/Inventory/Calls.antt =====
-- What the inventory service calls: its database, Redis, Amadeus through axios and a circuit
-- breaker, node's crypto, the broker, the metrics. What they answer is that of an environment, each
-- answer a function of the calls made so far, the call that is answered included.
use training_travel_booking.Shared.{ℕ, String, Option, Bool, List}
use training_travel_booking.Shared.Effect.{Reply}
use training_travel_booking.Inventory.Values.{Date, ReservationStatus}
use training_travel_booking.Inventory.Reservation.{ReservationEvent}
use training_travel_booking.Inventory.Storage.{ReservationEntity, Cipher}

-- A body of JSON, by what the service can tell of it; a field that is not there is `absent`.
mutual
  pub data Json : Type 0 where
    absent null other : Json
    string : String → Json
    object : Fields → Json

  pub data Fields : Type 0 where
    no_fields : Fields
    field : String → Json → Fields → Fields

pub data AmadeusRequest : Type 0 where
  post_order : (offer_id passenger_id cabin_class : String) → AmadeusRequest
  delete_order : (order_id : String) → AmadeusRequest

-- How axios settles: a body, or an AxiosError with the status of its response, if there is one.
pub data HttpReply : Type 0 where
  response : Json → HttpReply
  axios_error : Option ℕ → (message : String) → HttpReply

pub record SegmentResponse : Type 0 where
  pub origin : String
  pub destination : String
  pub departure_at : ℕ
  pub arrival_at : ℕ
  pub flight_number : String
  pub carrier : String

pub record PassengerResponse : Type 0 where
  pub passenger_id : String
  pub first_name : String
  pub last_name : String

pub record ReservationResponse : Type 0 where
  pub reservation_id : String
  pub status : ReservationStatus
  pub expires_at : ℕ
  pub segment : SegmentResponse
  pub passenger : PassengerResponse
  pub cabin_class : String
  pub created_at : ℕ

pub data Metric : Type 0 where
  -- event name, whether it was sent
  kafka_published : String → Bool → Metric
  reservations_expired : Metric

pub data Call : Type 0 where
  request : AmadeusRequest → Call
  -- in milliseconds
  wait : ℕ → Call
  save_row : ReservationEntity → Call
  publish : ReservationEvent → Call
  -- idempotency key, response, seconds to live
  remember : String → ReservationResponse → ℕ → Call
  metric : Metric → Call

pub record Env : Type 0 where
  pub now : List Call → ℕ
  -- the two readings that stand for the times that an order leaves out, before `now` is read
  pub departure_clock : List Call → ℕ
  pub arrival_clock : List Call → ℕ
  pub uuid : List Call → String
  -- `Math.random() * 2 ** 53`
  pub random : List Call → ℕ
  -- whether the breaker refuses to run its action, and `breaker.opened`
  pub refuses : List Call → Bool
  pub opened : List Call → Bool
  pub http_reply : List Call → HttpReply
  -- `new Date(text)`
  pub parse_date : String → Date
  pub encrypt : List Call → Cipher
  pub decrypt : Cipher
  -- the calls that return nothing: saves, publications, writes of Redis
  pub done : List Call → Reply (Unit {0})
  pub find_row : String → List Call → Reply (Option ReservationEntity)
  pub find_pending_before : ℕ → List Call → Reply (List ReservationEntity)
  pub find_response : String → List Call → Reply (Option ReservationResponse)
