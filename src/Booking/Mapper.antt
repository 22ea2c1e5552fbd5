-- ===== src/Booking/Mapper.antt =====
-- booking-service: BookingMapper, and the mapping of BookingRepository between a booking and its
-- row. The row is the one that is written: the amount's column keeps two decimal places, so that what
-- is read may differ in it. The column that TypeORM counts versions in is the `version` here.
use training_travel_booking.Shared.{ℕ, ◌*◌, String, Option, none, some, Number, Result, ok, err}
use training_travel_booking.Booking.Itinerary.{
  Itinerary, ItineraryJson, new_itinerary, iso_day, iso_day?, to_json,
}
use training_travel_booking.Booking.Aggregate.{BookingStatus, status_name, Booking}

pub record BookingReadModelRow : Type 0 where
  pub id : String
  pub traveler_id : String
  pub traveler_name : Option String
  pub traveler_email : Option String
  pub status : String
  pub origin : String
  pub destination : String
  pub departure_date : ℕ
  pub return_date : Option ℕ
  pub cabin_class : Option String
  pub total_amount : Number
  pub currency : String
  pub created_at : ℕ

-- The itinerary of a response has no passengers when it is read from the read model.
pub record ResponseItinerary : Type 0 where
  pub origin : String
  pub destination : String
  pub departure_date : ℕ
  pub return_date : Option ℕ
  pub cabin_class : Option String
  pub passengers : Option Number

pub record BookingResponseDto : Type 0 where
  pub id : String
  pub traveler_id : String
  pub offer_id : String
  pub status : String
  pub itinerary : ResponseItinerary
  pub reservation_id : Option String
  pub payment_id : Option String
  pub total_amount : Number
  pub currency : String
  pub special_requests : Option String
  pub traveler_name : Option String
  pub traveler_email : Option String
  pub confirmed_at : Option ℕ
  pub cancelled_at : Option ℕ
  pub cancel_reason : Option String
  pub created_at : Option ℕ

-- `toDto` of a Booking.
unfoldable pub to_dto : Booking → BookingResponseDto
unfolding to_json
to_dto b = record {
  id = b.id;
  traveler_id = b.traveler_id;
  offer_id = b.offer_id;
  status = status_name b.status;
  itinerary =
      let json = to_json b.itinerary in
      record {
        origin = json.origin;
        destination = json.destination;
        departure_date = json.departure_date;
        return_date = json.return_date;
        cabin_class = some json.cabin_class;
        passengers = some json.passengers;
      };
  reservation_id = b.reservation_id;
  payment_id = b.payment_id;
  total_amount = b.total_amount;
  currency = b.currency;
  special_requests = b.special_requests;
  traveler_name = b.traveler_name;
  traveler_email = b.traveler_email;
  confirmed_at = b.confirmed_at;
  cancelled_at = b.cancelled_at;
  cancel_reason = b.cancel_reason;
  created_at = none;
}

-- `toDto` of a row of the read model.
unfoldable pub row_to_dto : BookingReadModelRow → BookingResponseDto
row_to_dto r = record {
  id = r.id;
  traveler_id = r.traveler_id;
  offer_id = "";
  status = r.status;
  itinerary = record {
    origin = r.origin;
    destination = r.destination;
    departure_date = r.departure_date;
    return_date = r.return_date;
    cabin_class = r.cabin_class;
    passengers = none;
  };
  reservation_id = none;
  payment_id = none;
  total_amount = r.total_amount;
  currency = r.currency;
  special_requests = none;
  traveler_name = r.traveler_name;
  traveler_email = r.traveler_email;
  confirmed_at = none;
  cancelled_at = none;
  cancel_reason = none;
  created_at = some r.created_at;
}

unfoldable pub to_read_model_row : ℕ → Booking → BookingReadModelRow
unfolding iso_day iso_day?
to_read_model_row now b = record {
  id = b.id;
  traveler_id = b.traveler_id;
  traveler_name = b.traveler_name;
  traveler_email = b.traveler_email;
  status = status_name b.status;
  origin = b.itinerary.origin;
  destination = b.itinerary.destination;
  departure_date = iso_day b.itinerary.departure_date;
  return_date = iso_day? b.itinerary.return_date;
  cabin_class = some b.itinerary.cabin_class;
  total_amount = b.total_amount;
  currency = b.currency;
  created_at = now;
}

-- BookingEntity. The status column holds the texts of the enum and is read back by a cast.
pub record BookingEntity : Type 0 where
  pub id : String
  pub traveler_id : String
  pub offer_id : String
  pub status : BookingStatus
  pub itinerary : ItineraryJson
  pub policy_validation_id : Option String
  pub reservation_id : Option String
  pub payment_id : Option String
  pub total_amount : Number
  pub currency : String
  pub special_requests : Option String
  pub traveler_name : Option String
  pub traveler_email : Option String
  pub confirmed_at : Option ℕ
  pub cancelled_at : Option ℕ
  pub cancel_reason : Option String
  pub version : ℕ

unfoldable pub to_entity : Booking → BookingEntity
to_entity b = record {
  id = b.id;
  traveler_id = b.traveler_id;
  offer_id = b.offer_id;
  status = b.status;
  itinerary = to_json b.itinerary;
  policy_validation_id = b.policy_validation_id;
  reservation_id = b.reservation_id;
  payment_id = b.payment_id;
  total_amount = b.total_amount;
  currency = b.currency;
  special_requests = b.special_requests;
  traveler_name = b.traveler_name;
  traveler_email = b.traveler_email;
  confirmed_at = b.confirmed_at;
  cancelled_at = b.cancelled_at;
  cancel_reason = b.cancel_reason;
  version = b.version;
}

-- `new Date('YYYY-MM-DD')` is the midnight that begins the day.
abbrev pub midnight : ℕ → ℕ
midnight day = day * 86400000

abbrev pub midnight? : Option ℕ → Option ℕ
midnight? none = none
midnight? (some day) = some (midnight day)

abbrev pub stored_itinerary : ItineraryJson → Itinerary
stored_itinerary json = record {
  origin = json.origin;
  destination = json.destination;
  departure_date = midnight json.departure_date;
  return_date = midnight? json.return_date;
  cabin_class = json.cabin_class;
  passengers = json.passengers;
}

abbrev pub with_itinerary : BookingEntity → Itinerary → Booking
with_itinerary e itinerary = record {
  id = e.id;
  traveler_id = e.traveler_id;
  offer_id = e.offer_id;
  status = e.status;
  itinerary = itinerary;
  policy_validation_id = e.policy_validation_id;
  reservation_id = e.reservation_id;
  payment_id = e.payment_id;
  total_amount = e.total_amount;
  currency = e.currency;
  special_requests = e.special_requests;
  confirmed_at = e.confirmed_at;
  cancelled_at = e.cancelled_at;
  cancel_reason = e.cancel_reason;
  traveler_name = e.traveler_name;
  traveler_email = e.traveler_email;
  version = e.version;
}

-- The itinerary is checked again.
unfoldable pub to_domain : BookingEntity → Result Booking
to_domain e = elim (new_itinerary (stored_itinerary e.itinerary)) [
  | ok itinerary ↦ ok (with_itinerary e itinerary)
  | err x ↦ err x
]
