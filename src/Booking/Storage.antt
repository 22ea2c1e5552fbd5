-- ===== src/Booking/Storage.antt =====
-- Which itineraries are accepted, and what the database gives back of a booking.
use training_travel_booking.Shared.{
  ℕ, ◌≤◌, ◌<◌, String, ◌≡◌, refl, cents, ◌⊎◌, ◌↔◌, arith, ok, true, false, ◌||◌, includes, whole,
  ltb_number, Number, nan, finite, pos, negsuc, eq_iff, inl, inr,
}
use training_travel_booking.Shared.Numbers.{infinity, minus_infinity}
use training_travel_booking.Shared.Text.{is_three_capitals_iff, ThreeCapitals}
use training_travel_booking.Booking.Itinerary.{Itinerary, cabin_classes, new_itinerary, to_json}
use training_travel_booking.Booking.Aggregate.{Booking}
use training_travel_booking.Booking.Mapper.{BookingEntity, to_entity, stored_itinerary}

-- Between one and nine, in thousandths; NaN passes both of the source's comparisons.
abbrev pub PassengersFit : Number → Type 0
PassengersFit p = (p ≡ nan) ⊎ ((n : ℕ) × (p ≡ finite (pos n)) × (1000 ≤ n) × (n ≤ 9000))

abbrev pub IsCabinClass : String → Type 0
IsCabinClass c = (c ≡ "ECONOMY") ⊎ (c ≡ "PREMIUM_ECONOMY") ⊎ (c ≡ "BUSINESS") ⊎ (c ≡ "FIRST")

pub record IsBookable (p : Itinerary) : Type 0 where
  pub from : ThreeCapitals p.origin
  pub to : ThreeCapitals p.destination
  pub passengers : PassengersFit p.passengers
  pub cabin : IsCabinClass p.cabin_class

cabin_iff : (c : String) → (includes cabin_classes c ≡ true) ↔ IsCabinClass c
cabin_iff c =
    ground
      (arith, eq_iff "ECONOMY" c, eq_iff "PREMIUM_ECONOMY" c, eq_iff "BUSINESS" c, eq_iff "FIRST" c)

passengers_fit :
    (p : Number) → (ltb_number p (whole 1) || ltb_number (whole 9) p) ≡ false → PassengersFit p
passengers_fit nan h = inl refl
passengers_fit (finite (pos n)) h = inr (n, refl, ground arith, ground arith)
passengers_fit (finite (negsuc n)) h = ground arith
passengers_fit infinity h = ground arith
passengers_fit minus_infinity h = ground arith

fit_passengers :
    (p : Number) → PassengersFit p → (ltb_number p (whole 1) || ltb_number (whole 9) p) ≡ false
fit_passengers p (inl e) = rw e refl
fit_passengers p (inr (n, e, lo, hi)) = rw e (ground arith)

-- The constructor accepts its arguments, and keeps them, exactly if both airports are three capital
-- letters, the passengers are between one and nine or NaN, and the cabin class is one of the four.
pub new_itinerary_iff : (p : Itinerary) → (new_itinerary p ≡ ok p) ↔ IsBookable p
unfolding new_itinerary
new_itinerary_iff p = (accepted, bookable)
  where
    accepted : new_itinerary p ≡ ok p → IsBookable p
    accepted h = record {
      from = (is_three_capitals_iff p.origin).0 (ground arith);
      to = (is_three_capitals_iff p.destination).0 (ground arith);
      passengers = passengers_fit p.passengers (ground arith);
      cabin = (cabin_iff p.cabin_class).0 (ground arith);
    }

    bookable : IsBookable p → new_itinerary p ≡ ok p
    bookable h = ground (
      arith,
      (is_three_capitals_iff p.origin).1 h.from,
      (is_three_capitals_iff p.destination).1 h.to,
      fit_passengers p.passengers h.passengers,
      (cabin_iff p.cabin_class).1 h.cabin,
    )

-- What is stored of an itinerary: its dates without their times of day.
abbrev pub without_times : Itinerary → Itinerary
without_times i = stored_itinerary (to_json i)

-- What the database does for the amount of a booking, a column of two decimal places and ten digits:
-- it keeps a whole number of cents that fits.
abbrev pub KeepsCents : (Number → Number) → Type 0
KeepsCents column = (n : ℕ) → n < 10000000000 → column (cents n) ≡ cents n

-- The row of a booking as it is read: the column of the amount has gone through the database, and the
-- column of the version holds what TypeORM counted.
abbrev pub read_row : (Number → Number) → ℕ → Booking → BookingEntity
read_row column version b = record (to_entity b) {
  total_amount = column b.total_amount;
  version = version;
}
