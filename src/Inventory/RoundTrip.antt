-- ===== src/Inventory/RoundTrip.antt =====
-- Storing a reservation and reading it again.
use training_travel_booking.Shared.{
  String, Option, none, some, false, [], ◌≡◌, refl, ap, ◌∙◌, inl, inr, arith, subst, str_eq, ok,
  Result-cases, Bool-cases,
}
use training_travel_booking.Shared.Effect.{Reply-cases, answer}
use training_travel_booking.Shared.Trim.{trim, to_upper_case}
use training_travel_booking.Shared.Idempotence.{
  trim-trim, trim-to_upper_case, to_upper_case-to_upper_case,
}
use training_travel_booking.Inventory.Values.{
  Date, FlightSegment, PassengerDetails, airport, not_before, is_blank, new_segment, new_passenger,
}
use training_travel_booking.Inventory.Reservation.{FlightReservation}
use training_travel_booking.Inventory.Storage.{
  ReservationEntity, Cipher, through, entity_to_segment, entity_to_passenger, to_reservation,
  entity_with, reservation_to_entity, update_entity,
}
use training_travel_booking.Inventory.Lifecycle.{ReservationOp, apply, apply-same}

airport-airport : (s : String) → airport (airport s) ≡ airport s
airport-airport s =
    ap to_upper_case (trim-to_upper_case (trim s) ∙ ap to_upper_case (trim-trim s))
    ∙ to_upper_case-to_upper_case (trim s)

-- What a text of a column says is kept when the column pads it with blanks.
airport_padded : (s o : String) → trim o ≡ trim (airport s) → airport (trim o) ≡ airport s
airport_padded s o h = ap to_upper_case (trim-trim o ∙ h) ∙ airport-airport s

new_segment-made :
    (props segment : FlightSegment)
    → new_segment props ≡ ok segment
    → (str_eq (airport props.origin) (airport props.destination) ≡ false)
      × (not_before props.departure_date props.arrival_date ≡ false)
      × (record props { origin = airport props.origin; destination = airport props.destination }
          ≡ segment)
unfolding new_segment
new_segment-made props segment h =
    elim (Bool-cases (str_eq (airport props.origin) (airport props.destination))) [
      | inl e ↦ ground arith
      | inr e ↦ elim (Bool-cases (not_before props.departure_date props.arrival_date)) [
        | inl f ↦ ground arith
        | inr f ↦ (e, f, ground arith)
      ]
    ]

new_segment-again :
    (props : FlightSegment) (o d : String)
    → str_eq (airport props.origin) (airport props.destination) ≡ false
    → not_before props.departure_date props.arrival_date ≡ false
    → trim o ≡ trim (airport props.origin)
    → trim d ≡ trim (airport props.destination)
    → new_segment (record props { origin = trim o; destination = trim d })
      ≡ ok (record props { origin = airport props.origin; destination = airport props.destination })
unfolding new_segment
new_segment-again props o d e f ho hd =
    rw (airport_padded props.origin o ho, airport_padded props.destination d hd, e, f) refl

new_passenger-made :
    (props p : PassengerDetails)
    → new_passenger props ≡ ok p
    → (is_blank props.passenger_id ≡ false)
      × (is_blank props.first_name ≡ false)
      × (is_blank props.last_name ≡ false)
      × (record props {
        passenger_id = trim props.passenger_id;
        first_name = trim props.first_name;
        last_name = trim props.last_name;
      }
          ≡ p)
unfolding new_passenger
new_passenger-made props p h = elim (Bool-cases (is_blank props.passenger_id)) [
  | inl e ↦ ground arith
  | inr e ↦ elim (Bool-cases (is_blank props.first_name)) [
    | inl f ↦ ground arith
    | inr f ↦ elim (Bool-cases (is_blank props.last_name)) [
      | inl g ↦ ground arith
      | inr g ↦ (e, f, g, ground arith)
    ]
  ]
]

new_passenger-again :
    (props p : PassengerDetails) (birth : Option Date)
    → new_passenger props ≡ ok p
    → new_passenger (record p { date_of_birth = birth }) ≡ ok (record p { date_of_birth = birth })
unfolding new_passenger
new_passenger-again props p birth h =
    let (e, f, g, same) = new_passenger-made props p h in
    subst
      (λ p.
        new_passenger (record p { date_of_birth = birth })
        ≡ ok (record p { date_of_birth = birth }))
      same
      (rw
        (
          trim-trim props.passenger_id,
          trim-trim props.first_name,
          trim-trim props.last_name,
          e,
          f,
          g,
        )
        refl)

-- What crypto promises: a text that was encrypted is what decrypting gives.
abbrev pub Undoes : Cipher → Cipher → Type 0
Undoes encrypt decrypt = (s c : String) → encrypt s ≡ answer c → decrypt c ≡ answer s

through-through :
    (encrypt decrypt : Cipher) (x y : Option String)
    → Undoes encrypt decrypt
    → through encrypt x ≡ ok y
    → through decrypt y ≡ ok x
through-through encrypt decrypt none y u h = ground arith
through-through encrypt decrypt (some s) y u h = elim (Reply-cases (encrypt s)) [
  | inl (c, e) ↦ let back = u s c e in ground arith
  | inr (m, e) ↦ ground arith
]

-- A reservation whose value objects were made by their constructors.
pub record IsBuilt (r : FlightReservation) : Type 0 where
  pub segment_props : FlightSegment
  pub segment_made : new_segment segment_props ≡ ok r.segment
  pub passenger_props : PassengerDetails
  pub passenger_made : new_passenger passenger_props ≡ ok r.passenger

-- The columns of a row that may be read other than they were written: the two of fixed width, which
-- are padded with blanks, and the `date` of birth, which loses its time.
pub record Padded (e : ReservationEntity) : Type 0 where
  pub origin : String
  pub destination : String
  pub birth : Option Date
  pub same_origin : trim origin ≡ trim e.origin
  pub same_destination : trim destination ≡ trim e.destination

abbrev pub padded_row : (e : ReservationEntity) → Padded e → ReservationEntity
padded_row e p = record e {
  origin = p.origin;
  destination = p.destination;
  passenger_dob = p.birth;
}

-- The reservation without its waiting events and version, with the date of birth that the column gives.
abbrev pub reread : Option Date → FlightReservation → FlightReservation
reread birth r = record r {
  passenger = record r.passenger { date_of_birth = birth };
  uncommitted_events = [];
  version = 0;
}

segment_back :
    (segment_props segment : FlightSegment) (o d : String)
    → new_segment segment_props ≡ ok segment
    → trim o ≡ trim segment.origin
    → trim d ≡ trim segment.destination
    → new_segment (record segment { origin = trim o; destination = trim d }) ≡ ok segment
segment_back props segment o d h ho hd =
    let (e, f, same) = new_segment-made props segment h in
    subst
      (λ s.
        trim o ≡ trim s.origin
        → trim d ≡ trim s.destination
        → new_segment (record s { origin = trim o; destination = trim d }) ≡ ok s)
      same (new_segment-again props o d e f) ho hd

reservation_back :
    (decrypt : Cipher) (passport_number : Option String) (r : FlightReservation) (o d : String)
    (birth : Option Date)
    → new_segment (record r.segment { origin = trim o; destination = trim d }) ≡ ok r.segment
    → new_passenger (record r.passenger { date_of_birth = birth })
      ≡ ok (record r.passenger { date_of_birth = birth })
    → through decrypt passport_number ≡ ok r.passenger.passport_number
    → to_reservation decrypt (record (entity_with passport_number r) {
      origin = o;
      destination = d;
      passenger_dob = birth;
    })
      ≡ ok (reread birth r)
unfolding to_reservation entity_to_segment entity_to_passenger
reservation_back decrypt passport_number r o d birth hs hp ht = rw (hs, ht, hp) refl

entity_back :
    (encrypt decrypt : Cipher) (r : FlightReservation) (e : ReservationEntity) (p : Padded e)
    → Undoes encrypt decrypt
    → IsBuilt r
    → reservation_to_entity encrypt r ≡ ok e
    → to_reservation decrypt (padded_row e p) ≡ ok (reread p.birth r)
unfolding reservation_to_entity
entity_back encrypt decrypt r e p u b h =
    elim (Result-cases (through encrypt r.passenger.passport_number)) [
      | inl (y, f) ↦
          let same : entity_with y r ≡ e = ground arith in
          subst
            (λ e.
              trim p.origin ≡ trim e.origin
              → trim p.destination ≡ trim e.destination
              → to_reservation decrypt (record e {
                origin = p.origin;
                destination = p.destination;
                passenger_dob = p.birth;
              })
                ≡ ok (reread p.birth r))
            same
            (λ ho hd.
              reservation_back decrypt y r p.origin p.destination p.birth
                (segment_back b.segment_props r.segment p.origin p.destination b.segment_made ho hd)
                (new_passenger-again b.passenger_props r.passenger p.birth b.passenger_made)
                (through-through encrypt decrypt r.passenger.passport_number y u f))
            p.same_origin p.same_destination
      | inr (x, f) ↦ ground arith
    ]

-- What a method leaves is what the row of the earlier reservation becomes by `updateEntity`.
update_entity-same :
    (encrypt : Cipher) (op : ReservationOp) (r r' : FlightReservation) (e : ReservationEntity)
    → reservation_to_entity encrypt r ≡ ok e
    → apply op r ≡ ok r'
    → reservation_to_entity encrypt r' ≡ ok (update_entity e r')
unfolding reservation_to_entity update_entity
update_entity-same encrypt op r r' e h a =
    subst (λ q. reservation_to_entity encrypt q ≡ ok (update_entity e q)) (apply-same op r r' a)
      (elim (Result-cases (through encrypt r.passenger.passport_number)) [
        | inl (y, f) ↦ ground arith
        | inr (x, f) ↦ ground arith
      ])

IsBuilt-apply :
    (op : ReservationOp) (r r' : FlightReservation) → apply op r ≡ ok r' → IsBuilt r → IsBuilt r'
IsBuilt-apply op r r' a b = subst IsBuilt (apply-same op r r' a) (record {
  segment_props = b.segment_props;
  segment_made = b.segment_made;
  passenger_props = b.passenger_props;
  passenger_made = b.passenger_made;
})

padded_update :
    (e : ReservationEntity) (r : FlightReservation) → Padded e → Padded (update_entity e r)
unfolding update_entity
padded_update e r p = record {
  origin = p.origin;
  destination = p.destination;
  birth = p.birth;
  same_origin = p.same_origin;
  same_destination = p.same_destination;
}

-- If decrypting undoes the encryption that was used, then a reservation whose segment and passenger
-- were made by their constructors is read back as it was saved, up to the waiting events, the version
-- and the passenger's date of birth, even if the database pads the two airports with blanks. The date
-- of birth is whatever the `date` column gives for it. After any method that returns, updating three
-- columns of the stored row is as good as storing the new reservation whole, and is read back in the
-- same way.
pub to_reservation-reservation_to_entity :
    (encrypt decrypt : Cipher) (r r' : FlightReservation) (e : ReservationEntity) (p : Padded e)
    (op : ReservationOp)
    → Undoes encrypt decrypt
    → IsBuilt r
    → reservation_to_entity encrypt r ≡ ok e
    → apply op r ≡ ok r'
    → (to_reservation decrypt (padded_row e p) ≡ ok (reread p.birth r))
      × (reservation_to_entity encrypt r' ≡ ok (update_entity e r'))
      × (to_reservation decrypt (record (update_entity e r') {
        origin = p.origin;
        destination = p.destination;
        passenger_dob = p.birth;
      })
          ≡ ok (reread p.birth r'))
unfolding update_entity padded_update
to_reservation-reservation_to_entity encrypt decrypt r r' e p op u b h a =
    let stored = update_entity-same encrypt op r r' e h a in
    (
      entity_back encrypt decrypt r e p u b h,
      stored,
      entity_back encrypt decrypt r' (update_entity e r') (padded_update e r' p) u
          (IsBuilt-apply op r r' a b) stored,
    )
