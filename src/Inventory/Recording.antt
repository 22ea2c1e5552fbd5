-- ===== src/Inventory/Recording.antt =====
-- inventory-service/src/application/use-cases/create-reservation: the save, the publication and the
-- keeping of the response.
use training_travel_booking.Shared.{
  String, true, false, List, [], ◌∷◌, ◌≡◌, refl, ◌∙◌, inl, inr, arith, failure, Result, ok, err,
}
use training_travel_booking.Shared.Effect.{World, Reply-cases, Ends, ask, pure, ◌>>=◌, ◌>>◌}
use training_travel_booking.Inventory.Reservation.{
  ReservationEvent, FlightReservation, clear_events,
}
use training_travel_booking.Inventory.Storage.{ReservationEntity}
use training_travel_booking.Inventory.Calls.{Call, save_row, remember, ReservationResponse, Env}
use training_travel_booking.Inventory.Writes.{
  IsRowOf, told, Writes, unwritten, write_failed, send_failed, written, save_and_publish-Writes,
}
use training_travel_booking.Inventory.UseCases.{
  OnReservation, to_reservation_response, save_and_publish, record_reservation,
}

-- Where a creation stopped, by the calls after Amadeus was asked: before any write, at the write, at
-- the publication, or when the response was to be kept.
pub data Stopped (key : String) : List Call → List Call → Type 0 where
  before_save : {t : List Call} → Stopped key t t
  at_save : {t : List Call} (row : ReservationEntity) → Stopped key t (save_row row ∷ t)
  at_send :
      {t : List Call} (row : ReservationEntity) (e : ReservationEvent)
      → Stopped key t (told row e false t)
  at_memory :
      {t : List Call} (row : ReservationEntity) (e : ReservationEvent)
      (response : ReservationResponse)
      → Stopped key t (remember key response 86400 ∷ told row e true t)

module _ (env : Env) where
  -- The calls of a creation that went through, after those of `t`.
  abbrev pub Recorded :
      String
      → FlightReservation
      → ReservationEvent
      → ReservationResponse
      → List Call
      → List Call
      → Type 0
  Recorded key r event shown t v =
      (row : ReservationEntity) × IsRowOf env t r row
      × (v ≡ remember key shown 86400 ∷ told row event true t)

  abbrev pub Kept :
      String
      → FlightReservation
      → ReservationEvent
      → ReservationResponse
      → List Call
      → Result ReservationResponse × World Call FlightReservation
      → Type 0
  Kept key r event shown t =
      Ends (λ a v. (a ≡ shown) × Recorded key r event shown t v.trace)
        (λ e v. Stopped key t v.trace)

  -- What follows the save and the publication.
  abbrev Finish : String → OnReservation ReservationResponse
  Finish key = do
    response ← (λ w. (to_reservation_response w.state, w))
    ask {A = Unit {0}} (remember key response 86400) env.done
    pure response

  response_cleared :
      (r : FlightReservation) → to_reservation_response (clear_events r) ≡ to_reservation_response r
  unfolding to_reservation_response
  response_cleared r = refl

  after_save :
      (key : String) (r : FlightReservation) (event : ReservationEvent)
      (shown : ReservationResponse) (t : List Call)
      (p : Result (Unit {0}) × World Call FlightReservation)
      → to_reservation_response r ≡ ok shown
      → Writes env event (record { state = r; trace = t }) p
      → Kept key r event shown t (((λ w. p) >> Finish key) (record { state = r; trace = t }))
  after_save key r event shown t p s (unwritten x c) = before_save
  after_save key r event shown t p s (write_failed row m i d) = at_save row
  after_save key r event shown t p s (send_failed row m i d) = at_send row event
  after_save key r event shown t p s (written row i) =
      let same = response_cleared r ∙ s in
      let saved : World Call FlightReservation = record {
        state = clear_events r;
        trace = told row event true t;
      } in
      let kept : World Call FlightReservation = record {
        state = clear_events r;
        trace = remember key shown 86400 ∷ told row event true t;
      } in
      elim (Reply-cases (env.done (remember key shown 86400 ∷ told row event true t))) [
        | inl (x, d) ↦
            let run : Finish key saved ≡ (ok shown, kept) = ground arith in
            rw run (refl, (row, i, refl))
        | inr (m, d) ↦
            let run : Finish key saved ≡ (err (failure m), kept) = ground arith in
            rw run (at_memory row event shown)
      ]

  pub record_reservation-Kept :
      (key : String) (r : FlightReservation) (event : ReservationEvent)
      (shown : ReservationResponse) (t : List Call)
      → r.uncommitted_events ≡ event ∷ []
      → to_reservation_response r ≡ ok shown
      → Kept key r event shown t (record_reservation env key (record { state = r; trace = t }))
  unfolding record_reservation
  record_reservation-Kept key r event shown t one s =
      let w : World Call FlightReservation = record { state = r; trace = t } in
      after_save key r event shown t (save_and_publish env w) s
        (save_and_publish-Writes env w event one)
