-- ===== src/Booking/Steps/Reservation.antt =====
-- The second step of the saga: the reservation.
use training_travel_booking.Shared.{String, List, ◌∷◌, ◌≡◌, refl, ◌∙◌, arith, failure, ok, inl, inr}
use training_travel_booking.Shared.Effect.{World, Reply-cases, answer, fault, Ends}
use training_travel_booking.Booking.Itinerary.{to_json}
use training_travel_booking.Booking.Aggregate.{pending, reserve}
use training_travel_booking.Booking.Saga.{BookingSaga}
use training_travel_booking.Booking.Calls.{
  ReservationResponse, Call, Env, save_saga, create_reservation,
}
use training_travel_booking.Booking.Orchestrator.{
  Objects, roll_back, begin_step, complete_step, reserve_step,
}
use training_travel_booking.Booking.Compensation.{SavesSucceed, requests}
use training_travel_booking.Booking.Steps.{
  objects_at, RolledBack, GaveReservation, reserved_with, begin_step_lem, complete_step_lem,
  roll_back_lem,
}

module _ (env : Env) (saves : SavesSucceed env) (correlation_id : String) where
  abbrev reserving : World Call Objects → BookingSaga → List Call
  reserving w saga =
      let b = w.state.booking in
      create_reservation b.offer_id (to_json b.itinerary) correlation_id ∷ save_saga saga ∷ w.trace

  reserve_step_answered :
      (w : World Call Objects) (saga : BookingSaga) (r : ReservationResponse)
      → w.state.booking.status ≡ pending
      → begin_step env 2 "create_reservation" w
        ≡ (ok tt, objects_at w.state.booking saga (save_saga saga ∷ w.trace))
      → env.reservation_reply (reserving w saga) ≡ answer r
      → reserve_step env correlation_id w
        ≡ complete_step env 2
            (objects_at (reserved_with r.reservation_id w.state.booking) saga (reserving w saga))
  unfolding reserve_step reserve
  reserve_step_answered w saga r h begun e =
      let (saga', completed) =
        complete_step_lem env saves 2
          (objects_at (reserved_with r.reservation_id w.state.booking) saga (reserving w saga)) in
      ground (arith, completed)

  reserve_step_faulted :
      (w : World Call Objects) (saga : BookingSaga) (m : String)
      → begin_step env 2 "create_reservation" w
        ≡ (ok tt, objects_at w.state.booking saga (save_saga saga ∷ w.trace))
      → env.reservation_reply (reserving w saga) ≡ fault m
      → reserve_step env correlation_id w
        ≡ roll_back env correlation_id 2
            (failure m)
            (objects_at w.state.booking saga (reserving w saga))
  unfolding reserve_step
  reserve_step_faulted w saga m begun e = ground arith

  pub reserve_step_lem :
      (w : World Call Objects)
      → w.state.booking.status ≡ pending
      → let b = w.state.booking in
        let asked =
          create_reservation b.offer_id (to_json b.itinerary) correlation_id ∷ requests w.trace in
        Ends
          (λ _ v.
            (id : String) × (v.state.booking ≡ reserved_with id b)
            × (requests v.trace ≡ asked)
            × GaveReservation env asked id)
          (RolledBack correlation_id b asked)
          (reserve_step env correlation_id w)
  reserve_step_lem w h =
      let b = w.state.booking in
      let (saga, begun) = begin_step_lem env saves 2 "create_reservation" w in
      elim (Reply-cases (env.reservation_reply (reserving w saga))) [
        | inl (r, e) ↦
            let (saga', completed) =
              complete_step_lem env saves 2
                (objects_at (reserved_with r.reservation_id b) saga (reserving w saga)) in
            rw (reserve_step_answered w saga r h begun e ∙ completed)
              (r.reservation_id, refl, refl, (reserving w saga, r, e, refl, refl))
        | inr (m, e) ↦ ground (
          arith,
          reserve_step_faulted w saga m begun e,
          roll_back_lem env saves correlation_id 2 (failure m)
              (objects_at b saga (reserving w saga)),
        )
      ]
