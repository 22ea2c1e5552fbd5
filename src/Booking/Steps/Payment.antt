-- ===== src/Booking/Steps/Payment.antt =====
-- The last two steps of the saga: the payment is authorized, then captured.
use training_travel_booking.Shared.{
  ℕ, ◌-◌, String, List, ◌∷◌, ◌≡◌, refl, ◌∙◌, arith, failure, ok, or_default, inl, inr,
}
use training_travel_booking.Shared.Effect.{World, Reply-cases, answer, fault, Ends}
use training_travel_booking.Booking.Aggregate.{
  reserved, payment_processing, start_payment_processing, confirm,
}
use training_travel_booking.Booking.Saga.{BookingSaga, SagaStatus, mark_step_completed, complete}
use training_travel_booking.Booking.Calls.{
  AuthorizeResponse, Call, Env, save_saga, authorize_payment, capture_payment, metric,
  saga_duration, bookings_confirmed,
}
use training_travel_booking.Booking.Orchestrator.{
  Objects, roll_back, begin_step, complete_step, authorize_step, finish, capture_step,
}
use training_travel_booking.Booking.Compensation.{SavesSucceed, requests, persist_lem}
use training_travel_booking.Booking.Steps.{
  objects_at, RolledBack, GavePayment, paying_with, confirmed_at, begin_step_lem, complete_step_lem,
  roll_back_lem,
}

module _ (env : Env) (saves : SavesSucceed env) (correlation_id : String) where
  abbrev authorizing : World Call Objects → BookingSaga → List Call
  authorizing w saga =
      let b = w.state.booking in
      authorize_payment b.id b.traveler_id b.total_amount b.currency correlation_id
      ∷ save_saga saga
      ∷ w.trace

  authorize_step_answered :
      (w : World Call Objects) (saga : BookingSaga) (r : AuthorizeResponse)
      → w.state.booking.status ≡ reserved
      → begin_step env 3 "authorize_payment" w
        ≡ (ok tt, objects_at w.state.booking saga (save_saga saga ∷ w.trace))
      → env.authorize_reply (authorizing w saga) ≡ answer r
      → authorize_step env correlation_id w
        ≡ complete_step env 3
            (objects_at (paying_with r.payment_id w.state.booking) saga (authorizing w saga))
  unfolding authorize_step start_payment_processing
  authorize_step_answered w saga r h begun e =
      let (saga', completed) =
        complete_step_lem env saves 3
          (objects_at (paying_with r.payment_id w.state.booking) saga (authorizing w saga)) in
      ground (arith, completed)

  authorize_step_faulted :
      (w : World Call Objects) (saga : BookingSaga) (m : String)
      → begin_step env 3 "authorize_payment" w
        ≡ (ok tt, objects_at w.state.booking saga (save_saga saga ∷ w.trace))
      → env.authorize_reply (authorizing w saga) ≡ fault m
      → authorize_step env correlation_id w
        ≡ roll_back env correlation_id 3
            (failure m)
            (objects_at w.state.booking saga (authorizing w saga))
  unfolding authorize_step
  authorize_step_faulted w saga m begun e = ground arith

  pub authorize_step_lem :
      (w : World Call Objects)
      → w.state.booking.status ≡ reserved
      → let b = w.state.booking in
        let asked =
          authorize_payment b.id b.traveler_id b.total_amount b.currency correlation_id
          ∷ requests w.trace in
        Ends
          (λ _ v.
            (id : String) × (v.state.booking ≡ paying_with id b)
            × (requests v.trace ≡ asked)
            × GavePayment env asked id)
          (RolledBack correlation_id b asked)
          (authorize_step env correlation_id w)
  authorize_step_lem w h =
      let b = w.state.booking in
      let (saga, begun) = begin_step_lem env saves 3 "authorize_payment" w in
      elim (Reply-cases (env.authorize_reply (authorizing w saga))) [
        | inl (r, e) ↦
            let (saga', completed) =
              complete_step_lem env saves 3
                (objects_at (paying_with r.payment_id b) saga (authorizing w saga)) in
            rw (authorize_step_answered w saga r h begun e ∙ completed)
              (r.payment_id, refl, refl, (authorizing w saga, r, e, refl, refl))
        | inr (m, e) ↦ ground (
          arith,
          authorize_step_faulted w saga m begun e,
          roll_back_lem env saves correlation_id 3 (failure m)
              (objects_at b saga (authorizing w saga)),
        )
      ]

  finish_lem :
      (start : ℕ) (w : World Call Objects)
      → w.state.booking.status ≡ payment_processing
      → (saga : BookingSaga) × (t : List Call) × (finish env start w
          ≡ (ok tt, objects_at (confirmed_at (env.now w.trace) w.state.booking) saga t))
        × (saga.status ≡ SagaStatus.completed)
        × (requests t ≡ requests w.trace)
  unfolding finish confirm complete
  finish_lem start w h =
      let b = confirmed_at (env.now w.trace) w.state.booking in
      let saga = complete (mark_step_completed (env.now w.trace) 4 w.state.saga) in
      let t = save_saga saga ∷ w.trace in
      (
        saga,
        metric bookings_confirmed ∷ metric (saga_duration (env.now t - start)) ∷ t,
        ground (arith, h, persist_lem env saves (objects_at b saga w.trace)),
        refl,
        refl,
      )

  abbrev capturing : World Call Objects → BookingSaga → List Call
  capturing w saga =
      capture_payment (or_default w.state.booking.payment_id "") correlation_id
      ∷ save_saga saga
      ∷ w.trace

  capture_step_answered :
      (start : ℕ) (w : World Call Objects) (saga : BookingSaga) (u : Unit {0})
      → w.state.booking.status ≡ payment_processing
      → begin_step env 4 "capture_payment" w
        ≡ (ok tt, objects_at w.state.booking saga (save_saga saga ∷ w.trace))
      → env.done (capturing w saga) ≡ answer u
      → capture_step env correlation_id start w
        ≡ finish env start (objects_at w.state.booking saga (capturing w saga))
  unfolding capture_step
  capture_step_answered start w saga u h begun e =
      let (saga', t', finished, status, quiet) =
        finish_lem start (objects_at w.state.booking saga (capturing w saga)) h in
      ground (arith, finished)

  capture_step_faulted :
      (start : ℕ) (w : World Call Objects) (saga : BookingSaga) (m : String)
      → begin_step env 4 "capture_payment" w
        ≡ (ok tt, objects_at w.state.booking saga (save_saga saga ∷ w.trace))
      → env.done (capturing w saga) ≡ fault m
      → capture_step env correlation_id start w
        ≡ roll_back env correlation_id 4
            (failure m)
            (objects_at w.state.booking saga (capturing w saga))
  unfolding capture_step
  capture_step_faulted start w saga m begun e = ground arith

  pub capture_step_lem :
      (start : ℕ) (w : World Call Objects)
      → w.state.booking.status ≡ payment_processing
      → let b = w.state.booking in
        let asked =
          capture_payment (or_default b.payment_id "") correlation_id ∷ requests w.trace in
        Ends
          (λ _ v.
            (now : ℕ) × (v.state.booking ≡ confirmed_at now b)
            × (requests v.trace ≡ asked)
            × (v.state.saga.status ≡ SagaStatus.completed))
          (RolledBack correlation_id b asked)
          (capture_step env correlation_id start w)
  capture_step_lem start w h =
      let b = w.state.booking in
      let (saga, begun) = begin_step_lem env saves 4 "capture_payment" w in
      elim (Reply-cases (env.done (capturing w saga))) [
        | inl (u, e) ↦
            let (saga', t', finished, status, quiet) =
              finish_lem start (objects_at b saga (capturing w saga)) h in
            rw (capture_step_answered start w saga u h begun e ∙ finished)
              (env.now (capturing w saga), refl, quiet, status)
        | inr (m, e) ↦ ground (
          arith,
          capture_step_faulted start w saga m begun e,
          roll_back_lem env saves correlation_id 4 (failure m)
              (objects_at b saga (capturing w saga)),
        )
      ]
