-- ===== src/Payment/Outcomes/Capture.antt =====
-- payment-service/src/application/use-cases/capture-payment.
use training_travel_booking.Shared.{
  ◌<>◌, ℕ, String, Option, none, some, true, false, List, ◌∷◌, ◌≡◌, refl, sym, ap, ◌∙◌, ◌⊎◌, inl,
  inr, arith, Number, cents, Error, domain, ok, err, Bool-cases,
}
use training_travel_booking.Shared.Effect.{World, Ends, Ends-bind, Ends-mono, update-then}
use training_travel_booking.Payment.Aggregate.{
  PaymentStatus, status_name, is_authorized, authorized, captured, Payment, mark_captured,
}
use training_travel_booking.Payment.Storage.{to_persistence}
use training_travel_booking.Payment.Calls.{
  Call, Env, save_payment, metric, payments_captured, PaymentIntent, capture_intent,
}
use training_travel_booking.Payment.Stripe.{capture_payment_intent}
use training_travel_booking.Payment.Effects.{effects}
use training_travel_booking.Payment.Retry.{Tried, Gave, IsStripeError, with_retry-Ends}
use training_travel_booking.Payment.Commands.{SettledResponseDto, CapturePaymentCommand}
use training_travel_booking.Payment.UseCases.{
  settled, own_payment, on_payment, capture_payment, record_capture, capture_authorized,
}
use training_travel_booking.Payment.Outcomes.{
  tell, tell_lem, SavedOnly, saved_only, Called, Halted, Broke, Tried-Called, Owned,
  own_payment_lem, on_payment_lem,
}

mark_captured_lem :
    (now : ℕ) (amount : Number) (correlation_id : Option String) (p : Payment)
    → p.status ≡ authorized
    → (p' : Payment) × (mark_captured now amount correlation_id p ≡ ok p')
      × (p'.status ≡ captured)
      × (p'.captured_amount ≡ some amount)
unfolding mark_captured
mark_captured_lem now amount correlation_id p h = rw h (_, refl, refl, refl)

is_authorized-status : (s : PaymentStatus) → is_authorized s ≡ true → s ≡ authorized
is_authorized-status s h = ground arith

module _ (env : Env) where
  abbrev Succeeded : Option String → PaymentIntent → World Call Payment → Type 0
  Succeeded id = Gave env "capturePaymentIntent" (capture_intent id) env.intent_reply

  capture_payment_intent-Tried :
      (id : Option String) (w : World Call Payment)
      → Ends
          (λ intent v. Tried 4 w v × Succeeded id intent v)
          (λ e v. IsStripeError e × Tried 4 w v)
          (capture_payment_intent env id w)
  unfolding capture_payment_intent
  capture_payment_intent-Tried id w =
      with_retry-Ends env "capturePaymentIntent" (capture_intent id) env.intent_reply w

  -- The amount that was captured: what Stripe received, or all if it does not say.
  abbrev pub received : PaymentIntent → Payment → Number
  received intent p = elim intent.amount_received [ some n ↦ cents n | none ↦ p.money.amount ]

  -- The payment as it is captured by Stripe's answer.
  abbrev pub MarkedBy : Option String → PaymentIntent → Payment → Payment → Type 0
  MarkedBy correlation_id intent p p' =
      (at : ℕ) × (mark_captured at (received intent p) correlation_id p ≡ ok p')

  -- Stripe was called from `t` to `u`, last to capture the payment's intent, and `p'` is the payment as its
  -- answer leaves it.
  abbrev pub Captured : Option String → Payment → List Call → Payment → List Call → Type 0
  Captured correlation_id p t p' u =
      (intent : PaymentIntent) × Called "capturePaymentIntent"
        (capture_intent p.stripe_payment_intent_id) env.intent_reply intent t u
      × MarkedBy correlation_id intent p p'

  abbrev pub ShowsCapture :
      Option String → Payment → List Call → SettledResponseDto → List Call → Type 0
  ShowsCapture correlation_id p t dto t' =
      (p' : Payment) × (u : List Call) × Captured correlation_id p t p' u
      × (dto.status ≡ captured)
      × (p'.captured_amount ≡ some dto.settled_amount)
      × (t' ≡ metric (payments_captured p.money.currency) ∷ save_payment (to_persistence p') ∷ u)
      × SavedOnly p' t t'

  -- What follows Stripe's answer.
  abbrev Recorded :
      Option String
      → PaymentIntent
      → World Call Payment
      → SettledResponseDto
      → World Call Payment
      → Type 0
  Recorded correlation_id intent w dto v =
      (p' : Payment) × MarkedBy correlation_id intent w.state p'
      × (dto.status ≡ captured)
      × (p'.captured_amount ≡ some dto.settled_amount)
      × (v.trace
          ≡ metric (payments_captured w.state.money.currency)
            ∷ save_payment (to_persistence p')
            ∷ w.trace)

  record_capture_lem :
      (correlation_id : Option String) (intent : PaymentIntent) (w : World Call Payment)
      → w.state.status ≡ authorized
      → Ends
          (Recorded correlation_id intent w)
          (λ e v. Broke (MarkedBy correlation_id intent w.state) w.trace e v.trace)
          (record_capture env correlation_id intent w)
  unfolding record_capture
  record_capture_lem correlation_id intent w h =
      let amount = received intent w.state in
      let m = payments_captured w.state.money.currency in
      let (p', e, status, held) =
        mark_captured_lem (env.now w.trace) amount correlation_id w.state h in
      let u : World Call Payment = record { state = p'; trace = w.trace } in
      let begun =
        update-then (mark_captured (env.now w.trace) amount correlation_id)
          (tell env m (settled env amount)) w p' e in
      elim (tell_lem env m (settled env amount) u) [
        | inl told ↦ rw (begun ∙ told) (p', (env.now w.trace, e), status, held, refl)
        | inr (message, unsaved) ↦
            rw (begun ∙ unsaved) (message, p', refl, (env.now w.trace, e), refl)
      ]

  capture_authorized-Ends :
      (correlation_id : Option String) (w : World Call Payment)
      → w.state.status ≡ authorized
      → Ends
          (λ dto v. ShowsCapture correlation_id w.state w.trace dto v.trace)
          (λ e v. Halted (Captured correlation_id w.state w.trace) w.trace e v.trace)
          (capture_authorized env correlation_id w)
  unfolding capture_authorized
  capture_authorized-Ends correlation_id w h =
      Ends-bind (λ intent v. Tried 4 w v × Succeeded id intent v) Shows Fails
        (capture_payment_intent env id) (record_capture env correlation_id) w
        (Ends-mono _ (λ intent v. Tried 4 w v × Succeeded id intent v) _ Fails
          (capture_payment_intent env id w) (λ a v t. t)
          (λ e v (x, t). inl (x, t.quiet, (t.tried, t.bounded)))
          (capture_payment_intent-Tried id w))
        λ intent u (t, g).
          let called =
            Tried-Called env "capturePaymentIntent" (capture_intent id) env.intent_reply intent w u
              t g in
          Ends-mono (Recorded correlation_id intent u) Shows
            (λ e v. Broke (MarkedBy correlation_id intent u.state) u.trace e v.trace) Fails
            (record_capture env correlation_id intent u)
            (λ dto v (p', marked, status, held, tr). (
              p',
              u.trace,
              (intent, called, same intent u p' t marked),
              status,
              held,
              tr
                  ∙ ap
                      (λ p.
                        metric (payments_captured p.money.currency)
                        ∷ save_payment (to_persistence p')
                        ∷ u.trace)
                      t.state,
              saved_only p' w.trace u.trace v.trace t.quiet (ap effects tr),
            ))
            (λ e v (message, p', x, marked, tr). inr (
              message,
              p',
              u.trace,
              x,
              (intent, called, same intent u p' t marked),
              tr,
              saved_only p' w.trace u.trace v.trace t.quiet (ap effects tr),
            ))
            (record_capture_lem correlation_id intent u (ap (λ x. x.status) t.state ∙ h))
    where
      id : Option String
      id = w.state.stripe_payment_intent_id

      Shows : SettledResponseDto → World Call Payment → Type 0
      Shows dto v = ShowsCapture correlation_id w.state w.trace dto v.trace

      Fails : Error → World Call Payment → Type 0
      Fails e v = Halted (Captured correlation_id w.state w.trace) w.trace e v.trace

      same :
          (intent : PaymentIntent) (u : World Call Payment) (p' : Payment)
          → Tried 4 w u
          → MarkedBy correlation_id intent u.state p'
          → MarkedBy correlation_id intent w.state p'
      same intent u p' t (at, e) =
          (at, ap (λ x. mark_captured at (received intent x) correlation_id x) (sym t.state) ∙ e)

  abbrev pub ReadAndShown :
      CapturePaymentCommand
      → World Call (Unit {0})
      → SettledResponseDto
      → World Call (Unit {0})
      → Type 0
  ReadAndShown c w dto v =
      (p : Payment) × Owned env c.payment_id c.caller_traveler_id w.trace p
      × (p.status ≡ authorized)
      × ShowsCapture c.correlation_id p w.trace dto v.trace

  abbrev pub HaltedAfter :
      CapturePaymentCommand → World Call (Unit {0}) → Error → World Call (Unit {0}) → Type 0
  HaltedAfter c w e v =
      (v.trace ≡ w.trace)
      ⊎ ((p : Payment) × Halted (Captured c.correlation_id p w.trace) w.trace e v.trace)

  capture_payment_runs :
      (c : CapturePaymentCommand) (w : World Call (Unit {0})) (p : Payment)
      → own_payment env c.payment_id c.caller_traveler_id w ≡ (ok p, w)
      → is_authorized p.status ≡ true
      → capture_payment env c w ≡ on_payment p (capture_authorized env c.correlation_id) w
  unfolding capture_payment
  capture_payment_runs c w p run h = ground arith

  capture_payment_refuses :
      (c : CapturePaymentCommand) (w : World Call (Unit {0})) (p : Payment)
      → own_payment env c.payment_id c.caller_traveler_id w ≡ (ok p, w)
      → is_authorized p.status ≡ false
      → capture_payment env c w ≡ (
        err (
            domain
              ("Cannot capture payment in status " <> status_name p.status)
              "INVALID_STATE_TRANSITION"
              409),
        w,
      )
  unfolding capture_payment
  capture_payment_refuses c w p run h = ground arith

  capture_payment_stops :
      (c : CapturePaymentCommand) (w : World Call (Unit {0})) (e : Error)
      → own_payment env c.payment_id c.caller_traveler_id w ≡ (err e, w)
      → capture_payment env c w ≡ (err e, w)
  unfolding capture_payment
  capture_payment_stops c w e run = ground arith

  -- Capturing a payment, whatever the database, Stripe and the broker answer. If it returns, the
  -- payment was read for its owner and AUTHORIZED, Stripe was called from one to four times, last to
  -- capture the payment's intent, and answered that call, and then one save was made, the only write, of
  -- that payment as `markCaptured` leaves it with the amount that Stripe received, or the payment's if
  -- Stripe does not say, which is also the amount of the answer. If it throws, either nothing was
  -- done at all, or Stripe was called, its client failed and nothing was written, or it answered and
  -- the one save failed. In every case nothing is published.
  pub capture_payment-Ends :
      (c : CapturePaymentCommand) (w : World Call (Unit {0}))
      → Ends (ReadAndShown c w) (HaltedAfter c w) (capture_payment env c w)
  capture_payment-Ends c w = elim (own_payment_lem env c.payment_id c.caller_traveler_id w) [
    | inl (p, run, own) ↦ elim (Bool-cases (is_authorized p.status)) [
      | inl h ↦
          let status = is_authorized-status p.status h in
          rw (capture_payment_runs c w p run h) (
            Ends-mono (λ dto v. ShowsCapture c.correlation_id p w.trace dto v.trace)
              (ReadAndShown c w)
              (λ e v. Halted (Captured c.correlation_id p w.trace) w.trace e v.trace)
              (HaltedAfter c w) (on_payment p (capture_authorized env c.correlation_id) w)
              (λ dto v s. (p, own, status, s)) (λ e v x. inr (p, x))
              (on_payment_lem (ShowsCapture c.correlation_id p w.trace)
                (Halted (Captured c.correlation_id p w.trace) w.trace) p
                (capture_authorized env c.correlation_id) w
                (capture_authorized-Ends c.correlation_id (record { state = p; trace = w.trace })
                  status)))
      | inr h ↦ rw (capture_payment_refuses c w p run h) (inl refl)
    ]
    | inr (e, run) ↦ rw (capture_payment_stops c w e run) (inl refl)
  ]
