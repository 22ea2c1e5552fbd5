-- ===== src/Payment/Outcomes/Decline.antt =====
-- payment-service/src/application/use-cases/authorize-payment: how an authorization may end, and its
-- `catch` block.
use training_travel_booking.Shared.{
  ℕ, String, Option, some, List, ◌∷◌, ◌≡◌, refl, sym, subst, ap, ◌∙◌, ◌⊎◌, inl, inr, arith, Error,
  domain, http, policy_violation, declined, circuit_open, processing, failure, Result, ok, err,
  to_cents,
}
use training_travel_booking.Shared.Text.{to_lower_case}
use training_travel_booking.Shared.Effect.{
  World, Reply-cases, Ends, update-then, try_catch, gets, pure, throw, ◌>>=◌, ◌>>◌,
}
use training_travel_booking.Payment.Aggregate.{
  pending, authorized, failed, Payment, clear_events, authorize, mark_failed, PaymentMethod,
}
use training_travel_booking.Payment.Storage.{to_persistence}
use training_travel_booking.Payment.Calls.{
  Call, Env, StripeRequest, create_intent, PaymentIntent, save_payment, metric, payments_created,
}
use training_travel_booking.Payment.Effects.{effects}
use training_travel_booking.Payment.Retry.{IsStripeError}
use training_travel_booking.Payment.Commands.{
  AuthorizePaymentCommand, AuthorizePaymentResponseDto, to_response,
}
use training_travel_booking.Payment.UseCases.{
  OnPayment, save, publish_until_fault, declined_payment, authorization_failed,
}
use training_travel_booking.Payment.Outcomes.{SavedOnly, Fired, Called}

mark_failed_lem :
    (now : ℕ) (code : String) (correlation_id : Option String) (p : Payment)
    → p.status ≡ pending
    → (p' : Payment) × (mark_failed now code correlation_id p ≡ ok p')
      × (p'.status ≡ failed)
      × (p'.failure_reason ≡ some code)
unfolding mark_failed
mark_failed_lem now code correlation_id p h = rw h (_, refl, refl, refl)

module _ (env : Env) (c : AuthorizePaymentCommand) (method : PaymentMethod) where
  -- What Stripe is asked for.
  abbrev pub intent_of : StripeRequest
  intent_of =
      create_intent (to_cents c.amount) (to_lower_case c.currency) method.stripe_payment_method_id
        c.description c.idempotency_key

  -- The payment as it is authorized under Stripe's answer.
  abbrev pub MarkedBy : PaymentIntent → Payment → Payment → Type 0
  MarkedBy intent p p' =
      (at : ℕ) × (authorize at intent.id c.correlation_id p ≡ ok p') × (p'.status ≡ authorized)

  -- Stripe was called from `t` to `u` for the intent, and `p'` is the payment under its answer.
  abbrev pub Authorized : Payment → List Call → Payment → List Call → Type 0
  Authorized p t p' u =
      (intent : PaymentIntent) × Called "createPaymentIntent" intent_of env.intent_reply intent t u
      × MarkedBy intent p p'

  abbrev pub ShowsAuthorization :
      Payment → List Call → AuthorizePaymentResponseDto → List Call → Type 0
  ShowsAuthorization p t dto t' =
      (p' : Payment) × (u : List Call) × Authorized p t p' u
      × (dto ≡ to_response p')
      × (t' ≡ metric (payments_created c.currency) ∷ save_payment (to_persistence p') ∷ u)
      × SavedOnly p' t t'

  -- The payment as it is declined.
  abbrev pub Declined : Payment → String → Payment → Type 0
  Declined p code p' =
      (at : ℕ) × (mark_failed at code c.correlation_id p ≡ ok p')
      × (p'.status ≡ failed)
      × (p'.failure_reason ≡ some code)

  abbrev pub Unsaved : Payment → List Call → Error → List Call → Type 0
  Unsaved p t e t' =
      (message : String) × (p' : Payment) × (u : List Call) × (e ≡ failure message)
      × Authorized p t p' u
      × (t' ≡ save_payment (to_persistence p') ∷ u)
      × SavedOnly p' t t'

  -- How the `try` block throws, on the payment of `w`.
  abbrev pub Tripped : World Call Payment → Error → World Call Payment → Type 0
  Tripped w e v =
      IsStripeError e
        × (v.state ≡ w.state)
        × (effects v.trace ≡ effects w.trace)
        × Fired w.trace v.trace
      ⊎ Unsaved w.state w.trace e v.trace

  -- How the authorization throws: Stripe was called, fails and nothing is written; the write of the
  -- authorized payment fails; or the card is declined and the one write is of the FAILED payment.
  abbrev pub FailedAuthorization : Payment → List Call → Error → List Call → Type 0
  FailedAuthorization p t e t' =
      ((message : String) × (e ≡ processing message) × (effects t' ≡ effects t) × Fired t t')
      ⊎ (Unsaved p t e t'
          ⊎ ((code : String) × (message : String) × (p' : Payment) × ((e ≡ declined code message)
                ⊎ (e ≡ failure message))
              × Declined p code p'
              × Fired t t'
              × SavedOnly p' t t'))

  abbrev pub Shown : Payment → List Call → AuthorizePaymentResponseDto → World Call Payment → Type 0
  Shown p t dto u = ShowsAuthorization p t dto u.trace

  abbrev pub Failed : Payment → List Call → Error → World Call Payment → Type 0
  Failed p t e u = FailedAuthorization p t e u.trace

module _ (env : Env) (c : AuthorizePaymentCommand) (method : PaymentMethod) where
  -- What follows the change to FAILED.
  abbrev refuse : Error → OnPayment AuthorizePaymentResponseDto
  refuse e = do
    save env
    events ← gets λ w. w.state.uncommitted_events
    try_catch (publish_until_fault env events) (λ _. pure tt)
    throw e

  abbrev Refuses :
      Error → World Call Payment → Result AuthorizePaymentResponseDto × World Call Payment → Type 0
  Refuses e u p =
      (p ≡ (
        err e,
        record {
          state = clear_events u.state;
          trace = save_payment (to_persistence u.state) ∷ u.trace;
        },
      ))
      ⊎ ((m : String) × (p ≡ (
        err (failure m),
        record { state = u.state; trace = save_payment (to_persistence u.state) ∷ u.trace },
      )))

  refuse_lem : (e : Error) (u : World Call Payment) → Refuses e u (refuse e u)
  unfolding save publish_until_fault
  refuse_lem e u = elim (Reply-cases (env.done (save_payment (to_persistence u.state) ∷ u.trace))) [
    | inl (x, r) ↦ inl (ground arith)
    | inr (m, r) ↦ inr (m, ground arith)
  ]

  declined_payment_lem :
      (t : List Call) (code message : String) (v : World Call Payment)
      → v.state.status ≡ pending
      → effects v.trace ≡ effects t
      → Fired t v.trace
      → Ends
          (Shown env c method v.state t)
          (Failed env c method v.state t)
          (declined_payment env code c.correlation_id (declined code message) v)
  unfolding declined_payment
  declined_payment_lem t code message v h quiet fired =
      let x = declined code message in
      let (p', e, status, reason) =
        mark_failed_lem (env.now v.trace) code c.correlation_id v.state h in
      let u : World Call Payment = record { state = p'; trace = v.trace } in
      let begun =
        update-then (mark_failed (env.now v.trace) code c.correlation_id) (refuse x) v p' e in
      let saved : SavedOnly p' t (save_payment (to_persistence p') ∷ v.trace) =
        ap (λ t. save_payment (to_persistence p') ∷ t) quiet in
      let is : Declined env c method v.state code p' = (env.now v.trace, e, status, reason) in
      elim (refuse_lem x u) [
        | inl ran ↦ rw (begun ∙ ran) (inr (inr (code, message, p', inl refl, is, fired, saved)))
        | inr (m, ran) ↦ rw (begun ∙ ran) (inr (inr (code, m, p', inr refl, is, fired, saved)))
      ]

  pub authorization_failed_lem :
      (w v : World Call Payment) (e : Error)
      → w.state.status ≡ pending
      → Tripped env c method w e v
      → Ends
          (Shown env c method w.state w.trace)
          (Failed env c method w.state w.trace)
          (authorization_failed env c.correlation_id e v)
  unfolding authorization_failed
  authorization_failed_lem w v (declined code message) h (inl (_, same, quiet, fired)) =
      subst
        (λ p.
          Ends (Shown env c method p w.trace) (Failed env c method p w.trace)
            (declined_payment env code c.correlation_id (declined code message) v))
        same (declined_payment_lem w.trace code message v (ap (λ p. p.status) same ∙ h) quiet fired)
  authorization_failed_lem w v (circuit_open message) h (inl (_, same, quiet, fired)) =
      inl (message, refl, quiet, fired)
  authorization_failed_lem w v (processing message) h (inl (_, same, quiet, fired)) =
      inl (message, refl, quiet, fired)
  authorization_failed_lem w v (domain x y z) h (inl (impossible, same, quiet, fired)) =
      absurd impossible
  authorization_failed_lem w v (policy_violation x) h (inl (impossible, same, quiet, fired)) =
      absurd impossible
  authorization_failed_lem w v (http x y) h (inl (impossible, same, quiet, fired)) =
      absurd impossible
  authorization_failed_lem w v (failure x) h (inl (impossible, same, quiet, fired)) =
      absurd impossible
  authorization_failed_lem w v e h (inr (message, p', u, x, is, tr, saved)) =
      subst
        (λ e.
          Ends (Shown env c method w.state w.trace) (Failed env c method w.state w.trace)
            (authorization_failed env c.correlation_id e v))
        (sym x) (inr (inl (message, p', u, refl, is, tr, saved)))
