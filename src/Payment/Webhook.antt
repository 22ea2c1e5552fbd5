-- ===== src/Payment/Webhook.antt =====
-- payment-service/src/presentation/controllers/stripe-webhook.controller.ts. Stripe's check of the
-- signature is a parameter: what `constructWebhookEvent` returns, or nothing if it throws.
use training_travel_booking.Shared.{
  String, Option, none, some, Bool, true, not, ◌&&◌, http, or_default, is_truthy, if◌then◌else◌,
}
use training_travel_booking.Shared.Effect.{pure, throw, gets, update, ◌>>=◌, ◌>>◌}
use training_travel_booking.Payment.Aggregate.{
  is_pending, is_authorized, is_failed, is_cancelled, mark_failed, mark_cancelled,
}
use training_travel_booking.Payment.Calls.{Env}
use training_travel_booking.Payment.UseCases.{
  UseCase, OnPayment, on_payment, loaded, save, publish_uncommitted,
}

-- A Stripe event by its type, with the id of its intent, and the message of its last error.
pub data WebhookEvent : Type 0 where
  intent_failed : (intent_id : String) → (last_error : Option String) → WebhookEvent
  intent_cancelled : (intent_id : String) → WebhookEvent
  unhandled : WebhookEvent

-- The body and the signature, unless `!rawBody || !signature`; an empty body is there, too.
abbrev pub present : Option String → Option String → Option (String × String)
present none signature = none
present (some body) signature =
    if is_truthy signature then some (body, or_default signature "") else none

module _ (env : Env) where
  open env use {now, find_by_intent}

  unfoldable pub fail_from_webhook : Option String → OnPayment (Unit {0})
  fail_from_webhook last_error = do
    at ← gets λ w. now w.trace
    update (mark_failed at (or_default last_error "Payment failed via Stripe webhook") none)
    save env
    publish_uncommitted env

  unfoldable pub handle_payment_failed : String → Option String → UseCase (Unit {0})
  handle_payment_failed intent_id last_error = do
    found ← loaded env (find_by_intent intent_id)
    elim found [
      | none ↦ pure tt
      | some p ↦
          if is_failed p.status
          then pure tt
          else if not (is_pending p.status) && not (is_authorized p.status)
          then pure tt
          else on_payment p (fail_from_webhook last_error)
    ]

  unfoldable pub cancel_from_webhook : OnPayment (Unit {0})
  cancel_from_webhook = do at ← gets λ w. now w.trace; update (mark_cancelled at); save env

  unfoldable pub handle_payment_cancelled : String → UseCase (Unit {0})
  handle_payment_cancelled intent_id = do
    found ← loaded env (find_by_intent intent_id)
    elim found [
      | none ↦ pure tt
      | some p ↦
          if is_cancelled p.status
          then pure tt
          else if not (is_authorized p.status)
          then pure tt
          else on_payment p cancel_from_webhook
    ]

  unfoldable pub process_event : WebhookEvent → UseCase (Unit {0})
  process_event (intent_failed intent_id last_error) = handle_payment_failed intent_id last_error
  process_event (intent_cancelled intent_id) = handle_payment_cancelled intent_id
  process_event unhandled = pure tt

  -- The verified event, if the signature is right; the raw body and the signature, if they are there.
  unfoldable pub handle_webhook :
      (construct_webhook_event : String → String → Option WebhookEvent)
      → Option String
      → Option String
      → UseCase Bool
  handle_webhook construct_webhook_event raw_body signature = elim (present raw_body signature) [
    | none ↦ throw (http "Missing Stripe-Signature header or raw body" 400)
    | some (body, s) ↦ elim (construct_webhook_event body s) [
      | none ↦ throw (http "Invalid Stripe-Signature" 400)
      | some event ↦ (do process_event event; pure true)
    ]
  ]
