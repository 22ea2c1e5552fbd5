-- ===== src/Payment/Outcomes/Authorize.antt =====
-- payment-service/src/application/use-cases/authorize-payment: a payment under a new key.
use training_travel_booking.Shared.{◌∷◌, ◌≡◌, ◌⊎◌, Error, ok, to_cents}
use training_travel_booking.Shared.Text.{to_lower_case}
use training_travel_booking.Shared.Effect.{World}
use training_travel_booking.Payment.Aggregate.{Payment, create_payment, PaymentMethod}
use training_travel_booking.Payment.Storage.{to_persistence}
use training_travel_booking.Payment.Calls.{
  metric, Call, Env, save_payment, payments_created, PaymentIntent,
}
use training_travel_booking.Payment.Stripe.{create_payment_intent}
use training_travel_booking.Payment.Retry.{Gave}
use training_travel_booking.Payment.Commands.{
  AuthorizePaymentCommand, AuthorizePaymentResponseDto, to_response, create_props,
}
use training_travel_booking.Payment.UseCases.{OnPayment}
use training_travel_booking.Payment.Outcomes.Decline.{
  intent_of, MarkedBy, ShowsAuthorization, FailedAuthorization,
}

module _ (env : Env) (c : AuthorizePaymentCommand) (method : PaymentMethod) where
  -- What follows Stripe's answer.
  abbrev Recorded :
      PaymentIntent → World Call Payment → AuthorizePaymentResponseDto → World Call Payment → Type 0
  Recorded intent w dto v =
      (p' : Payment) × MarkedBy env c method intent w.state p'
      × (dto ≡ to_response p')
      × (v.trace
          ≡ metric (payments_created c.currency) ∷ save_payment (to_persistence p') ∷ w.trace)

  abbrev requested : OnPayment PaymentIntent
  requested =
      create_payment_intent env (to_cents c.amount) (to_lower_case c.currency)
        method.stripe_payment_method_id c.description c.idempotency_key

  abbrev Succeeded : PaymentIntent → World Call Payment → Type 0
  Succeeded = Gave env "createPaymentIntent" (intent_of env c method) env.intent_reply

  -- The new payment of the command.
  abbrev pub Created : World Call (Unit {0}) → Payment → Type 0
  Created w p = create_payment (env.uuid w.trace) (env.now w.trace) (create_props c) ≡ ok p

  abbrev pub AnswersAuthorization :
      World Call (Unit {0}) → AuthorizePaymentResponseDto → World Call (Unit {0}) → Type 0
  AnswersAuthorization w dto v =
      (p : Payment) × Created w p × ShowsAuthorization env c method p w.trace dto v.trace

  abbrev pub ThrowsAuthorization : World Call (Unit {0}) → Error → World Call (Unit {0}) → Type 0
  ThrowsAuthorization w e v =
      (v ≡ w) ⊎ ((p : Payment) × Created w p × FailedAuthorization env c method p w.trace e v.trace)
