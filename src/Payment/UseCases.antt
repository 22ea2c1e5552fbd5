-- ===== src/Payment/UseCases.antt =====
-- payment-service/src/application/use-cases, with the reads and writes of
-- infrastructure/persistence/repositories. A use case keeps no objects between its calls, so its
-- state is empty; the calls on one payment run on that payment as their state. Logging is left out.
use training_travel_booking.Shared.{
  ℕ, String, Option, none, some, Bool, true, false, not, List, [], ◌∷◌, Number, cents, to_cents,
  Error, domain, http, declined, circuit_open, processing, not_found, conflict, ◌<>◌, str_eq,
  if◌then◌else◌,
}
use training_travel_booking.Shared.Text.{to_lower_case}
use training_travel_booking.Shared.Effect.{
  Method, Reply, pure, throw, lift, gets, ask, read, try_catch, modify, update, note, when, scoped,
  ◌>>=◌, ◌>>◌,
}
use training_travel_booking.Payment.Aggregate.{
  status_name, is_pending, is_authorized, is_captured, PaymentEvent, Payment, create_payment,
  clear_events, authorize, mark_captured, mark_refunded, mark_failed, PaymentMethod,
  CreatePaymentMethodProps, create_method, deactivate,
}
use training_travel_booking.Payment.Storage.{StoredPayment, to_persistence, to_domain}
use training_travel_booking.Payment.Calls.{
  Call, Env, save_payment, save_method, publish, metric, PaymentIntent, payments_created,
  payments_captured, payments_refunded,
}
use training_travel_booking.Payment.Stripe.{
  create_payment_intent, capture_payment_intent, create_refund, detach_payment_method,
}
use training_travel_booking.Payment.Commands.{
  AuthorizePaymentCommand, AuthorizePaymentResponseDto, CapturePaymentCommand, RefundPaymentCommand,
  SettledResponseDto, PaymentMethodResponseDto, to_method_response, GetPaymentResponseDto,
  to_response, create_props,
}

abbrev pub UseCase : Type 0 → Type 0
UseCase = Method Call (Unit {0})

-- What runs on one payment, the object that it changes.
abbrev pub OnPayment : Type 0 → Type 0
OnPayment = Method Call Payment

abbrev pub on_payment : {A : Type 0} → Payment → OnPayment A → UseCase A
on_payment p m = do (r, p') ← scoped p m; lift r

abbrev pub forbidden : String → Error
forbidden message = domain message "FORBIDDEN" 403

module _ (env : Env) where
  open env use {now, uuid, done, find_payment, find_by_key, find_method, find_method_by_stripe_id}

  -- A row that was looked for, as a payment.
  abbrev pub loaded : (List Call → Reply (Option StoredPayment)) → UseCase (Option Payment)
  loaded find = do
    found ← read find
    elim found [ none ↦ pure none | some e ↦ (do p ← lift (to_domain e); pure (some p)) ]

  -- `save` of PaymentRepository, which clears the events of the payment.
  unfoldable pub save : OnPayment (Unit {0})
  save = do
    p ← gets λ w. w.state
    ask {A = Unit {0}} (save_payment (to_persistence p)) done
    modify clear_events

  -- Publish each event; a fault is logged and forgotten.
  unfoldable pub publish_all : List PaymentEvent → OnPayment (Unit {0})
  publish_all [] = pure tt
  publish_all (e ∷ es) = do
    try_catch (ask {A = Unit {0}} (publish e) done) (λ _. pure tt)
    publish_all es

  unfoldable pub publish_uncommitted : OnPayment (Unit {0})
  unfolding publish_all
  publish_uncommitted = do events ← gets λ w. w.state.uncommitted_events; publish_all events

  -- Publish each event until one faults.
  unfoldable pub publish_until_fault : List PaymentEvent → OnPayment (Unit {0})
  publish_until_fault [] = pure tt
  publish_until_fault (e ∷ es) = do ask {A = Unit {0}} (publish e) done; publish_until_fault es

  -- The `catch` block of the authorization, for a card that was declined.
  unfoldable pub declined_payment :
      String → Option String → Error → OnPayment AuthorizePaymentResponseDto
  unfolding publish_until_fault
  declined_payment code correlation_id e = do
    at ← gets λ w. now w.trace
    update (mark_failed at code correlation_id)
    save
    events ← gets λ w. w.state.uncommitted_events
    try_catch (publish_until_fault events) (λ _. pure tt)
    throw e

  -- The whole `catch` block.
  unfoldable pub authorization_failed :
      Option String → Error → OnPayment AuthorizePaymentResponseDto
  authorization_failed correlation_id (declined code message) =
      declined_payment code correlation_id (declined code message)
  authorization_failed correlation_id (circuit_open message) = throw (processing message)
  authorization_failed correlation_id e = throw e

  -- After the call of Stripe.
  unfoldable pub record_authorization :
      AuthorizePaymentCommand → PaymentIntent → OnPayment AuthorizePaymentResponseDto
  record_authorization c intent = do
    at ← gets λ w. now w.trace
    update (authorize at intent.id c.correlation_id)
    save
    note (metric (payments_created c.currency))
    publish_uncommitted
    gets λ w. to_response w.state

  -- The `try` block.
  unfoldable pub authorize_at_stripe :
      AuthorizePaymentCommand → PaymentMethod → OnPayment AuthorizePaymentResponseDto
  authorize_at_stripe c method = do
    intent ←
        create_payment_intent env (to_cents c.amount) (to_lower_case c.currency)
          method.stripe_payment_method_id c.description c.idempotency_key
    record_authorization c intent

  -- Steps 4 to 8, for a method of the caller.
  unfoldable pub authorize_new :
      AuthorizePaymentCommand → PaymentMethod → UseCase AuthorizePaymentResponseDto
  authorize_new c method = do
    id ← gets λ w. uuid w.trace
    at ← gets λ w. now w.trace
    p ← lift (create_payment id at (create_props c))
    on_payment p (try_catch (authorize_at_stripe c method) (authorization_failed c.correlation_id))

  -- `findById` of a payment method, and the checks of its owner that two use cases make.
  unfoldable pub own_method : String → String → UseCase PaymentMethod
  own_method id caller = do
    found ← read (find_method id)
    elim found [
      | none ↦ throw (not_found ("Payment method " <> id <> " not found."))
      | some m ↦
          if not (str_eq m.traveler_id caller)
          then throw (forbidden ("Payment method " <> id <> " does not belong to the caller."))
          else pure m
    ]

  -- The answer to a key that was used before.
  unfoldable pub replay : String → Payment → UseCase (AuthorizePaymentResponseDto × Bool)
  replay key p =
      if is_pending p.status
      then throw (
          conflict ("Payment with idempotency key " <> key <> " is already in-flight.")
            "PAYMENT_IN_FLIGHT")
      else pure (to_response p, false)

  -- The response, and whether it is a new payment's.
  unfoldable pub authorize_payment :
      AuthorizePaymentCommand → UseCase (AuthorizePaymentResponseDto × Bool)
  authorize_payment c = do
    when (str_eq c.idempotency_key "") (throw (http "Idempotency-Key header is required" 400))
    existing ← loaded (find_by_key c.idempotency_key)
    elim existing [
      | some p ↦ replay c.idempotency_key p
      | none ↦ (do
        method ← own_method c.payment_method_id c.traveler_id
        response ← authorize_new c method
        pure (response, true))
    ]

  -- `findById` of a payment, and the checks that three use cases make.
  unfoldable pub own_payment : String → String → UseCase Payment
  own_payment id caller = do
    found ← loaded (find_payment id)
    elim found [
      | none ↦ throw (not_found ("Payment " <> id <> " not found."))
      | some p ↦
          if not (str_eq p.traveler_id caller)
          then throw (forbidden ("Payment " <> id <> " does not belong to the caller."))
          else pure p
    ]

  unfoldable pub get_payment : String → String → UseCase GetPaymentResponseDto
  get_payment id caller = do
    p ← own_payment id caller
    pure (record {
      payment_id = p.id;
      status = p.status;
      amount = p.money.amount;
      currency = p.money.currency;
      booking_id = p.booking_id;
      traveler_id = p.traveler_id;
      payment_method_id = p.payment_method_id;
      failure_reason = p.failure_reason;
      captured_amount = p.captured_amount;
      refunded_amount = p.refunded_amount;
      created_at = p.created_at;
      updated_at = p.updated_at;
    })

  abbrev pub settled : Number → Payment → SettledResponseDto
  settled amount p = record {
    payment_id = p.id;
    status = p.status;
    settled_amount = amount;
    currency = p.money.currency;
  }

  -- After the call of Stripe.
  unfoldable pub record_capture : Option String → PaymentIntent → OnPayment SettledResponseDto
  record_capture correlation_id intent = do
    p ← gets λ w. w.state
    let amount : Number = elim intent.amount_received [ some n ↦ cents n | none ↦ p.money.amount ]
    at ← gets λ w. now w.trace
    update (mark_captured at amount correlation_id)
    save
    note (metric (payments_captured p.money.currency))
    publish_uncommitted
    gets λ w. settled amount w.state

  -- From the call of Stripe on.
  unfoldable pub capture_authorized : Option String → OnPayment SettledResponseDto
  capture_authorized correlation_id = do
    p ← gets λ w. w.state
    intent ← capture_payment_intent env p.stripe_payment_intent_id
    record_capture correlation_id intent

  unfoldable pub capture_payment : CapturePaymentCommand → UseCase SettledResponseDto
  capture_payment c = do
    p ← own_payment c.payment_id c.caller_traveler_id
    when (not (is_authorized p.status)) (
        throw (
          domain ("Cannot capture payment in status " <> status_name p.status)
            "INVALID_STATE_TRANSITION" 409))
    on_payment p (capture_authorized c.correlation_id)

  -- After the call of Stripe, which refunded `n` cents.
  unfoldable pub record_refund : RefundPaymentCommand → ℕ → OnPayment SettledResponseDto
  record_refund c n = do
    p ← gets λ w. w.state
    at ← gets λ w. now w.trace
    update (mark_refunded at (cents n) c.reason c.correlation_id)
    save
    note (metric (payments_refunded p.money.currency))
    publish_uncommitted
    gets λ w. settled (cents n) w.state

  -- From the call of Stripe on.
  unfoldable pub refund_captured : RefundPaymentCommand → OnPayment SettledResponseDto
  refund_captured c = do
    p ← gets λ w. w.state
    n ← create_refund env p.stripe_payment_intent_id c.amount c.reason
    record_refund c n

  unfoldable pub refund_payment : RefundPaymentCommand → UseCase SettledResponseDto
  refund_payment c = do
    p ← own_payment c.payment_id c.caller_traveler_id
    when (not (is_captured p.status)) (
        throw (
          domain ("Cannot refund payment in status " <> status_name p.status)
            "INVALID_STATE_TRANSITION" 409))
    on_payment p (refund_captured c)

  -- `existing` is looked for by the id at Stripe.
  unfoldable pub attach_payment_method : CreatePaymentMethodProps → UseCase PaymentMethodResponseDto
  attach_payment_method c = do
    existing ← read (find_method_by_stripe_id c.stripe_payment_method_id)
    elim existing [
      | some m ↦ throw (
          conflict ("Payment method " <> c.stripe_payment_method_id <> " already attached.")
            "PAYMENT_METHOD_ALREADY_EXISTS")
      | none ↦ (do
        id ← gets λ w. uuid w.trace
        at ← gets λ w. now w.trace
        let m : PaymentMethod = create_method id at c
        ask {A = Unit {0}} (save_method m) done
        pure (to_method_response m))
    ]

  unfoldable pub detach : String → String → UseCase (Unit {0})
  detach payment_method_id caller = do
    m ← own_method payment_method_id caller
    at ← gets λ w. now w.trace
    m' ← lift (deactivate at m)
    ask {A = Unit {0}} (save_method m') done
    try_catch (detach_payment_method env m'.stripe_payment_method_id) (λ _. pure tt)
