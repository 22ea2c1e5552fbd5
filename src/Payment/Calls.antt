-- ===== src/Payment/Calls.antt =====
-- What the payment service calls: its database, Stripe through its circuit breaker, the broker, the
-- metrics. What they answer is that of an environment, each answer a function of the calls made so
-- far, the call that is answered included.
use training_travel_booking.Shared.{ℕ, String, Option, Bool, List, Number}
use training_travel_booking.Shared.Effect.{Reply}
use training_travel_booking.Payment.Aggregate.{PaymentEvent, PaymentMethod}
use training_travel_booking.Payment.Storage.{PaymentEntity, StoredPayment}

-- The request of one call of Stripe.
pub data StripeRequest : Type 0 where
  -- amount in cents, currency, method, description, idempotency key
  create_intent :
      Number → (currency payment_method : String) → Option String → String → StripeRequest
  -- intent, which the types do not check to be there
  capture_intent : Option String → StripeRequest
  -- intent, amount in cents, reason
  refund_intent : Option String → Option Number → String → StripeRequest
  detach_method : String → StripeRequest

-- What `breaker.fire(fn)` comes to.
pub data Attempt (A : Type 0) : Type 0 where
  fulfilled : A → Attempt A
  -- a StripeError: status, code, and its message alone and as `String(err)` prints it
  stripe_error : Option ℕ → Option String → (message printed : String) → Attempt A
  -- anything else, by its `String(err)`
  other_error : String → Attempt A

pub data StripeOutcome : Type 0 where
  call_succeeded call_declined error_circuit_open error_declined error_max_retries retried :
      StripeOutcome
  error_http : ℕ → StripeOutcome

pub data Metric : Type 0 where
  payments_created payments_captured payments_refunded : (currency : String) → Metric
  stripe : (operation : String) → StripeOutcome → Metric

pub data Call : Type 0 where
  save_payment : PaymentEntity → Call
  save_method : PaymentMethod → Call
  fire : StripeRequest → Call
  -- in milliseconds
  wait : ℕ → Call
  publish : PaymentEvent → Call
  metric : Metric → Call

-- Stripe's PaymentIntent: id and, in cents, what it received.
pub record PaymentIntent : Type 0 where
  pub id : String
  pub amount_received : Option ℕ

pub record Env : Type 0 where
  pub now : List Call → ℕ
  pub uuid : List Call → String
  -- `Math.random() * 2 ** 53`
  pub random : List Call → ℕ
  -- `breaker.opened`
  pub opened : List Call → Bool
  pub intent_reply : List Call → Attempt PaymentIntent
  -- the amount refunded, in cents
  pub refund_reply : List Call → Attempt ℕ
  pub detach_reply : List Call → Attempt (Unit {0})
  -- the calls that return nothing: saves and publications
  pub done : List Call → Reply (Unit {0})
  pub find_payment : String → List Call → Reply (Option StoredPayment)
  pub find_by_key : String → List Call → Reply (Option StoredPayment)
  pub find_by_intent : String → List Call → Reply (Option StoredPayment)
  pub find_method : String → List Call → Reply (Option PaymentMethod)
  pub find_method_by_stripe_id : String → List Call → Reply (Option PaymentMethod)
