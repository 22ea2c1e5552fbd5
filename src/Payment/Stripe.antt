-- ===== src/Payment/Stripe.antt =====
-- payment-service/src/infrastructure/stripe/stripe-client.service.ts. Logging is left out, and
-- what the breaker's listeners do.
use training_travel_booking.Shared.{
  ℕ, zero, suc, ◌+◌, ◌-◌, ◌*◌, ◌/◌, ◌%◌, String, Option, Bool, ◌||◌, List, ◌∷◌, Number, declined,
  circuit_open, processing, ok, ◌<>◌, or_default, ◌==◌, to_cents, if◌then◌else◌,
}
use training_travel_booking.Shared.Doubles.{power_of_two}
use training_travel_booking.Shared.Numbers.{min}
use mathlib.Core.Option.{map as map_option}
use training_travel_booking.Shared.Effect.{Method, pure, throw, gets, note, ◌>>=◌, ◌>>◌}
use training_travel_booking.Payment.Calls.{
  StripeRequest, create_intent, capture_intent, refund_intent, detach_method, Attempt, fulfilled,
  stripe_error, other_error, StripeOutcome, call_succeeded, call_declined, error_circuit_open,
  error_declined, error_max_retries, error_http, retried, stripe, Call, fire, wait, metric,
  PaymentIntent, Env,
}

abbrev pub max_retries : ℕ
max_retries = 3

-- `ms + Math.floor(Math.random() * ms * 0.3)`, where `Math.random()` is
-- random / 2 ** 53 with random below 2 ** 53
abbrev pub jitter : ℕ → ℕ → ℕ
jitter random ms = ms + random % 9007199254740992 * ms * 3 / 90071992547409920

-- `jitter(Math.min(BASE_DELAY_MS * Math.pow(2, attempt), MAX_DELAY_MS))`
unfoldable pub backoff : ℕ → ℕ → ℕ
unfolding power_of_two
backoff random attempt = jitter random (min (200 * power_of_two attempt) 5000)

-- `NON_RETRYABLE_CODES.has(statusCode)`
abbrev pub is_non_retryable : ℕ → Bool
is_non_retryable s = s == 400 || s == 402 || s == 403 || s == 404

-- What the `catch` block does with a failed attempt: throw at once, or go on with the loop.
pub data Verdict : Type 0 where
  decline : (code message : String) → Verdict
  reject : (status : ℕ) (message : String) → Verdict
  again : (last_error : String) → Verdict

unfoldable pub judge : {A : Type 0} → Attempt A → Verdict
judge (fulfilled a) = again ""
judge (stripe_error status code message printed) =
    let s = or_default status 0 in
    if s == 402
    then decline (or_default code "payment_failed") message
    else if is_non_retryable s
    then reject s message
    else again printed
judge (other_error message) = again message

module _ {S A : Type 0} (env : Env) (operation : String) (request : StripeRequest)
    (reply : List Call → Attempt A) where
  -- `breaker.fire(fn)`
  abbrev pub fired : Method Call S (Attempt A)
  fired w = let t = fire request ∷ w.trace in (ok (reply t), record { state = w.state; trace = t })

  abbrev pub count : StripeOutcome → Method Call S (Unit {0})
  count o = note (metric (stripe operation o))

  unfoldable pub circuit_is_open : Method Call S A
  circuit_is_open = do
    count error_circuit_open
    throw (circuit_open "Stripe service temporarily unavailable (circuit open)")

  unfoldable pub react : (String → Method Call S A) → Verdict → Method Call S A
  react retry (decline code message) = do
    count error_declined
    count call_declined
    throw (declined code message)
  react retry (reject status message) = do count (error_http status); throw (processing message)
  react retry (again last) = retry last

  -- What the `catch` block throws at once, or `retry` with the last error.
  unfoldable pub after_failure : (String → Method Call S A) → Attempt A → Method Call S A
  unfolding judge circuit_is_open react
  after_failure retry r = do
    opened ← gets λ w. env.opened w.trace
    if opened then circuit_is_open else react retry (judge r)

  unfoldable pub taken : (String → Method Call S A) → Attempt A → Method Call S A
  unfolding after_failure
  taken retry (fulfilled a) = do count call_succeeded; pure a
  taken retry (stripe_error status code message printed) =
      after_failure retry (stripe_error status code message printed)
  taken retry (other_error message) = after_failure retry (other_error message)

  -- The body of the loop.
  unfoldable pub attempt_once : (String → Method Call S A) → Method Call S A
  unfolding taken
  attempt_once retry = do attempt ← fired; taken retry attempt

  unfoldable pub give_up : String → Method Call S A
  give_up last = do
    count error_max_retries
    throw (processing ("Stripe " <> operation <> " failed after 3 retries: " <> last))

  unfoldable pub pause : ℕ → Method Call S (Unit {0})
  unfolding backoff
  pause attempt = do
    random ← gets λ w. env.random w.trace
    count retried
    note (wait (backoff random attempt))

  -- The loop, when the attempts left may be retried `left` times.
  unfoldable pub attempts : ℕ → Method Call S A
  unfolding attempt_once give_up pause
  attempts zero = attempt_once give_up
  attempts (suc n) = attempt_once λ _. do pause (max_retries - suc n); attempts n

  abbrev pub with_retry : Method Call S A
  with_retry = attempts max_retries

module _ {S : Type 0} (env : Env) where
  unfoldable pub create_payment_intent :
      Number → String → String → Option String → String → Method Call S PaymentIntent
  unfolding attempts
  create_payment_intent amount currency payment_method description idempotency_key =
      with_retry env "createPaymentIntent"
        (create_intent amount currency payment_method description idempotency_key) env.intent_reply

  unfoldable pub capture_payment_intent : Option String → Method Call S PaymentIntent
  unfolding attempts
  capture_payment_intent id =
      with_retry env "capturePaymentIntent" (capture_intent id) env.intent_reply

  unfoldable pub create_refund : Option String → Option Number → String → Method Call S ℕ
  unfolding attempts
  create_refund id amount reason =
      with_retry env "createRefund" (refund_intent id (map_option to_cents amount) reason)
        env.refund_reply

  unfoldable pub detach_payment_method : String → Method Call S (Unit {0})
  unfolding attempts
  detach_payment_method id =
      with_retry env "detachPaymentMethod" (detach_method id) env.detach_reply
