-- ===== src/Inventory/Amadeus.antt =====
-- inventory-service/src/infrastructure/amadeus/amadeus-http.client.ts: orders at Amadeus, with
-- retries behind the circuit breaker. The breaker's own time limit of a minute and the token of the
-- request are left out, the latter being part of what axios answers; so is logging.
use training_travel_booking.Shared.{
  ℕ, zero, suc, ◌+◌, ◌-◌, ◌*◌, ◌/◌, ◌%◌, String, Option, none, some, Bool, true, false, not, ◌&&◌,
  ◌||◌, ◌∷◌, Error, domain, failure, ok, ◌<>◌, ◌==◌, if◌then◌else◌,
}
use training_travel_booking.Shared.Doubles.{power_of_two}
use training_travel_booking.Shared.Numbers.{min}
use training_travel_booking.Shared.Effect.{Method, pure, throw, gets, note, try_catch, ◌>>=◌, ◌>>◌}
use training_travel_booking.Inventory.Calls.{
  Json, AmadeusRequest, post_order, delete_order, HttpReply, response, axios_error, Call, request,
  wait, Env,
}

abbrev pub max_attempts : ℕ
max_attempts = 4

-- `NON_RETRYABLE_CODES.has(status)`
abbrev pub is_non_retryable : ℕ → Bool
is_non_retryable s = s == 400 || s == 401 || s == 403 || s == 404 || s == 422

-- `jitteredBackoff(attempt)`, the delay c plus c * 0.5 * (Math.random() * 2 - 1) cut to whole
-- milliseconds, where `Math.random()` is random / 2 ** 53.
unfoldable pub jittered_backoff : ℕ → ℕ → ℕ
jittered_backoff random attempt =
    let capped = min (200 * power_of_two (attempt - 1)) 5000 in
    (capped * 4503599627370496 + capped * (random % 9007199254740992)) / 9007199254740992

-- What a failed attempt throws, and whether `_withRetry` throws it at once: the 404 has become an
-- AmadeusNotFoundException in the response interceptor.
abbrev pub thrown_by : Option ℕ → String → Error × Bool
thrown_by none message = (failure message, false)
thrown_by (some s) message =
    if s == 404
    then (domain ("Amadeus returned 404: " <> message) "AmadeusNotFound" 404, true)
    else (failure message, is_non_retryable s)

abbrev pub is_domain : Error → Bool
is_domain (domain message code status) = true
is_domain _ = false

module _ {S : Type 0} (env : Env) (r : AmadeusRequest) where
  -- A request, and how it settles.
  abbrev pub sent : Method Call S HttpReply
  sent w =
      let t = request r ∷ w.trace in (ok (env.http_reply t), record { state = w.state; trace = t })

  unfoldable pub after_attempt : (Error → Method Call S Json) → HttpReply → Method Call S Json
  after_attempt retry (response body) = pure body
  after_attempt retry (axios_error status message) =
      let (e, final) = thrown_by status message in if final then throw e else retry e

  -- The body of the loop.
  unfoldable pub one_attempt : (Error → Method Call S Json) → Method Call S Json
  unfolding after_attempt
  one_attempt retry = do settled ← sent; after_attempt retry settled

  -- `sleep(jitteredBackoff(attempt))`
  unfoldable pub backed_off : ℕ → Method Call S (Unit {0})
  unfolding jittered_backoff
  backed_off attempt = do
    random ← gets λ w. env.random w.trace
    note (wait (jittered_backoff random attempt))

  -- The loop of `_withRetry`, when the attempt that comes may be retried `left` times.
  unfoldable pub attempts_left : ℕ → Method Call S Json
  unfolding one_attempt backed_off
  attempts_left zero = one_attempt throw
  attempts_left (suc n) = one_attempt λ e. do backed_off (max_attempts - suc n); attempts_left n

  -- `breaker.fire(fn)`
  unfoldable pub fired : Method Call S Json
  unfolding attempts_left
  fired = do
    refused ← gets λ w. env.refuses w.trace
    if refused then throw (failure "Breaker is open") else attempts_left (max_attempts - 1)

  -- The `catch` block of `_execute`.
  unfoldable pub fire_failed : Error → Method Call S Json
  fire_failed e = do
    opened ← gets λ w. env.opened w.trace
    if not (is_domain e) && opened
        then throw (domain "Amadeus circuit is open" "AmadeusUnavailable" 503)
        else throw e

  unfoldable pub execute_request : Method Call S Json
  unfolding fired fire_failed
  execute_request = try_catch fired fire_failed

module _ {S : Type 0} (env : Env) where
  unfoldable pub create_order : (offer_id passenger_id cabin_class : String) → Method Call S Json
  create_order offer_id passenger_id cabin_class =
      execute_request env (post_order offer_id passenger_id cabin_class)

  unfoldable pub cancel_order : String → Method Call S (Unit {0})
  cancel_order order_id = do execute_request env (delete_order order_id); pure tt
