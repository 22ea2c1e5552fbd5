-- ===== src/Payment/Retry.antt =====
-- What the retries of a call of Stripe do, however Stripe and the breaker behave.
use training_travel_booking.Shared.{
  ℕ, zero, suc, ◌+◌, ◌-◌, ◌*◌, ◌≤◌, String, List, ◌∷◌, ◌≡◌, refl, inl, inr, arith, Error, declined,
  circuit_open, processing, Result, Bool-cases,
}
use training_travel_booking.Shared.Doubles.{power_of_two}
use training_travel_booking.Shared.Effect.{World, Method, Ends, Ends-mono}
use training_travel_booking.Payment.Calls.{
  StripeRequest, Attempt, fulfilled, stripe_error, other_error, Call, fire, wait, metric, stripe,
  retried, call_succeeded, Env,
}
use training_travel_booking.Payment.Effects.{effects, fires, waited}
use training_travel_booking.Payment.Stripe.{
  judge, backoff, max_retries, Verdict, decline, reject, again, react, circuit_is_open,
  after_failure, taken, attempt_once, give_up, pause, attempts, with_retry,
}

-- How long `most` attempts may wait in all, in milliseconds: up to 260 after the first, twice as
-- long after the second, and again after the third.
unfoldable pub longest_wait : ℕ → ℕ
unfolding power_of_two
longest_wait zero = 0
longest_wait (suc zero) = 0
longest_wait (suc (suc n)) = longest_wait (suc n) + 260 * power_of_two (max_retries - suc n)

backoff_bound :
    (random n : ℕ) → backoff random (max_retries - suc n) ≤ 260 * power_of_two (max_retries - suc n)
unfolding backoff power_of_two
backoff_bound random zero = omega arith
backoff_bound random (suc zero) = omega arith
backoff_bound random (suc (suc zero)) = omega arith
backoff_bound random (suc (suc (suc n))) =
    let none_left : 3 - suc (suc (suc (suc n))) ≡ 0 = omega arith in rw none_left (omega arith)

-- The calls of Stripe left the state and the database alone, published nothing, and were at least
-- one and at most `most`, with waits of bounded length between them.
pub record Tried {S : Type 0} (most : ℕ) (w v : World Call S) : Type 0 where
  pub state : v.state ≡ w.state
  pub quiet : effects v.trace ≡ effects w.trace
  pub tried : suc (fires w.trace) ≤ fires v.trace
  pub bounded : fires v.trace ≤ fires w.trace + most
  pub slept : waited v.trace ≤ waited w.trace + longest_wait most

-- What Stripe's client throws.
abbrev pub IsStripeError : Error → Type 0
IsStripeError (declined code message) = Unit
IsStripeError (circuit_open message) = Unit
IsStripeError (processing message) = Unit
IsStripeError _ = ⊥

module _ {S A : Type 0} (env : Env) (operation : String) (request : StripeRequest)
    (reply : List Call → Attempt A) where
  -- The last of the calls of Stripe was this request, and `a` is Stripe's answer to it.
  abbrev pub Gave : A → World Call S → Type 0
  Gave a v =
      (t : List Call) × (reply (fire request ∷ t) ≡ fulfilled a)
      × (v.trace ≡ metric (stripe operation call_succeeded) ∷ fire request ∷ t)

  abbrev Fine : ℕ → World Call S → Result A × World Call S → Type 0
  Fine most w = Ends (λ a v. Tried most w v × Gave a v) (λ e v. IsStripeError e × Tried most w v)

  abbrev After : World Call S → World Call S
  After w = record { state = w.state; trace = fire request ∷ w.trace }

  react_lem :
      (most : ℕ) (retry : String → Method Call S A) (d : Verdict) (w : World Call S)
      → ((last : String) → Fine (suc most) w (retry last (After w)))
      → Fine (suc most) w (react env operation request reply retry d (After w))
  unfolding react
  react_lem most retry (decline code message) w h = (
    tt,
    record {
      state = refl;
      quiet = refl;
      tried = omega arith;
      bounded = omega arith;
      slept = omega arith;
    },
  )
  react_lem most retry (reject status message) w h = (
    tt,
    record {
      state = refl;
      quiet = refl;
      tried = omega arith;
      bounded = omega arith;
      slept = omega arith;
    },
  )
  react_lem most retry (again last) w h = h last

  after_failure_lem :
      (most : ℕ) (retry : String → Method Call S A) (r : Attempt A) (w : World Call S)
      → ((last : String) → Fine (suc most) w (retry last (After w)))
      → Fine (suc most) w (after_failure env operation request reply retry r (After w))
  unfolding after_failure circuit_is_open
  after_failure_lem most retry r w h = elim (Bool-cases (env.opened (fire request ∷ w.trace))) [
    | inl e ↦ rw e (
      tt,
      record {
        state = refl;
        quiet = refl;
        tried = omega arith;
        bounded = omega arith;
        slept = omega arith;
      },
    )
    | inr e ↦ rw e (react_lem most retry (judge r) w h)
  ]

  taken_lem :
      (most : ℕ) (retry : String → Method Call S A) (r : Attempt A) (w : World Call S)
      → reply (fire request ∷ w.trace) ≡ r
      → ((last : String) → Fine (suc most) w (retry last (After w)))
      → Fine (suc most) w (taken env operation request reply retry r (After w))
  unfolding taken
  taken_lem most retry (fulfilled a) w f h = (
    record {
      state = refl;
      quiet = refl;
      tried = omega arith;
      bounded = omega arith;
      slept = omega arith;
    },
    (w.trace, f, refl),
  )
  taken_lem most retry (stripe_error s c m p) w f h =
      after_failure_lem most retry (stripe_error s c m p) w h
  taken_lem most retry (other_error m) w f h = after_failure_lem most retry (other_error m) w h

  abbrev Once : (String → Method Call S A) → World Call S → Result A × World Call S
  Once retry w = attempt_once env operation request reply retry w

  once_lem :
      (most : ℕ) (retry : String → Method Call S A) (w : World Call S)
      → ((last : String) → Fine (suc most) w (retry last (After w)))
      → Fine (suc most) w (Once retry w)
  unfolding attempt_once
  once_lem most retry w h = taken_lem most retry (reply (fire request ∷ w.trace)) w refl h

  -- The world in which the next attempt begins.
  abbrev Paused : ℕ → World Call S → World Call S
  Paused n w =
      let t = fire request ∷ w.trace in
      record {
        state = w.state;
        trace =
            wait (backoff (env.random t) (max_retries - suc n))
            ∷ metric (stripe operation retried)
            ∷ t;
      }

  earlier : (n : ℕ) (w v : World Call S) → Tried (suc n) (Paused n w) v → Tried (suc (suc n)) w v
  unfolding longest_wait
  earlier n w v h =
      let more = h.tried in
      let most = h.bounded in
      let slept = h.slept in
      let paused = backoff_bound (env.random (fire request ∷ w.trace)) n in
      record {
        state = h.state;
        quiet = h.quiet;
        tried = omega arith;
        bounded = omega arith;
        slept = omega arith;
      }

  -- From the attempts that may be retried `left` times on.
  attempts_lem :
      (left : ℕ) (w : World Call S)
      → Fine (suc left) w (attempts env operation request reply left w)
  unfolding attempts give_up pause
  attempts_lem zero w = once_lem zero (give_up env operation request reply) w (λ last. (
    tt,
    record {
      state = refl;
      quiet = refl;
      tried = omega arith;
      bounded = omega arith;
      slept = omega arith;
    },
  ))
  attempts_lem (suc n) w = once_lem (suc n) _ w λ last.
      Ends-mono _ _ _ _ (attempts env operation request reply n (Paused n w))
        (λ a v (h, g). (earlier n w v h, g)) (λ e v h. (h.0, earlier n w v h.1))
        (attempts_lem n (Paused n w))

-- A call of Stripe with its retries, whatever Stripe, the breaker and the clock do: it fires at
-- least once and at most four times, waits at most 1820 ms, changes no object, saves and publishes
-- nothing, and either returns what Stripe answered to the last of these requests, or throws one of
-- the three errors of Stripe's client.
pub with_retry-Ends :
    {S A : Type 0} (env : Env) (operation : String) (request : StripeRequest)
    (reply : List Call → Attempt A) (w : World Call S)
    → Ends
        (λ a v. Tried 4 w v × Gave env operation request reply a v)
        (λ e v. IsStripeError e × Tried 4 w v)
        (with_retry env operation request reply w)
with_retry-Ends env operation request reply w = attempts_lem env operation request reply 3 w
