-- ===== src/Inventory/Retries.antt =====
-- What a request of Amadeus with its retries does, however Amadeus and the breaker behave.
use training_travel_booking.Shared.{
  ℕ, zero, suc, ◌+◌, ◌-◌, ◌*◌, ◌≤◌, List, ◌∷◌, true, ◌⊎◌, ◌≡◌, refl, inl, inr, arith, Error, Result,
  Bool-cases, not, ◌&&◌,
}
use training_travel_booking.Shared.Doubles.{power_of_two}
use training_travel_booking.Shared.Effect.{World, Method, Ends, Ends-mono, Ends-catch, throw, ◌>>◌}
use training_travel_booking.Inventory.Calls.{
  Json, AmadeusRequest, HttpReply, response, axios_error, Call, request, wait, Env,
}
use training_travel_booking.Inventory.Effects.{effects, asked, waited, repeated}
use training_travel_booking.Inventory.Amadeus.{
  max_attempts, jittered_backoff, thrown_by, after_attempt, one_attempt, backed_off, attempts_left,
  is_domain, fired, fire_failed, execute_request,
}

-- How long a request that may be retried `left` times may wait in all, in milliseconds: at most 300
-- after the first attempt, 600 after the second, 1200 after the third.
unfoldable pub longest_wait : ℕ → ℕ
unfolding power_of_two
longest_wait zero = 0
longest_wait (suc n) = longest_wait n + 300 * power_of_two (max_attempts - suc n - 1)

backoff_bound :
    (random n : ℕ)
    → jittered_backoff random (max_attempts - suc n) ≤ 300 * power_of_two (max_attempts - suc n - 1)
unfolding jittered_backoff power_of_two
backoff_bound random zero = omega arith
backoff_bound random (suc zero) = omega arith
backoff_bound random (suc (suc zero)) = omega arith
backoff_bound random (suc (suc (suc n))) =
    let first : 4 - suc (suc (suc (suc n))) ≡ 0 = omega arith in rw first (omega arith)

module _ {S : Type 0} (env : Env) (r : AmadeusRequest) where
  -- The run left the object and the database alone, published nothing, asked Amadeus for this alone,
  -- at most once and `left` times again, and at least once unless the breaker refused, and waited no
  -- longer than these retries may.
  pub record Asked (left : ℕ) (w v : World Call S) : Type 0 where
    pub tries : ℕ
    pub bounded : tries ≤ suc left
    pub made : (env.refuses w.trace ≡ true) ⊎ (1 ≤ tries)
    pub state : v.state ≡ w.state
    pub quiet : effects v.trace ≡ effects w.trace
    pub only : asked v.trace ≡ repeated tries r (asked w.trace)
    pub slept : waited v.trace ≤ waited w.trace + longest_wait left

  -- The last call was this request, and `body` is the answer of Amadeus to it.
  abbrev pub Gave : Json → World Call S → Type 0
  Gave body v =
      (t : List Call) × (v.trace ≡ request r ∷ t) × (env.http_reply (request r ∷ t) ≡ response body)

module _ {S : Type 0} (env : Env) (r : AmadeusRequest) where
  abbrev Fine : ℕ → World Call S → Result Json × World Call S → Type 0
  Fine left w =
      Ends (λ body v. Asked env r left w v × Gave env r body v) (λ e v. Asked env r left w v)

  abbrev After : World Call S → World Call S
  After w = record { state = w.state; trace = request r ∷ w.trace }

  once : (left : ℕ) (w : World Call S) → Asked env r left w (After w)
  unfolding longest_wait
  once left w = record {
    tries = 1;
    bounded = omega arith;
    made = inr (omega arith);
    state = refl;
    quiet = refl;
    only = refl;
    slept = omega arith;
  }

  after_attempt_lem :
      (left : ℕ) (retry : Error → Method Call S Json) (settled : HttpReply) (w : World Call S)
      → env.http_reply (request r ∷ w.trace) ≡ settled
      → ((e : Error) → Fine left w (retry e (After w)))
      → Fine left w (after_attempt env r retry settled (After w))
  unfolding after_attempt
  after_attempt_lem left retry (response body) w f h = (once left w, (w.trace, refl, f))
  after_attempt_lem left retry (axios_error status message) w f h =
      elim (Bool-cases (thrown_by status message).1) [
        | inl e ↦ rw e (once left w)
        | inr e ↦ rw e (h (thrown_by status message).0)
      ]

  one_attempt_lem :
      (left : ℕ) (retry : Error → Method Call S Json) (w : World Call S)
      → ((e : Error) → Fine left w (retry e (After w)))
      → Fine left w (one_attempt env r retry w)
  unfolding one_attempt
  one_attempt_lem left retry w h =
      after_attempt_lem left retry (env.http_reply (request r ∷ w.trace)) w refl h

  -- The world in which the next attempt begins.
  abbrev Paused : ℕ → World Call S → World Call S
  Paused n w =
      let t = request r ∷ w.trace in
      record {
        state = w.state;
        trace = wait (jittered_backoff (env.random t) (max_attempts - suc n)) ∷ t;
      }

  earlier : (n : ℕ) (w v : World Call S) → Asked env r n (Paused n w) v → Asked env r (suc n) w v
  unfolding longest_wait
  earlier n w v h =
      let most = h.bounded in
      let slept = h.slept in
      let paused = backoff_bound (env.random (request r ∷ w.trace)) n in
      record {
        tries = suc h.tries;
        bounded = omega arith;
        made = inr (omega arith);
        state = h.state;
        quiet = h.quiet;
        only = h.only;
        slept = omega arith;
      }

  attempts_left_lem : (left : ℕ) (w : World Call S) → Fine left w (attempts_left env r left w)
  unfolding attempts_left backed_off
  attempts_left_lem zero w = one_attempt_lem zero throw w (λ e. once zero w)
  attempts_left_lem (suc n) w =
      one_attempt_lem (suc n)
        (λ e. backed_off env r (max_attempts - suc n) >> attempts_left env r n) w
        λ e.
          Ends-mono _ _ _ _ (attempts_left env r n (Paused n w))
            (λ a v (h, g). (earlier n w v h, g)) (λ e v h. earlier n w v h)
            (attempts_left_lem n (Paused n w))

  untouched : (left : ℕ) (w : World Call S) → env.refuses w.trace ≡ true → Asked env r left w w
  untouched left w e = record {
    tries = 0;
    bounded = omega arith;
    made = inl e;
    state = refl;
    quiet = refl;
    only = refl;
    slept = omega arith;
  }

  fired_lem : (w : World Call S) → Fine 3 w (fired env r w)
  unfolding fired
  fired_lem w = elim (Bool-cases (env.refuses w.trace)) [
    | inl e ↦ rw e (untouched 3 w e)
    | inr e ↦ rw e (attempts_left_lem 3 w)
  ]

  fire_failed_lem :
      (e : Error) (w v : World Call S) → Asked env r 3 w v → Fine 3 w (fire_failed env r e v)
  unfolding fire_failed
  fire_failed_lem e w v h = elim (Bool-cases (not (is_domain e) && env.opened v.trace)) [
    | inl f ↦ rw f h
    | inr f ↦ rw f h
  ]

-- A request of Amadeus with its retries behind the breaker, whatever Amadeus, the breaker and the
-- clock do: it returns or throws after asking for this alone, at most four times, at least once unless
-- the breaker refused, and waiting at most 2100 ms; it changes no object, saves and publishes nothing;
-- and what it returns is the answer of Amadeus to its last request.
pub execute_request-Asked :
    {S : Type 0} (env : Env) (r : AmadeusRequest) (w : World Call S)
    → Ends
        (λ body v. Asked env r 3 w v × Gave env r body v)
        (λ e v. Asked env r 3 w v)
        (execute_request env r w)
unfolding execute_request
execute_request-Asked env r w =
    Ends-catch (λ body v. Asked env r 3 w v × Gave env r body v) (λ _ v. Asked env r 3 w v)
      (λ _ v. Asked env r 3 w v) (fired env r) (fire_failed env r) w (fired_lem env r w)
      (λ e v h. fire_failed_lem env r e w v h)
