-- ===== src/Payment/Outcomes/Refund.antt =====
-- payment-service/src/application/use-cases/refund-payment.
use training_travel_booking.Shared.{
  ◌<>◌, ℕ, String, Option, some, true, false, List, ◌∷◌, ◌≡◌, refl, sym, ap, ◌∙◌, ◌⊎◌, inl, inr,
  arith, Number, geb_number, to_cents, cents, if◌then◌else◌, Error, domain, ok, err, Bool-cases,
}
use mathlib.Core.Option.{map as map_option}
use training_travel_booking.Shared.Effect.{World, Ends, Ends-bind, Ends-mono, update-then}
use training_travel_booking.Payment.Aggregate.{
  PaymentStatus, status_name, is_captured, captured, refunded, partially_refunded, Payment,
  mark_refunded,
}
use training_travel_booking.Payment.Storage.{to_persistence}
use training_travel_booking.Payment.Calls.{
  Call, Env, StripeRequest, save_payment, metric, payments_refunded, refund_intent,
}
use training_travel_booking.Payment.Stripe.{create_refund}
use training_travel_booking.Payment.Effects.{effects}
use training_travel_booking.Payment.Retry.{Tried, Gave, IsStripeError, with_retry-Ends}
use training_travel_booking.Payment.Commands.{SettledResponseDto, RefundPaymentCommand}
use training_travel_booking.Payment.UseCases.{
  settled, own_payment, on_payment, refund_payment, record_refund, refund_captured,
}
use training_travel_booking.Payment.Outcomes.{
  tell, tell_lem, SavedOnly, saved_only, Called, Halted, Broke, Tried-Called, Owned,
  own_payment_lem, on_payment_lem,
}

mark_refunded_lem :
    (now : ℕ) (amount : Number) (reason : String) (correlation_id : Option String) (p : Payment)
    → p.status ≡ captured
    → (p' : Payment) × (mark_refunded now amount reason correlation_id p ≡ ok p')
      × (p'.status ≡ (if geb_number amount p.money.amount then refunded else partially_refunded))
      × (p'.refunded_amount ≡ some amount)
unfolding mark_refunded
mark_refunded_lem now amount reason correlation_id p h = rw h (_, refl, refl, refl)

is_captured-status : (s : PaymentStatus) → is_captured s ≡ true → s ≡ captured
is_captured-status s h = ground arith

module _ (env : Env) where
  -- What Stripe is asked for.
  abbrev pub refund_of : RefundPaymentCommand → Payment → StripeRequest
  refund_of c p = refund_intent p.stripe_payment_intent_id (map_option to_cents c.amount) c.reason

  abbrev Succeeded : RefundPaymentCommand → Payment → ℕ → World Call Payment → Type 0
  Succeeded c p = Gave env "createRefund" (refund_of c p) env.refund_reply

  create_refund-Tried :
      (c : RefundPaymentCommand) (p : Payment) (w : World Call Payment)
      → Ends
          (λ n v. Tried 4 w v × Succeeded c p n v)
          (λ e v. IsStripeError e × Tried 4 w v)
          (create_refund env p.stripe_payment_intent_id c.amount c.reason w)
  unfolding create_refund
  create_refund-Tried c p w = with_retry-Ends env "createRefund" (refund_of c p) env.refund_reply w

  -- The payment as it is refunded by `n` cents.
  abbrev pub MarkedBy : RefundPaymentCommand → ℕ → Payment → Payment → Type 0
  MarkedBy c n p p' = (at : ℕ) × (mark_refunded at (cents n) c.reason c.correlation_id p ≡ ok p')

  -- Stripe was called from `t` to `u` for the refund, answered `n` cents, and `p'` is the payment as it
  -- is refunded by them.
  abbrev pub Refunded :
      RefundPaymentCommand → Payment → List Call → ℕ → Payment → List Call → Type 0
  Refunded c p t n p' u =
      Called "createRefund" (refund_of c p) env.refund_reply n t u × MarkedBy c n p p'

  abbrev pub ShowsRefund :
      RefundPaymentCommand → Payment → List Call → SettledResponseDto → List Call → Type 0
  ShowsRefund c p t dto t' =
      (p' : Payment) × (u : List Call) × (n : ℕ) × Refunded c p t n p' u
      × (dto.settled_amount ≡ cents n)
      × (dto.status
          ≡ (if geb_number dto.settled_amount p.money.amount then refunded else partially_refunded))
      × (p'.refunded_amount ≡ some dto.settled_amount)
      × (p'.status ≡ dto.status)
      × (t' ≡ metric (payments_refunded p.money.currency) ∷ save_payment (to_persistence p') ∷ u)
      × SavedOnly p' t t'

  abbrev pub HaltedRefund : RefundPaymentCommand → Payment → List Call → Error → List Call → Type 0
  HaltedRefund c p t = Halted (λ p' u. (n : ℕ) × Refunded c p t n p' u) t

  -- What follows Stripe's answer.
  abbrev Recorded :
      RefundPaymentCommand
      → ℕ
      → World Call Payment
      → SettledResponseDto
      → World Call Payment
      → Type 0
  Recorded c n w dto v =
      (p' : Payment) × MarkedBy c n w.state p'
      × (dto.settled_amount ≡ cents n)
      × (dto.status ≡ (
          if geb_number dto.settled_amount w.state.money.amount
          then refunded
          else partially_refunded))
      × (p'.refunded_amount ≡ some dto.settled_amount)
      × (p'.status ≡ dto.status)
      × (v.trace
          ≡ metric (payments_refunded w.state.money.currency)
            ∷ save_payment (to_persistence p')
            ∷ w.trace)

  record_refund_lem :
      (c : RefundPaymentCommand) (n : ℕ) (w : World Call Payment)
      → w.state.status ≡ captured
      → Ends
          (Recorded c n w)
          (λ e v. Broke (MarkedBy c n w.state) w.trace e v.trace)
          (record_refund env c n w)
  unfolding record_refund
  record_refund_lem c n w h =
      let m = payments_refunded w.state.money.currency in
      let (p', e, status, held) =
        mark_refunded_lem (env.now w.trace) (cents n) c.reason c.correlation_id w.state h in
      let u : World Call Payment = record { state = p'; trace = w.trace } in
      let begun =
        update-then (mark_refunded (env.now w.trace) (cents n) c.reason c.correlation_id)
          (tell env m (settled env (cents n))) w p' e in
      elim (tell_lem env m (settled env (cents n)) u) [
        | inl told ↦ rw (begun ∙ told) (p', (env.now w.trace, e), refl, status, held, refl, refl)
        | inr (message, unsaved) ↦
            rw (begun ∙ unsaved) (message, p', refl, (env.now w.trace, e), refl)
      ]

  refund_captured-Ends :
      (c : RefundPaymentCommand) (w : World Call Payment)
      → w.state.status ≡ captured
      → Ends
          (λ dto v. ShowsRefund c w.state w.trace dto v.trace)
          (λ e v. HaltedRefund c w.state w.trace e v.trace)
          (refund_captured env c w)
  unfolding refund_captured
  refund_captured-Ends c w h =
      Ends-bind (λ n v. Tried 4 w v × Succeeded c w.state n v) Shows Fails
        (create_refund env w.state.stripe_payment_intent_id c.amount c.reason) (record_refund env c)
        w
        (Ends-mono _ (λ n v. Tried 4 w v × Succeeded c w.state n v) _ Fails
          (create_refund env w.state.stripe_payment_intent_id c.amount c.reason w) (λ a v t. t)
          (λ e v (x, t). inl (x, t.quiet, (t.tried, t.bounded))) (create_refund-Tried c w.state w))
        λ n u (t, g).
          let called =
            Tried-Called env "createRefund" (refund_of c w.state) env.refund_reply n w u t g in
          Ends-mono (Recorded c n u) Shows (λ e v. Broke (MarkedBy c n u.state) u.trace e v.trace)
            Fails (record_refund env c n u)
            (λ dto v (p', marked, amount, status, held, shown, tr). (
              p',
              u.trace,
              n,
              (called, same n u p' t marked),
              amount,
              status
                  ∙ ap
                      (λ x.
                        if geb_number dto.settled_amount x.money.amount
                        then refunded
                        else partially_refunded)
                      t.state,
              held,
              shown,
              tr
                  ∙ ap
                      (λ p.
                        metric (payments_refunded p.money.currency)
                        ∷ save_payment (to_persistence p')
                        ∷ u.trace)
                      t.state,
              saved_only p' w.trace u.trace v.trace t.quiet (ap effects tr),
            ))
            (λ e v (message, p', x, marked, tr). inr (
              message,
              p',
              u.trace,
              x,
              (n, (called, same n u p' t marked)),
              tr,
              saved_only p' w.trace u.trace v.trace t.quiet (ap effects tr),
            ))
            (record_refund_lem c n u (ap (λ x. x.status) t.state ∙ h))
    where
      Shows : SettledResponseDto → World Call Payment → Type 0
      Shows dto v = ShowsRefund c w.state w.trace dto v.trace

      Fails : Error → World Call Payment → Type 0
      Fails e v = HaltedRefund c w.state w.trace e v.trace

      same :
          (n : ℕ) (u : World Call Payment) (p' : Payment)
          → Tried 4 w u
          → MarkedBy c n u.state p'
          → MarkedBy c n w.state p'
      same n u p' t (at, e) =
          (at, ap (mark_refunded at (cents n) c.reason c.correlation_id) (sym t.state) ∙ e)

  abbrev pub ReadAndShown :
      RefundPaymentCommand
      → World Call (Unit {0})
      → SettledResponseDto
      → World Call (Unit {0})
      → Type 0
  ReadAndShown c w dto v =
      (p : Payment) × Owned env c.payment_id c.caller_traveler_id w.trace p
      × (p.status ≡ captured)
      × ShowsRefund c p w.trace dto v.trace

  abbrev pub HaltedAfter :
      RefundPaymentCommand → World Call (Unit {0}) → Error → World Call (Unit {0}) → Type 0
  HaltedAfter c w e v = (v.trace ≡ w.trace) ⊎ ((p : Payment) × HaltedRefund c p w.trace e v.trace)

  refund_payment_runs :
      (c : RefundPaymentCommand) (w : World Call (Unit {0})) (p : Payment)
      → own_payment env c.payment_id c.caller_traveler_id w ≡ (ok p, w)
      → is_captured p.status ≡ true
      → refund_payment env c w ≡ on_payment p (refund_captured env c) w
  unfolding refund_payment
  refund_payment_runs c w p run h = ground arith

  refund_payment_refuses :
      (c : RefundPaymentCommand) (w : World Call (Unit {0})) (p : Payment)
      → own_payment env c.payment_id c.caller_traveler_id w ≡ (ok p, w)
      → is_captured p.status ≡ false
      → refund_payment env c w ≡ (
        err (
            domain
              ("Cannot refund payment in status " <> status_name p.status)
              "INVALID_STATE_TRANSITION"
              409),
        w,
      )
  unfolding refund_payment
  refund_payment_refuses c w p run h = ground arith

  refund_payment_stops :
      (c : RefundPaymentCommand) (w : World Call (Unit {0})) (e : Error)
      → own_payment env c.payment_id c.caller_traveler_id w ≡ (err e, w)
      → refund_payment env c w ≡ (err e, w)
  unfolding refund_payment
  refund_payment_stops c w e run = ground arith

  -- Refunding a payment, whatever the database, Stripe and the broker answer. If it returns, the
  -- payment was read for its owner and CAPTURED, Stripe was called from one to four times, last to
  -- refund the amount of the command, and answered that call, and then one save was made, the only write,
  -- of that payment as `markRefunded` leaves it with the cents that Stripe answered, which are also
  -- the amount of the answer: REFUNDED if that reaches the payment's amount, else PARTIALLY_REFUNDED.
  -- If it throws, either nothing was done at all, or Stripe was called, its client failed and nothing
  -- was written, or it answered and the one save failed. In every case nothing is published.
  pub refund_payment-Ends :
      (c : RefundPaymentCommand) (w : World Call (Unit {0}))
      → Ends (ReadAndShown c w) (HaltedAfter c w) (refund_payment env c w)
  refund_payment-Ends c w = elim (own_payment_lem env c.payment_id c.caller_traveler_id w) [
    | inl (p, run, own) ↦ elim (Bool-cases (is_captured p.status)) [
      | inl h ↦
          let status = is_captured-status p.status h in
          rw (refund_payment_runs c w p run h) (
            Ends-mono (λ dto v. ShowsRefund c p w.trace dto v.trace) (ReadAndShown c w)
              (λ e v. HaltedRefund c p w.trace e v.trace) (HaltedAfter c w)
              (on_payment p (refund_captured env c) w) (λ dto v s. (p, own, status, s))
              (λ e v x. inr (p, x))
              (on_payment_lem (ShowsRefund c p w.trace) (HaltedRefund c p w.trace) p
                (refund_captured env c) w
                (refund_captured-Ends c (record { state = p; trace = w.trace }) status)))
      | inr h ↦ rw (refund_payment_refuses c w p run h) (inl refl)
    ]
    | inr (e, run) ↦ rw (refund_payment_stops c w e run) (inl refl)
  ]
