-- ===== src/Payment/Outcomes.antt =====
-- What the use cases on a payment of payment-service/src/application/use-cases leave behind.
pub mod Capture
pub mod Refund
pub mod Decline
pub mod Authorize
use training_travel_booking.Shared.{
  suc, ◌+◌, ◌≤◌, ◌<>◌, ℕ, String, Option, none, some, Bool, true, false, not, List, [], ◌∷◌, ◌≡◌,
  ◌≢◌, refl, sym, ap, ◌∙◌, ◌⊎◌, inl, inr, arith, Number, cents, Error, domain, http, declined,
  processing, failure, conflict, not_found, Result, ok, err, Bool-cases, Option-cases, Result-cases,
  str_eq, eq_iff, or_default,
}
use training_travel_booking.Shared.Effect.{
  World, Method, Reply, Reply-cases, answer, fault, Ends, Ends-bind, Ends-mono, update-then, update,
  gets, note, ◌>>=◌, ◌>>◌,
}
use training_travel_booking.Payment.Aggregate.{
  PaymentStatus, status_name, is_authorized, is_captured, is_pending, pending, authorized, captured,
  failed, Payment, clear_events, authorize, mark_captured, mark_refunded, mark_failed,
  PaymentMethod,
}
use training_travel_booking.Payment.Storage.{StoredPayment, to_persistence, to_domain}
use training_travel_booking.Payment.Calls.{
  Call, Env, Metric, save_payment, metric, stripe, call_succeeded, StripeRequest, Attempt,
  fulfilled, fire,
}
use training_travel_booking.Payment.Stripe.{
  capture_payment_intent, create_refund, create_payment_intent,
}
use training_travel_booking.Payment.Effects.{effects, fires, waited}
use training_travel_booking.Payment.Retry.{Tried, Gave, IsStripeError, with_retry-Ends}
use training_travel_booking.Payment.Commands.{
  SettledResponseDto, CapturePaymentCommand, RefundPaymentCommand,
}
use training_travel_booking.Payment.UseCases.{
  UseCase, OnPayment, forbidden, save, publish_all, publish_uncommitted, settled, own_payment,
  on_payment, capture_payment, refund_payment, record_capture, record_refund, record_authorization,
  capture_authorized, refund_captured,
}

module _ {A : Type 0} (env : Env) where
  -- How the use cases end: the save, the metric, the publications, the answer.
  abbrev pub tell : Metric → (Payment → A) → OnPayment A
  tell m f = do save env; note (metric m); publish_uncommitted env; gets λ w. f w.state

  -- The save went through, which cleared the events, so that none is published.
  abbrev Told : Metric → (Payment → A) → World Call Payment → Result A × World Call Payment → Type 0
  Told m f u p = p ≡ (
    ok (f (clear_events u.state)),
    record {
      state = clear_events u.state;
      trace = metric m ∷ save_payment (to_persistence u.state) ∷ u.trace;
    },
  )

  abbrev Unsaved : World Call Payment → Result A × World Call Payment → Type 0
  Unsaved u p =
      (message : String) × (p ≡ (
        err (failure message),
        record { state = u.state; trace = save_payment (to_persistence u.state) ∷ u.trace },
      ))

  pub tell_lem :
      (m : Metric) (f : Payment → A) (u : World Call Payment)
      → Told m f u (tell m f u) ⊎ Unsaved u (tell m f u)
  unfolding save publish_uncommitted publish_all
  tell_lem m f u = elim (Reply-cases (env.done (save_payment (to_persistence u.state) ∷ u.trace))) [
    | inl (x, e) ↦ inl (ground arith)
    | inr (message, e) ↦ inr (message, ground arith)
  ]

-- One save of `p'`, and nothing published.
abbrev pub SavedOnly : Payment → List Call → List Call → Type 0
SavedOnly p' t t' = effects t' ≡ save_payment (to_persistence p') ∷ effects t

-- Stripe was called from one to four times from `t` to `u`.
abbrev pub Fired : List Call → List Call → Type 0
Fired t u = (suc (fires t) ≤ fires u) × (fires u ≤ fires t + 4)

-- From `t` to `u` Stripe was called, the last time with this request, to which it answered `a`; and
-- nothing was written.
abbrev pub Called :
    {A : Type 0}
    → (operation : String) → StripeRequest
    → (reply : List Call → Attempt A) → A
    → List Call
    → List Call
    → Type 0
Called operation request reply a t u =
    Fired t u
    × (effects u ≡ effects t)
    × ((s : List Call) × (reply (fire request ∷ s) ≡ fulfilled a)
        × (u ≡ metric (stripe operation call_succeeded) ∷ fire request ∷ s))

-- A run that failed: at Stripe, and nothing was written; or at the write of `p'`, right after the calls
-- `u`.
abbrev pub Halted : (Payment → List Call → Type 0) → List Call → Error → List Call → Type 0
Halted Q t e t' =
    IsStripeError e × (effects t' ≡ effects t) × Fired t t'
    ⊎ ((message : String) × (p' : Payment) × (u : List Call) × (e ≡ failure message)
        × Q p' u
        × (t' ≡ save_payment (to_persistence p') ∷ u)
        × SavedOnly p' t t')

-- How what follows the call of Stripe fails: at the write of `p'`.
abbrev pub Broke : (Payment → Type 0) → List Call → Error → List Call → Type 0
Broke Q u e t' =
    (message : String) × (p' : Payment) × (e ≡ failure message)
    × Q p'
    × (t' ≡ save_payment (to_persistence p') ∷ u)

-- The save that a trace ends with is the only effect.
pub saved_only :
    (p' : Payment) (t u t' : List Call)
    → effects u ≡ effects t
    → effects t' ≡ save_payment (to_persistence p') ∷ effects u
    → SavedOnly p' t t'
saved_only p' t u t' quiet e = e ∙ ap (λ cs. save_payment (to_persistence p') ∷ cs) quiet

pub Tried-Called :
    {A : Type 0} (env : Env) (operation : String) (request : StripeRequest)
    (reply : List Call → Attempt A) (a : A) (w v : World Call Payment)
    → Tried 4 w v
    → Gave env operation request reply a v
    → Called operation request reply a w.trace v.trace
Tried-Called env operation request reply a w v t g = ((t.tried, t.bounded), t.quiet, g)

-- A payment that was read for its owner.
pub record Owned (env : Env) (id caller : String) (t : List Call) (p : Payment) : Type 0 where
  pub row : StoredPayment
  pub found : env.find_payment id t ≡ answer (some row)
  pub read : to_domain row ≡ ok p
  pub owner : p.traveler_id ≡ caller

pub own_payment_lem :
    (env : Env) (id caller : String) (w : World Call (Unit {0}))
    → ((p : Payment) × (own_payment env id caller w ≡ (ok p, w)) × Owned env id caller w.trace p)
      ⊎ ((e : Error) × (own_payment env id caller w ≡ (err e, w)))
unfolding own_payment
own_payment_lem env id caller w = elim (Reply-cases (env.find_payment id w.trace)) [
  | inl (none, e) ↦ inr (not_found ("Payment " <> id <> " not found."), ground arith)
  | inl (some row, e) ↦ elim (Result-cases (to_domain row)) [
    | inl (p, read) ↦ elim (Bool-cases (str_eq p.traveler_id caller)) [
      | inl mine ↦ inl (
        p,
        ground arith,
        record { row = row; found = e; read = read; owner = (eq_iff p.traveler_id caller).0 mine },
      )
      | inr theirs ↦
          inr (forbidden ("Payment " <> id <> " does not belong to the caller."), ground arith)
    ]
    | inr (x, read) ↦ inr (x, ground arith)
  ]
  | inr (m, e) ↦ inr (failure m, ground arith)
]

pub on_payment_lem :
    {A : Type 0} (Q : A → List Call → Type 0) (E : Error → List Call → Type 0) (p : Payment)
    (m : OnPayment A) (w : World Call (Unit {0}))
    → Ends (λ a v. Q a v.trace) (λ e v. E e v.trace) (m (record { state = p; trace = w.trace }))
    → Ends (λ a v. Q a v.trace) (λ e v. E e v.trace) (on_payment p m w)
on_payment_lem {A} Q E p m w h = go (m (record { state = p; trace = w.trace })) h
  where
    go :
        (r : Result A × World Call Payment)
        → Ends (λ a v. Q a v.trace) (λ e v. E e v.trace) r
        → Ends {S = Unit {0}}
            (λ a v. Q a v.trace)
            (λ e v. E e v.trace)
            (r.0, record { state = w.state; trace = r.1.trace })
    go (ok a, v) h = h
    go (err e, v) h = h
