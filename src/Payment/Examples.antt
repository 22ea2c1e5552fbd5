-- ===== src/Payment/Examples.antt =====
-- Runs of the payment service at concrete inputs.
use training_travel_booking.Shared.{
  none, some, true, false, List, [], ◌∷◌, ◌≡◌, ◌≢◌, refl, whole, ok,
}
use training_travel_booking.Shared.Text.{matches_exactly, is_three_capitals}
use training_travel_booking.Shared.Effect.{World, answer, Ends}
use training_travel_booking.Payment.Values.{new_money}
use training_travel_booking.Payment.Aggregate.{
  PaymentMethod, PaymentStatus, pending, authorized, captured, refunded, Payment,
  CreatePaymentProps, create_payment,
}
use training_travel_booking.Payment.Storage.{StoredPayment, to_persistence}
use training_travel_booking.Payment.Calls.{
  Call, Env, capture_intent, fulfilled, stripe_error, other_error,
}
use training_travel_booking.Payment.Stripe.{with_retry}
use training_travel_booking.Payment.Retry.{Tried, Gave, IsStripeError, with_retry-Ends}
use training_travel_booking.Payment.Commands.{
  AuthorizePaymentCommand, CapturePaymentCommand, RefundPaymentCommand,
}
use training_travel_booking.Payment.UseCases.{capture_payment, refund_payment}
use training_travel_booking.Payment.Outcomes.Capture.{
  ReadAndShown, HaltedAfter, capture_payment-Ends,
}
use training_travel_booking.Payment.Outcomes.Refund.{
  ReadAndShown as RefundShown, HaltedAfter as RefundHalted, refund_payment-Ends,
}
use training_travel_booking.Payment.Lifecycle.{
  PaymentOp, to_authorize, to_capture, to_refund, to_fail, apply, keep, run, event_count,
  IsConsistent, run-create_payment-IsConsistent, PaymentMoves, apply-PaymentMoves, apply-is_final,
}
use training_travel_booking.Payment.RoundTrip.{Rounded, new_money-Rounded}

abbrev fare : CreatePaymentProps
fare = record {
  traveler_id = "t1";
  booking_id = "b1";
  payment_method_id = "m1";
  amount = whole 350;
  currency = "USD";
  idempotency_key = "k1";
  description = none;
}

abbrev new_payment : Payment
new_payment = record {
  id = "p1";
  traveler_id = "t1";
  booking_id = "b1";
  payment_method_id = "m1";
  money = record { amount = whole 350; currency = "USD" };
  status = pending;
  stripe_payment_intent_id = none;
  idempotency_key = "k1";
  description = none;
  failure_reason = none;
  captured_amount = none;
  refunded_amount = none;
  created_at = 5;
  updated_at = 5;
  uncommitted_events = [];
  version = 0;
}

fare_created : create_payment "p1" 5 fare ≡ ok new_payment
unfolding create_payment new_money is_three_capitals matches_exactly
fare_created = refl

abbrev row_at : PaymentStatus → StoredPayment
row_at s = record {
  row = to_persistence (record new_payment { status = s; stripe_payment_intent_id = some "pi_1" });
  created_at = 5;
  updated_at = 6;
}

-- Stripe fails once and then answers; the broker is down.
abbrev env_at : PaymentStatus → Env
env_at s = record {
  now = λ t. 7;
  uuid = λ t. "p1";
  random = λ t. 12345;
  opened = λ t. false;
  intent_reply = λ t. fulfilled (record { id = "pi_1"; amount_received = some 35000 });
  refund_reply = λ t. fulfilled 35000;
  detach_reply = λ t. other_error "down";
  done = λ t. answer tt;
  find_payment = λ id t. answer (some (row_at s));
  find_by_key = λ id t. answer none;
  find_by_intent = λ id t. answer none;
  find_method = λ id t. answer none;
  find_method_by_stripe_id = λ id t. answer none;
}

abbrev at_rest : World Call (Unit {0})
at_rest = record { state = tt; trace = [] }

abbrev capture_command : CapturePaymentCommand
capture_command = record { payment_id = "p1"; caller_traveler_id = "t1"; correlation_id = none }

abbrev refund_command : RefundPaymentCommand
refund_command = record {
  payment_id = "p1";
  caller_traveler_id = "t1";
  amount = none;
  reason = "requested_by_customer";
  correlation_id = none;
}

capture_payment-Ends_example :
    Ends
      (ReadAndShown (env_at authorized) capture_command at_rest)
      (HaltedAfter (env_at authorized) capture_command at_rest)
      (capture_payment (env_at authorized) capture_command at_rest)
capture_payment-Ends_example = capture_payment-Ends (env_at authorized) capture_command at_rest

refund_payment-Ends_example :
    Ends
      (RefundShown (env_at captured) refund_command at_rest)
      (RefundHalted (env_at captured) refund_command at_rest)
      (refund_payment (env_at captured) refund_command at_rest)
refund_payment-Ends_example = refund_payment-Ends (env_at captured) refund_command at_rest

with_retry-Ends_example :
    Ends
      (λ a v.
        Tried 4 at_rest v
        × Gave
            (env_at authorized)
            "detachPaymentMethod"
            (capture_intent none)
            (env_at authorized).detach_reply
            a
            v)
      (λ e v. IsStripeError e × Tried 4 at_rest v)
      (with_retry
        (env_at authorized)
        "detachPaymentMethod"
        (capture_intent none)
        (env_at authorized).detach_reply
        at_rest)
with_retry-Ends_example =
    with_retry-Ends (env_at authorized) "detachPaymentMethod" (capture_intent none)
      (env_at authorized).detach_reply at_rest

abbrev story : List PaymentOp
story =
    to_authorize 6 "pi_1" none
    ∷ to_capture 7 (whole 350) none
    ∷ to_refund 8 (whole 100) "duplicate" none
    ∷ []

run-create_payment-IsConsistent_example :
    IsConsistent (run story new_payment)
    × ((run story new_payment).version ≡ event_count (run story new_payment).uncommitted_events)
run-create_payment-IsConsistent_example =
    run-create_payment-IsConsistent "p1" 5 fare new_payment story fare_created

apply-PaymentMoves_example :
    PaymentMoves new_payment.status
      (keep new_payment (apply (to_fail 6 "late" none) new_payment)).status
apply-PaymentMoves_example = apply-PaymentMoves (to_fail 6 "late" none) new_payment

abbrev refunded_payment : Payment
refunded_payment = record new_payment { status = refunded }

apply-is_final_example : apply (to_capture 9 (whole 1) none) refunded_payment ≢ ok new_payment
apply-is_final_example =
    apply-is_final (to_capture 9 (whole 1) none) refunded_payment refl new_payment

fare_money : new_money (whole 350) "USD" ≡ ok new_payment.money
unfolding new_money is_three_capitals matches_exactly
fare_money = refl

new_money-Rounded_example : Rounded (whole 350) "USD" new_payment.money
new_money-Rounded_example = new_money-Rounded (whole 350) "USD" new_payment.money fare_money

abbrev authorize_command : AuthorizePaymentCommand
authorize_command = record {
  traveler_id = "t1";
  booking_id = "b1";
  payment_method_id = "m1";
  amount = whole 350;
  currency = "USD";
  idempotency_key = "k1";
  description = none;
  correlation_id = some "c1";
}

abbrev card : PaymentMethod
card = record {
  id = "m1";
  traveler_id = "t1";
  stripe_payment_method_id = "pm_1";
  card_brand = "visa";
  last4 = "4242";
  expiry_month = whole 12;
  expiry_year = whole 2030;
  is_active = true;
  created_at = 1;
  updated_at = 1;
}

-- A card that Stripe declines.
abbrev declining : Env
declining = record (env_at authorized) {
  intent_reply = λ t. stripe_error (some 402) (some "card_declined") "Declined" "Error: Declined";
}
