-- ===== src/Payment/Aggregate.antt =====
-- payment-service/src/domain/aggregates, with the events of domain/events and the parts of
-- packages/shared/src/base-classes/aggregate-root.base.ts that they use. A method that mutates the
-- object returns the new one, or the exception; `new Date()` is an argument, `now`. No caller gives
-- a `causationId`.
use training_travel_booking.Shared.{
  ℕ, ◌+◌, String, Option, none, some, Bool, true, false, not, ◌&&◌, List, [], ◌∷◌, ◌++◌, Number,
  geb_number, Result, ok, err, domain, ◌<>◌, if◌then◌else◌,
}
use training_travel_booking.Shared.Checks.{◌>>=◌}
use training_travel_booking.Payment.Values.{Money, new_money}

pub data PaymentStatus : Type 0 where
  pending authorized captured failed refunded partially_refunded cancelled : PaymentStatus

-- The texts of the enum.
abbrev pub status_name : PaymentStatus → String
status_name pending = "PENDING"
status_name authorized = "AUTHORIZED"
status_name captured = "CAPTURED"
status_name failed = "FAILED"
status_name refunded = "REFUNDED"
status_name partially_refunded = "PARTIALLY_REFUNDED"
status_name cancelled = "CANCELLED"

abbrev pub is_pending : PaymentStatus → Bool
is_pending pending = true
is_pending _ = false

abbrev pub is_authorized : PaymentStatus → Bool
is_authorized authorized = true
is_authorized _ = false

abbrev pub is_captured : PaymentStatus → Bool
is_captured captured = true
is_captured _ = false

abbrev pub is_failed : PaymentStatus → Bool
is_failed failed = true
is_failed _ = false

abbrev pub is_cancelled : PaymentStatus → Bool
is_cancelled cancelled = true
is_cancelled _ = false

-- The events of the topic payment-events, without the id and time of their envelopes. Each has
-- the correlation id; the payment, the booking and the traveler; and then what is its own.
pub data PaymentEvent : Type 0 where
  -- amount, currency, intent
  payment_authorized :
      Option String
      → (payment_id booking_id traveler_id : String) → Number
      → String
      → String
      → PaymentEvent
  -- captured amount, currency
  payment_captured :
      Option String → (payment_id booking_id traveler_id : String) → Number → String → PaymentEvent
  -- refunded amount, currency, reason
  payment_refunded :
      Option String
      → (payment_id booking_id traveler_id : String) → Number
      → String
      → String
      → PaymentEvent
  -- reason, amount, currency
  payment_failed :
      Option String
      → (payment_id booking_id traveler_id : String) → String
      → Number
      → String
      → PaymentEvent

-- `PaymentProps`, with the events and the version that AggregateRoot keeps.
pub record Payment : Type 0 where
  pub id : String
  pub traveler_id : String
  pub booking_id : String
  pub payment_method_id : String
  pub money : Money
  pub status : PaymentStatus
  pub stripe_payment_intent_id : Option String
  pub idempotency_key : String
  pub description : Option String
  pub failure_reason : Option String
  pub captured_amount : Option Number
  pub refunded_amount : Option Number
  pub created_at : ℕ
  pub updated_at : ℕ
  pub uncommitted_events : List PaymentEvent
  pub version : ℕ

pub record CreatePaymentProps : Type 0 where
  pub traveler_id : String
  pub booking_id : String
  pub payment_method_id : String
  pub amount : Number
  pub currency : String
  pub idempotency_key : String
  pub description : Option String

-- `Payment.create`, with the generated UUID and the time first.
unfoldable pub create_payment : String → ℕ → CreatePaymentProps → Result Payment
create_payment id now props = do
  money ← new_money props.amount props.currency
  ok (record {
    id = id;
    traveler_id = props.traveler_id;
    booking_id = props.booking_id;
    payment_method_id = props.payment_method_id;
    money = money;
    status = pending;
    stripe_payment_intent_id = none;
    idempotency_key = props.idempotency_key;
    description = props.description;
    failure_reason = none;
    captured_amount = none;
    refunded_amount = none;
    created_at = now;
    updated_at = now;
    uncommitted_events = [];
    version = 0;
  })

-- `apply` of AggregateRoot; no aggregate here has a handler for its own events.
abbrev pub emit : PaymentEvent → Payment → Payment
emit e p = record p { uncommitted_events = p.uncommitted_events ++ e ∷ []; version = p.version + 1 }

abbrev pub clear_events : Payment → Payment
clear_events p = record p { uncommitted_events = [] }

abbrev pub invalid_transition : {A : Type 0} → String → PaymentStatus → Result A
invalid_transition what s = err (domain (what <> status_name s) "INVALID_STATE_TRANSITION" 409)

unfoldable pub authorize : ℕ → String → Option String → Payment → Result Payment
authorize now stripe_payment_intent_id correlation_id p =
    if not (is_pending p.status)
    then invalid_transition "Cannot authorize payment in status " p.status
    else ok (
        emit
          (payment_authorized correlation_id p.id p.booking_id p.traveler_id p.money.amount
            p.money.currency stripe_payment_intent_id)
          (record p {
            status = authorized;
            stripe_payment_intent_id = some stripe_payment_intent_id;
            updated_at = now;
          }))

unfoldable pub mark_captured : ℕ → Number → Option String → Payment → Result Payment
mark_captured now captured_amount correlation_id p =
    if not (is_authorized p.status)
    then invalid_transition "Cannot capture payment in status " p.status
    else ok (
        emit
          (payment_captured correlation_id p.id p.booking_id p.traveler_id captured_amount
            p.money.currency)
          (record p {
            status = captured;
            captured_amount = some captured_amount;
            updated_at = now;
          }))

unfoldable pub mark_refunded : ℕ → Number → String → Option String → Payment → Result Payment
mark_refunded now refunded_amount reason correlation_id p =
    if not (is_captured p.status)
    then invalid_transition "Cannot refund payment in status " p.status
    else ok (
        emit
          (payment_refunded correlation_id p.id p.booking_id p.traveler_id refunded_amount
            p.money.currency reason)
          (record p {
            refunded_amount = some refunded_amount;
            status =
                if geb_number refunded_amount p.money.amount then refunded else partially_refunded;
            updated_at = now;
          }))

unfoldable pub mark_failed : ℕ → String → Option String → Payment → Result Payment
mark_failed now failure_reason correlation_id p =
    if not (is_pending p.status) && not (is_authorized p.status)
    then invalid_transition "Cannot mark payment as failed in status " p.status
    else ok (
        emit
          (payment_failed correlation_id p.id p.booking_id p.traveler_id failure_reason
            p.money.amount p.money.currency)
          (record p { status = failed; failure_reason = some failure_reason; updated_at = now }))

unfoldable pub mark_cancelled : ℕ → Payment → Result Payment
mark_cancelled now p =
    if not (is_authorized p.status)
    then invalid_transition "Cannot cancel payment in status " p.status
    else ok (record p { status = cancelled; updated_at = now })

pub record PaymentMethod : Type 0 where
  pub id : String
  pub traveler_id : String
  pub stripe_payment_method_id : String
  pub card_brand : String
  pub last4 : String
  pub expiry_month : Number
  pub expiry_year : Number
  pub is_active : Bool
  pub created_at : ℕ
  pub updated_at : ℕ

pub record CreatePaymentMethodProps : Type 0 where
  pub traveler_id : String
  pub stripe_payment_method_id : String
  pub card_brand : String
  pub last4 : String
  pub expiry_month : Number
  pub expiry_year : Number

-- `PaymentMethod.create`, with the generated UUID and the time first.
unfoldable pub create_method : String → ℕ → CreatePaymentMethodProps → PaymentMethod
create_method id now props = record {
  id = id;
  traveler_id = props.traveler_id;
  stripe_payment_method_id = props.stripe_payment_method_id;
  card_brand = props.card_brand;
  last4 = props.last4;
  expiry_month = props.expiry_month;
  expiry_year = props.expiry_year;
  is_active = true;
  created_at = now;
  updated_at = now;
}

unfoldable pub deactivate : ℕ → PaymentMethod → Result PaymentMethod
deactivate now m =
    if not m.is_active
    then err (domain "Payment method is already deactivated." "PAYMENT_METHOD_ALREADY_INACTIVE" 409)
    else ok (record m { is_active = false; updated_at = now })
