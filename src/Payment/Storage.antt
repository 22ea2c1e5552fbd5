-- ===== src/Payment/Storage.antt =====
-- payment-service/src/infrastructure/persistence: how a payment is stored. The columns that hold
-- an amount as a decimal text hold the number here.
use training_travel_booking.Shared.{ℕ, String, Option, Number, Result, ok, []}
use training_travel_booking.Shared.Checks.{◌>>=◌}
use training_travel_booking.Payment.Values.{new_money}
use training_travel_booking.Payment.Aggregate.{Payment, PaymentStatus}

-- The row that `toPersistence` hands over. The database keeps the two times itself.
pub record PaymentEntity : Type 0 where
  pub id : String
  pub traveler_id : String
  pub booking_id : String
  pub payment_method_id : String
  pub amount : Number
  pub currency : String
  pub status : PaymentStatus
  pub stripe_payment_intent_id : Option String
  pub idempotency_key : String
  pub description : Option String
  pub failure_reason : Option String
  pub captured_amount : Option Number
  pub refunded_amount : Option Number

-- A row as it is read: with the times of the database.
pub record StoredPayment : Type 0 where
  pub row : PaymentEntity
  pub created_at : ℕ
  pub updated_at : ℕ

unfoldable pub to_persistence : Payment → PaymentEntity
to_persistence p = record {
  id = p.id;
  traveler_id = p.traveler_id;
  booking_id = p.booking_id;
  payment_method_id = p.payment_method_id;
  amount = p.money.amount;
  currency = p.money.currency;
  status = p.status;
  stripe_payment_intent_id = p.stripe_payment_intent_id;
  idempotency_key = p.idempotency_key;
  description = p.description;
  failure_reason = p.failure_reason;
  captured_amount = p.captured_amount;
  refunded_amount = p.refunded_amount;
}

unfoldable pub to_domain : StoredPayment → Result Payment
to_domain e = do
  money ← new_money e.row.amount e.row.currency
  ok (record {
    id = e.row.id;
    traveler_id = e.row.traveler_id;
    booking_id = e.row.booking_id;
    payment_method_id = e.row.payment_method_id;
    money = money;
    status = e.row.status;
    stripe_payment_intent_id = e.row.stripe_payment_intent_id;
    idempotency_key = e.row.idempotency_key;
    description = e.row.description;
    failure_reason = e.row.failure_reason;
    captured_amount = e.row.captured_amount;
    refunded_amount = e.row.refunded_amount;
    created_at = e.created_at;
    updated_at = e.updated_at;
    uncommitted_events = [];
    version = 0;
  })
