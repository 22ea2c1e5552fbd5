-- ===== src/Payment/Commands.antt =====
-- The commands and the answers of payment-service/src/application/use-cases and application/dto.
use training_travel_booking.Shared.{ℕ, String, Option, Bool, Number, or_default}
use training_travel_booking.Payment.Aggregate.{
  PaymentStatus, Payment, CreatePaymentProps, PaymentMethod,
}

pub record AuthorizePaymentCommand : Type 0 where
  pub traveler_id : String
  pub booking_id : String
  pub payment_method_id : String
  pub amount : Number
  pub currency : String
  pub idempotency_key : String
  pub description : Option String
  pub correlation_id : Option String

pub record AuthorizePaymentResponseDto : Type 0 where
  pub payment_id : String
  pub status : PaymentStatus
  pub amount : Number
  pub currency : String
  pub booking_id : String
  pub stripe_payment_intent_id : String
  pub created_at : ℕ

pub record CapturePaymentCommand : Type 0 where
  pub payment_id : String
  pub caller_traveler_id : String
  pub correlation_id : Option String

pub record RefundPaymentCommand : Type 0 where
  pub payment_id : String
  pub caller_traveler_id : String
  pub amount : Option Number
  pub reason : String
  pub correlation_id : Option String

-- The answer to a capture, with the captured amount, and to a refund, with the refunded amount.
pub record SettledResponseDto : Type 0 where
  pub payment_id : String
  pub status : PaymentStatus
  pub settled_amount : Number
  pub currency : String

pub record PaymentMethodResponseDto : Type 0 where
  pub payment_method_id : String
  pub traveler_id : String
  pub card_brand : String
  pub last4 : String
  pub expiry_month : Number
  pub expiry_year : Number
  pub is_active : Bool
  pub created_at : ℕ

abbrev pub to_method_response : PaymentMethod → PaymentMethodResponseDto
to_method_response m = record {
  payment_method_id = m.id;
  traveler_id = m.traveler_id;
  card_brand = m.card_brand;
  last4 = m.last4;
  expiry_month = m.expiry_month;
  expiry_year = m.expiry_year;
  is_active = m.is_active;
  created_at = m.created_at;
}

pub record GetPaymentResponseDto : Type 0 where
  pub payment_id : String
  pub status : PaymentStatus
  pub amount : Number
  pub currency : String
  pub booking_id : String
  pub traveler_id : String
  pub payment_method_id : String
  pub failure_reason : Option String
  pub captured_amount : Option Number
  pub refunded_amount : Option Number
  pub created_at : ℕ
  pub updated_at : ℕ

abbrev pub to_response : Payment → AuthorizePaymentResponseDto
to_response p = record {
  payment_id = p.id;
  status = p.status;
  amount = p.money.amount;
  currency = p.money.currency;
  booking_id = p.booking_id;
  stripe_payment_intent_id = or_default p.stripe_payment_intent_id "";
  created_at = p.created_at;
}

abbrev pub create_props : AuthorizePaymentCommand → CreatePaymentProps
create_props c = record {
  traveler_id = c.traveler_id;
  booking_id = c.booking_id;
  payment_method_id = c.payment_method_id;
  amount = c.amount;
  currency = c.currency;
  idempotency_key = c.idempotency_key;
  description = c.description;
}
