-- ===== src/Expense/Receipts.antt =====
-- expense-service/src/domain: receipts and expenses; and their rows, of
-- infrastructure/entities and infrastructure/repositories. A date is none when it is an Invalid Date.
-- Columns that the database fills in are left out.
use training_travel_booking.Shared.{
  ℕ, String, Option, none, some, conflict, Result, ok, err, or_default, Number,
}

pub data ReceiptStatus : Type 0 where
  active voided : ReceiptStatus

pub data ExpenseStatus : Type 0 where
  active cancelled : ExpenseStatus

pub data ExpenseCategory : Type 0 where
  flight hotel car_rental meal other : ExpenseCategory

pub record Receipt : Type 0 where
  pub id : String
  pub receipt_number : String
  pub booking_id : String
  pub traveler_id : String
  pub traveler_name : String
  pub traveler_email : String
  pub amount : Number
  pub currency : String
  pub origin : String
  pub destination : String
  pub departure_date : Option ℕ
  pub status : ReceiptStatus
  pub generated_at : ℕ
  pub voided_at : Option ℕ

pub record CreateReceiptProps : Type 0 where
  pub receipt_number : String
  pub booking_id : String
  pub traveler_id : String
  pub traveler_name : String
  pub traveler_email : String
  pub amount : Number
  pub currency : Option String
  pub origin : String
  pub destination : String
  pub departure_date : Option ℕ

unfoldable pub create_receipt : (id : String) (now : ℕ) → CreateReceiptProps → Receipt
create_receipt id now props = record {
  id = id;
  receipt_number = props.receipt_number;
  booking_id = props.booking_id;
  traveler_id = props.traveler_id;
  traveler_name = props.traveler_name;
  traveler_email = props.traveler_email;
  amount = props.amount;
  currency = or_default props.currency "USD";
  origin = props.origin;
  destination = props.destination;
  departure_date = props.departure_date;
  status = ReceiptStatus.active;
  generated_at = now;
  voided_at = none;
}

abbrev pub voided_receipt : ℕ → Receipt → Receipt
voided_receipt at r = record {
  id = r.id;
  receipt_number = r.receipt_number;
  booking_id = r.booking_id;
  traveler_id = r.traveler_id;
  traveler_name = r.traveler_name;
  traveler_email = r.traveler_email;
  amount = r.amount;
  currency = r.currency;
  origin = r.origin;
  destination = r.destination;
  departure_date = r.departure_date;
  status = ReceiptStatus.voided;
  generated_at = r.generated_at;
  voided_at = some at;
}

unfoldable pub void_receipt : ℕ → Receipt → Result Receipt
void_receipt at r = elim r.status [
  | ReceiptStatus.voided ↦ err (conflict "Receipt is already voided" "RECEIPT_ALREADY_VOIDED")
  | ReceiptStatus.active ↦ ok (voided_receipt at r)
]

pub record Expense : Type 0 where
  pub id : String
  pub booking_id : String
  pub receipt_id : String
  pub traveler_id : String
  pub traveler_name : String
  pub amount : Number
  pub currency : String
  pub category : ExpenseCategory
  pub description : String
  pub expense_date : Option ℕ
  pub status : ExpenseStatus
  pub cancelled_at : Option ℕ

pub record CreateExpenseProps : Type 0 where
  pub booking_id : String
  pub receipt_id : String
  pub traveler_id : String
  pub traveler_name : String
  pub amount : Number
  pub currency : Option String
  pub category : Option ExpenseCategory
  pub description : Option String
  pub expense_date : Option ℕ

unfoldable pub create_expense : (id : String) → CreateExpenseProps → Expense
create_expense id props = record {
  id = id;
  booking_id = props.booking_id;
  receipt_id = props.receipt_id;
  traveler_id = props.traveler_id;
  traveler_name = props.traveler_name;
  amount = props.amount;
  currency = or_default props.currency "USD";
  category = or_default props.category ExpenseCategory.flight;
  description = or_default props.description "Travel expense";
  expense_date = props.expense_date;
  status = ExpenseStatus.active;
  cancelled_at = none;
}

abbrev pub cancelled_expense : ℕ → Expense → Expense
cancelled_expense at e = record {
  id = e.id;
  booking_id = e.booking_id;
  receipt_id = e.receipt_id;
  traveler_id = e.traveler_id;
  traveler_name = e.traveler_name;
  amount = e.amount;
  currency = e.currency;
  category = e.category;
  description = e.description;
  expense_date = e.expense_date;
  status = ExpenseStatus.cancelled;
  cancelled_at = some at;
}

unfoldable pub cancel_expense : ℕ → Expense → Result Expense
cancel_expense at e = elim e.status [
  | ExpenseStatus.cancelled ↦
      err (conflict "Expense is already cancelled" "EXPENSE_ALREADY_CANCELLED")
  | ExpenseStatus.active ↦ ok (cancelled_expense at e)
]
