-- ===== src/Expense/Calls.antt =====
-- What the expense service calls: its database, in transactions, the broker, the metrics. What they
-- answer is that of an environment, each answer a function of the calls made so far, the call that
-- is answered included. A row is told by the object that it stores.
use training_travel_booking.Shared.{ℕ, String, Option, List, Number}
use training_travel_booking.Shared.Effect.{Reply}
use training_travel_booking.Expense.Receipts.{Receipt, Expense, ExpenseStatus}

-- The events of the topic expense-events, each with its aggregate and its correlation id.
pub data ExpenseEvent : Type 0 where
  receipt_generated :
      (aggregate_id correlation_id booking_id traveler_id receipt_number : String)
      → (amount : Number) → (currency : String) → ExpenseEvent
  expense_recorded :
      (aggregate_id correlation_id booking_id traveler_id : String)
      → (amount : Number) → (currency : String) → (status : ExpenseStatus) → ExpenseEvent

pub data Metric : Type 0 where
  events_processed : (event_type result : String) → Metric
  receipts_generated receipts_voided messages_produced : Metric

pub data Call : Type 0 where
  begin commit rollback : Call
  save_receipt : Receipt → Call
  save_expense : Expense → Call
  save_processed : (event_id event_type : String) → Call
  send : ExpenseEvent → Call
  metric : Metric → Call

pub record Env : Type 0 where
  pub now : List Call → ℕ
  -- the year of the local time zone
  pub full_year : List Call → ℕ
  -- a number in decimal
  pub digits : ℕ → String
  -- the time of a date's text, none when it has none
  pub parse_date : String → Option ℕ
  pub receipt_uuid : List Call → String
  pub expense_uuid : List Call → String
  pub count_receipts : List Call → Reply ℕ
  pub count_processed : (event_id : String) → List Call → Reply ℕ
  pub find_receipt : (booking_id : String) → List Call → Reply (Option Receipt)
  pub find_expense : (booking_id : String) → List Call → Reply (Option Expense)
  -- the calls that return nothing
  pub done : List Call → Reply (Unit {0})
