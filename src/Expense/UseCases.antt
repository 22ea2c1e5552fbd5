-- ===== src/Expense/UseCases.antt =====
-- expense-service/src/application/use-cases: the receipt and the expense of a booking made and
-- voided, inside a transaction of the caller. Logging is left out.
use training_travel_booking.Shared.{
  ℕ, suc, ◌+◌, ◌-◌, zero, String, Option, none, some, ◌<>◌, or_default, Number,
}
use training_travel_booking.Shared.Effect.{Method, pure, gets, ask, read, lift, ◌>>=◌, ◌>>◌}
use training_travel_booking.Expense.Receipts.{
  Receipt, Expense, create_receipt, create_expense, void_receipt, cancel_expense,
}
use training_travel_booking.Expense.Calls.{Call, save_receipt, save_expense, Env}

abbrev pub Job : Type 0 → Type 0
Job = Method Call (Unit {0})

pub record BookingConfirmedData : Type 0 where
  pub booking_id : String
  pub traveler_id : String
  pub traveler_name : String
  pub traveler_email : String
  pub total_amount : Number
  pub currency : Option String
  pub origin : String
  pub destination : String
  pub departure_date : String

abbrev pub text_length : String → ℕ
text_length String.[] = 0
text_length (String.◌∷◌ c s) = suc (text_length s)

abbrev pub zeros : ℕ → String
zeros zero = ""
zeros (suc n) = "0" <> zeros n

-- `s.padStart(n, '0')`
abbrev pub pad_start : ℕ → String → String
pad_start n s = zeros (n - text_length s) <> s

module _ (env : Env) where
  -- The number of the next receipt, after `count` others.
  abbrev pub receipt_number : (year count : ℕ) → String
  receipt_number year count =
      "RCP-" <> env.digits year <> "-" <> pad_start 6 (env.digits (count + 1))

  -- The receipt of a confirmed booking.
  abbrev pub receipt_of : BookingConfirmedData → (id : String) (now year count : ℕ) → Receipt
  unfolding create_receipt
  receipt_of d id now year count = create_receipt id now record {
    receipt_number = receipt_number year count;
    booking_id = d.booking_id;
    traveler_id = d.traveler_id;
    traveler_name = d.traveler_name;
    traveler_email = d.traveler_email;
    amount = d.total_amount;
    currency = some (or_default d.currency "USD");
    origin = d.origin;
    destination = d.destination;
    departure_date = env.parse_date d.departure_date;
  }

  -- Its expense.
  abbrev pub expense_of : BookingConfirmedData → (id receipt_id : String) → Expense
  unfolding create_expense
  expense_of d id receipt_id = create_expense id record {
    booking_id = d.booking_id;
    receipt_id = receipt_id;
    traveler_id = d.traveler_id;
    traveler_name = d.traveler_name;
    amount = d.total_amount;
    currency = some (or_default d.currency "USD");
    category = none;
    description = none;
    expense_date = env.parse_date d.departure_date;
  }

  -- Both are saved.
  unfoldable pub save_pair : Receipt → Expense → Job (Receipt × Expense)
  save_pair r e = do
    ask {A = Unit {0}} (save_receipt r) env.done
    ask {A = Unit {0}} (save_expense e) env.done
    pure (r, e)

  unfoldable pub generate_receipt : BookingConfirmedData → Job (Receipt × Expense)
  unfolding save_pair
  generate_receipt d = do
    year ← gets λ w. env.full_year w.trace
    count ← read env.count_receipts
    id ← gets λ w. env.receipt_uuid w.trace
    at ← gets λ w. env.now w.trace
    expense_id ← gets λ w. env.expense_uuid w.trace
    save_pair (receipt_of d id at year count) (expense_of d expense_id id)

  -- The expense of a booking whose receipt was voided.
  unfoldable pub cancel_found : Option Expense → Job (Unit {0})
  cancel_found none = pure tt
  cancel_found (some expense) = do
    at ← gets λ w. env.now w.trace
    e ← lift (cancel_expense at expense)
    ask (save_expense e) env.done

  -- The rest of the method, for the receipt that was found.
  unfoldable pub void_found : String → Option Receipt → Job (Unit {0})
  unfolding cancel_found
  void_found booking_id none = pure tt
  void_found booking_id (some receipt) = do
    at ← gets λ w. env.now w.trace
    r ← lift (void_receipt at receipt)
    ask {A = Unit {0}} (save_receipt r) env.done
    expense ← read (env.find_expense booking_id)
    cancel_found expense

  unfoldable pub void_booking : String → Job (Unit {0})
  unfolding void_found
  void_booking booking_id = do
    receipt ← read (env.find_receipt booking_id)
    void_found booking_id receipt
