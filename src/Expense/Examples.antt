-- ===== src/Expense/Examples.antt =====
-- Runs of the consumer of booking events at concrete inputs.
use training_travel_booking.Shared.{
  ℕ, suc, String, Option, none, some, Bool, true, false, List, [], ◌∷◌, ◌≡◌, refl, sym, ap, ◌∙◌,
  inl, inr, arith, conflict, ok, err, http, subst, whole, str_eq, eq_iff, Bool-cases, if◌then◌else◌,
}
use mathlib.Core.List.{Memᴰ}
use training_travel_booking.Shared.Effect.{World, answer, Ends}
use training_travel_booking.Expense.Receipts.{
  Receipt, ReceiptStatus, Expense, ExpenseStatus, ExpenseCategory,
}
use training_travel_booking.Expense.Queries.{
  ExpenseQuery, Store, shown_receipt, get_receipt_by_id, find_expenses,
}
use training_travel_booking.Expense.Access.{FindsByTraveler, get_receipt_by_id-find_expenses}
use training_travel_booking.Expense.Calls.{
  Call, begin, commit, rollback, save_receipt, save_expense, save_processed, send, metric, Env,
}
use training_travel_booking.Expense.Consumer.{
  EventData, Message, not_an_object, object, BookingEventEnvelope, parse_envelope, is_positive,
  handle_booking_event,
}
use training_travel_booking.Expense.Effects.{committed, Quiet}
use training_travel_booking.Expense.Delivery.{Handles, handle_booking_event-Ends}
use training_travel_booking.Expense.Handlers.{Failed}
use training_travel_booking.Expense.Redelivery.{
  CountsProcessed, deliver, handle_booking_event-deliver,
}
use training_travel_booking.Expense.Gaps.{handle_booking_event-refused}

abbrev is_mark : String → Call → Bool
is_mark event_id c = elim c [ save_processed i name ↦ str_eq i event_id | _ ↦ false ]

abbrev marks : String → List Call → ℕ
marks event_id [] = 0
marks event_id (c ∷ cs) =
    let rest = marks event_id cs in if is_mark event_id c then suc rest else rest

is_mark-true :
    (event_id : String) (c : Call)
    → is_mark event_id c ≡ true
    → (name : String) × (save_processed event_id name ≡ c)
is_mark-true event_id (save_processed i name) h =
    (name, ap (λ x. save_processed x name) (sym ((eq_iff i event_id).0 h)))
is_mark-true event_id begin h = ground arith
is_mark-true event_id commit h = ground arith
is_mark-true event_id rollback h = ground arith
is_mark-true event_id (save_receipt r) h = ground arith
is_mark-true event_id (save_expense e) h = ground arith
is_mark-true event_id (send e) h = ground arith
is_mark-true event_id (metric m) h = ground arith

marks-to :
    (event_id : String) (cs : List Call)
    → is_positive (marks event_id cs) ≡ true
    → (name : String) × Memᴰ (save_processed event_id name) cs
marks-to event_id [] h = ground arith
marks-to event_id (c ∷ cs) h = elim (Bool-cases (is_mark event_id c)) [
  | inl e ↦ let (name, same) = is_mark-true event_id c e in (name, Memᴰ.head same)
  | inr e ↦ let (name, m) = marks-to event_id cs (ground arith) in (name, Memᴰ.tail m)
]

marks-from :
    (event_id name : String) (cs : List Call)
    → Memᴰ (save_processed event_id name) cs
    → is_positive (marks event_id cs) ≡ true
marks-from event_id name [] m = elim m [ ]
marks-from event_id name (c ∷ cs) (Memᴰ.head same) =
    let is : is_mark event_id c ≡ true =
      ap (is_mark event_id) (sym same) ∙ (eq_iff event_id event_id).1 refl in
    rw is refl
marks-from event_id name (c ∷ cs) (Memᴰ.tail m) = elim (Bool-cases (is_mark event_id c)) [
  | inl e ↦ rw e refl
  | inr e ↦ rw e (marks-from event_id name cs m)
]

abbrev desk : Option Receipt → Env
desk stored = record {
  now = λ t. 9;
  full_year = λ t. 2026;
  digits = λ n. "1";
  parse_date = λ s. some 5;
  receipt_uuid = λ t. "r1";
  expense_uuid = λ t. "x1";
  count_receipts = λ t. answer 0;
  count_processed = λ event_id t. answer (marks event_id (committed t));
  find_receipt = λ booking_id t. answer stored;
  find_expense = λ booking_id t. answer none;
  done = λ t. answer tt;
}

desk-CountsProcessed : (stored : Option Receipt) → CountsProcessed (desk stored)
desk-CountsProcessed stored event_id t n f =
    let same : marks event_id (committed t) ≡ n = ground arith in
    (
      (λ h. marks-to event_id (committed t) (ap is_positive same ∙ h)),
      (λ (name, m). sym (ap is_positive same) ∙ marks-from event_id name (committed t) m),
    )

abbrev trip : EventData
trip = record {
  traveler_id = "t1";
  traveler_name = "Ann";
  traveler_email = "ann@corp.com";
  total_amount = whole 450;
  currency = none;
  origin = "JFK";
  destination = "LAX";
  departure_date = "2026-06-01";
}

abbrev of_type : String → BookingEventEnvelope
of_type name = record {
  event_id = "e1";
  event_type = name;
  aggregate_id = "b1";
  correlation_id = none;
  event_data = trip;
}

abbrev raw : String → Message
raw name = object record {
  event_id = some "e1";
  event_type = some name;
  aggregate_id = some "b1";
  correlation_id = none;
  data_field = some trip;
}

abbrev at_rest : World Call (Unit {0})
at_rest = record { state = tt; trace = [] }

abbrev after_trip : World Call (Unit {0})
unfolding handle_booking_event
after_trip = (handle_booking_event (desk none) (raw "BookingConfirmed") at_rest).1

abbrev old_receipt : Receipt
old_receipt = record {
  id = "r1";
  receipt_number = "RCP-2026-000001";
  booking_id = "b1";
  traveler_id = "t1";
  traveler_name = "Ann";
  traveler_email = "ann@corp.com";
  amount = whole 450;
  currency = "USD";
  origin = "JFK";
  destination = "LAX";
  departure_date = some 5;
  status = ReceiptStatus.voided;
  generated_at = 1;
  voided_at = some 2;
}

handle_booking_event-Ends_example :
    Ends
      (Handles (desk none) (raw "BookingConfirmed") at_rest)
      (Failed (desk none) at_rest)
      (handle_booking_event (desk none) (raw "BookingConfirmed") at_rest)
handle_booking_event-Ends_example =
    handle_booking_event-Ends (desk none) (raw "BookingConfirmed") at_rest

after_trip-marks : marks "e1" (committed after_trip.trace) ≡ 1
unfolding after_trip
after_trip-marks = refl

handle_booking_event-deliver_example :
    Quiet (deliver (desk none) (not_an_object ∷ raw "BookingCancelled" ∷ []) after_trip).trace (
      (handle_booking_event
        (desk none)
        (raw "BookingConfirmed")
        (deliver (desk none) (not_an_object ∷ raw "BookingCancelled" ∷ []) after_trip)).1.trace)
unfolding handle_booking_event
handle_booking_event-deliver_example =
    handle_booking_event-deliver (desk none) (desk-CountsProcessed none) (raw "BookingConfirmed")
      (not_an_object ∷ raw "BookingCancelled" ∷ []) at_rest after_trip refl

handle_booking_event-refused_example :
    (handle_booking_event (desk (some old_receipt)) (raw "BookingCancelled") at_rest ≡ (
      err (conflict "Receipt is already voided" "RECEIPT_ALREADY_VOIDED"),
      record { state = tt; trace = rollback ∷ begin ∷ [] },
    ))
    × (committed (rollback ∷ begin ∷ []) ≡ committed [])
unfolding parse_envelope
handle_booking_event-refused_example =
    handle_booking_event-refused (desk (some old_receipt)) at_rest (of_type "BookingCancelled")
      old_receipt (raw "BookingCancelled") refl refl refl refl refl refl

abbrev own : String → Expense
own traveler_id = record {
  id = "x1";
  booking_id = "b1";
  receipt_id = "r1";
  traveler_id = traveler_id;
  traveler_name = "Ann";
  amount = whole 450;
  currency = "USD";
  category = ExpenseCategory.flight;
  description = "Travel expense";
  expense_date = some 5;
  status = ExpenseStatus.active;
  cancelled_at = none;
}

-- A store with one receipt, and one expense of every traveler.
abbrev shelf : Store
shelf = record {
  parse_date = λ s. some 5;
  find_receipt_by_id = λ id. answer (some old_receipt);
  find_by_traveler = λ traveler_id start end_. answer (own traveler_id ∷ []);
  find_all = λ start end_. answer (own "t1" ∷ own "t2" ∷ []);
}

shelf-FindsByTraveler : FindsByTraveler shelf
shelf-FindsByTraveler traveler_id start end_ es h e m =
    let same : es ≡ own traveler_id ∷ [] = ground arith in go (subst (λ xs. Memᴰ e xs) same m)
  where
    go : Memᴰ e (own traveler_id ∷ []) → e.traveler_id ≡ traveler_id
    go (Memᴰ.head q) = ap (λ x. x.traveler_id) q
    go (Memᴰ.tail q) = elim q [ ]

-- An employee is refused the receipt of somebody else, and a manager is not.
refused_to_other :
    get_receipt_by_id shelf "r1" "t2" "EMPLOYEE" ≡ err (http "Access denied to this receipt" 403)
unfolding get_receipt_by_id shown_receipt
refused_to_other = refl

shown_to_manager : get_receipt_by_id shelf "r1" "t2" "MANAGER" ≡ ok old_receipt
unfolding get_receipt_by_id shown_receipt
shown_to_manager = refl

get_receipt_by_id-find_expenses_example :
    ((id : String) (r : Receipt)
      → get_receipt_by_id shelf id "t1" "EMPLOYEE" ≡ ok r
      → r.traveler_id ≡ "t1")
    × ((query : ExpenseQuery) (es : List Expense)
        → find_expenses shelf query "t1" "EMPLOYEE" ≡ answer es
        → (e : Expense) → Memᴰ e es
        → e.traveler_id ≡ "t1")
get_receipt_by_id-find_expenses_example =
    get_receipt_by_id-find_expenses shelf "t1" shelf-FindsByTraveler
