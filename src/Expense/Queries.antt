-- ===== src/Expense/Queries.antt =====
-- expense-service/src/application/services/expense-query.service.ts: which receipt and which expenses
-- a caller is shown, before they are printed. The dates of a query are its texts; `new Date` is a
-- parameter.
use training_travel_booking.Shared.{
  ℕ, String, Option, none, some, List, Bool, ◌&&◌, not, not_found, http, Result, ok, err, ◌<>◌,
  str_eq, if◌then◌else◌,
}
use training_travel_booking.Shared.Effect.{Reply, answer, fault, to_result}
use training_travel_booking.Expense.Receipts.{Receipt, Expense}

pub record ExpenseQuery : Type 0 where
  pub start_date : String
  pub end_date : String
  pub traveler_id : Option String

-- What the two repositories answer.
pub record Store : Type 0 where
  pub parse_date : String → Option ℕ
  pub find_receipt_by_id : String → Reply (Option Receipt)
  pub find_by_traveler : (traveler_id : String) (start end_ : Option ℕ) → Reply (List Expense)
  pub find_all : (start end_ : Option ℕ) → Reply (List Expense)

abbrev pub is_employee : String → Bool
is_employee role = str_eq role "EMPLOYEE"

module _ (store : Store) where
  unfoldable pub shown_receipt : (id requester role : String) → Option Receipt → Result Receipt
  shown_receipt id requester role none = err (not_found ("Receipt " <> id <> " not found"))
  shown_receipt id requester role (some receipt) =
      if is_employee role && not (str_eq receipt.traveler_id requester)
      then err (http "Access denied to this receipt" 403)
      else ok receipt

  unfoldable pub get_receipt_by_id : (id requester role : String) → Result Receipt
  unfolding shown_receipt
  get_receipt_by_id id requester role = elim (store.find_receipt_by_id id) [
    | answer found ↦ shown_receipt id requester role found
    | fault message ↦ to_result (fault message)
  ]

  -- For a manager or an administrator: the traveler asked for, or all.
  abbrev pub find_for_manager : Option String → Option ℕ → Option ℕ → Reply (List Expense)
  find_for_manager none start end_ = store.find_all start end_
  find_for_manager (some traveler_id) start end_ =
      if str_eq traveler_id ""
      then store.find_all start end_
      else store.find_by_traveler traveler_id start end_

  unfoldable pub find_expenses : ExpenseQuery → (requester role : String) → Reply (List Expense)
  find_expenses query requester role =
      let start = store.parse_date query.start_date in
      let end_ = store.parse_date query.end_date in
      if is_employee role
      then store.find_by_traveler requester start end_
      else find_for_manager query.traveler_id start end_
