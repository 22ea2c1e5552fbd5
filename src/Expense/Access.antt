-- ===== src/Expense/Access.antt =====
-- Who is shown which receipts and expenses, of
-- expense-service/src/application/services/expense-query.service.ts.
use training_travel_booking.Shared.{
  ℕ, String, Option, none, some, List, ◌≡◌, inl, inr, arith, ok, str_eq, eq_iff, Bool-cases,
}
use mathlib.Core.List.{Memᴰ}
use training_travel_booking.Shared.Effect.{answer, Reply-cases}
use training_travel_booking.Expense.Receipts.{Receipt, Expense}
use training_travel_booking.Expense.Queries.{
  ExpenseQuery, Store, shown_receipt, get_receipt_by_id, find_expenses,
}

-- The repository finds the expenses of the traveler that it is asked for.
abbrev pub FindsByTraveler : Store → Type 0
FindsByTraveler store =
    (traveler_id : String) (start end_ : Option ℕ) (es : List Expense)
    → store.find_by_traveler traveler_id start end_ ≡ answer es
    → (e : Expense) → Memᴰ e es
    → e.traveler_id ≡ traveler_id

module _ (store : Store) (requester : String) where
  employee_sees :
      (id : String) (found : Option Receipt) (r : Receipt)
      → shown_receipt store id requester "EMPLOYEE" found ≡ ok r
      → r.traveler_id ≡ requester
  unfolding shown_receipt
  employee_sees id none r h = ground arith
  employee_sees id (some x) r h = elim (Bool-cases (str_eq x.traveler_id requester)) [
    | inl e ↦ let same = (eq_iff x.traveler_id requester).0 e in ground arith
    | inr e ↦ ground arith
  ]

  -- If the repository finds the expenses of the traveler that it is asked for: a receipt that an
  -- employee is shown, and every expense of a query of an employee, is the employee's own, whatever
  -- traveler the query names.
  pub get_receipt_by_id-find_expenses :
      FindsByTraveler store
      → ((id : String) (r : Receipt)
          → get_receipt_by_id store id requester "EMPLOYEE" ≡ ok r
          → r.traveler_id ≡ requester)
        × ((query : ExpenseQuery) (es : List Expense)
            → find_expenses store query requester "EMPLOYEE" ≡ answer es
            → (e : Expense) → Memᴰ e es
            → e.traveler_id ≡ requester)
  unfolding get_receipt_by_id find_expenses
  get_receipt_by_id-find_expenses finds = (
    (λ id r h. elim (Reply-cases (store.find_receipt_by_id id)) [
      | inl (found, f) ↦ employee_sees id found r (ground arith)
      | inr (m, f) ↦ ground arith
    ]),
    λ query es h.
        finds requester (store.parse_date query.start_date) (store.parse_date query.end_date) es h,
  )
