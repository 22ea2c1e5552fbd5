-- ===== src/Expense/Voids.antt =====
-- What the transaction of a cancelled booking writes, of
-- expense-service/src/infrastructure/kafka/booking-event.consumer.ts.
use training_travel_booking.Shared.{
  ℕ, String, Option, none, some, List, [], ◌∷◌, ◌≡◌, refl, sym, subst, ◌⊎◌, inl, inr, arith, ap,
  Error, ok,
}
use training_travel_booking.Shared.Effect.{
  World, answer, Ends, Ends-bind, Ends-ask, ask-then, read-then, lift-then, ask, read, ◌>>=◌, ◌>>◌,
}
use training_travel_booking.Expense.Receipts.{
  Receipt, Expense, ReceiptStatus, ExpenseStatus, voided_receipt, cancelled_expense, void_receipt,
  cancel_expense,
}
use training_travel_booking.Expense.Calls.{
  Call, begin, save_receipt, save_expense, save_processed, Env,
}
use training_travel_booking.Expense.UseCases.{Job, cancel_found, void_found, void_booking}
use training_travel_booking.Expense.Consumer.{cancel_rows}
use training_travel_booking.Expense.Effects.{
  committed_from, taken, dropped, sent, Pending, Droppable, Body,
}

receipt_cases : (s : ReceiptStatus) → (s ≡ ReceiptStatus.active) ⊎ (s ≡ ReceiptStatus.voided)
receipt_cases ReceiptStatus.active = inl refl
receipt_cases ReceiptStatus.voided = inr refl

expense_cases : (s : ExpenseStatus) → (s ≡ ExpenseStatus.active) ⊎ (s ≡ ExpenseStatus.cancelled)
expense_cases ExpenseStatus.active = inl refl
expense_cases ExpenseStatus.cancelled = inr refl

-- When a receipt is voided, and an expense cancelled.
void_receipt-ok :
    (at : ℕ) (r r' : Receipt)
    → void_receipt at r ≡ ok r'
    → (r.status ≡ ReceiptStatus.active) × (r' ≡ voided_receipt at r)
unfolding void_receipt
void_receipt-ok at r r' h = elim (receipt_cases r.status) [
  | inl e ↦ ground arith
  | inr e ↦ ground arith
]

cancel_expense-ok :
    (at : ℕ) (e e' : Expense)
    → cancel_expense at e ≡ ok e'
    → (e.status ≡ ExpenseStatus.active) × (e' ≡ cancelled_expense at e)
unfolding cancel_expense
cancel_expense-ok at e e' h = elim (expense_cases e.status) [
  | inl s ↦ ground arith
  | inr s ↦ ground arith
]

module _ (env : Env) (event_id event_type booking_id : String) where
  -- The rows of a booking that is voided, if it has a receipt.
  abbrev pub CancelledExpense : Receipt → List Call → List Call → Type 0
  CancelledExpense r t ys =
      ((env.find_expense booking_id t ≡ answer none) × (ys ≡ save_receipt r ∷ []))
      ⊎ ((e : Expense) × (at : ℕ) × (env.find_expense booking_id t ≡ answer (some e))
          × (e.status ≡ ExpenseStatus.active)
          × (ys ≡ save_expense (cancelled_expense at e) ∷ save_receipt r ∷ []))

  abbrev pub VoidedRows : List Call → List Call → Type 0
  VoidedRows t ys =
      ((env.find_receipt booking_id (begin ∷ t) ≡ answer none) × (ys ≡ []))
      ⊎ ((r : Receipt) × (at : ℕ) × (env.find_receipt booking_id (begin ∷ t) ≡ answer (some r))
          × (r.status ≡ ReceiptStatus.active)
          × CancelledExpense (voided_receipt at r) (save_receipt (voided_receipt at r) ∷ begin ∷ t)
              ys)

  abbrev pub Voided : List Call → Unit {0} → List Call → Type 0
  Voided t a xs =
      (ys : List Call) × VoidedRows t ys × (xs ≡ save_processed event_id event_type ∷ ys)

  module _ (w : World Call (Unit {0})) where
    abbrev begun : World Call (Unit {0})
    begun = record { state = w.state; trace = begin ∷ w.trace }

    abbrev Dropped : Error → World Call (Unit {0}) → Type 0
    Dropped x v = Droppable w.trace v.trace

    abbrev Gone : Unit {0} → World Call (Unit {0}) → Type 0
    Gone a v = (ys : List Call) × VoidedRows w.trace ys × Pending ys w.trace v.trace

    cancelled :
        (r : Receipt) (at : ℕ)
        → env.find_receipt booking_id begun.trace ≡ answer (some r)
        → r.status ≡ ReceiptStatus.active
        → (found : Option Expense) (v : World Call (Unit {0}))
        → v.trace ≡ save_receipt (voided_receipt at r) ∷ begun.trace
        → env.find_expense booking_id (save_receipt (voided_receipt at r) ∷ begun.trace)
          ≡ answer found
        → Ends Gone Dropped (cancel_found env found v)
    unfolding cancel_found
    cancelled r at f s none v q g = (
      _,
      inr (r, at, f, s, inl (g, refl)),
      (ap (committed_from taken) q, ap (committed_from dropped) q, ap sent q),
    )
    cancelled r at f s (some e) v q g =
        lift-then Gone Dropped (cancel_expense (env.now v.trace) e)
          (λ e'. ask {A = Unit {0}} (save_expense e') env.done) v
          (λ e' h.
            let (active, is) = cancel_expense-ok (env.now v.trace) e e' h in
            Ends-ask Gone Dropped (save_expense e') env.done v
              (λ _ k. (
                save_expense e' ∷ save_receipt (voided_receipt at r) ∷ [],
                inr (
                  r,
                  at,
                  f,
                  s,
                  inr (
                    e,
                    env.now v.trace,
                    g,
                    active,
                    ap (λ x. save_expense x ∷ save_receipt (voided_receipt at r) ∷ []) is,
                  ),
                ),
                (
                  ap (λ t. save_expense e' ∷ committed_from taken t) q,
                  ap (committed_from dropped) q,
                  ap sent q,
                ),
              ))
              (λ m k. (ap (committed_from dropped) q, ap sent q)))
          (λ x h. (ap (committed_from dropped) q, ap sent q))

    gone : Ends Gone Dropped (void_booking env booking_id begun)
    unfolding void_booking void_found
    gone =
        read-then Gone Dropped (env.find_receipt booking_id) (void_found env booking_id) begun found
          (λ m f. (refl, refl))
      where
        at : ℕ
        at = env.now begun.trace

        rest : Receipt → Job (Unit {0})
        rest r' =
            ask {A = Unit {0}} (save_receipt r') env.done
            >> (read (env.find_expense booking_id) >>= cancel_found env)

        voided :
            (r : Receipt)
            → env.find_receipt booking_id begun.trace ≡ answer (some r)
            → r.status ≡ ReceiptStatus.active
            → Ends Gone Dropped (rest (voided_receipt at r) begun)
        voided r f active =
            ask-then Gone Dropped (save_receipt (voided_receipt at r)) env.done
              (λ _. read (env.find_expense booking_id) >>= cancel_found env) begun
              (λ _ g.
                read-then Gone Dropped (env.find_expense booking_id) (cancel_found env) _
                  (λ o h. cancelled r at f active o _ refl h) (λ m h. (refl, refl)))
              (λ m g. (refl, refl))

        found :
            (o : Option Receipt)
            → env.find_receipt booking_id begun.trace ≡ answer o
            → Ends Gone Dropped (void_found env booking_id o begun)
        found none f = ([], inl (f, refl), (refl, refl, refl))
        found (some r) f =
            lift-then Gone Dropped (void_receipt at r) rest begun
              (λ r' h.
                let (active, is) = void_receipt-ok at r r' h in
                subst (λ x. Ends Gone Dropped (rest x begun)) (sym is) (voided r f active))
              (λ x h. (refl, refl))

    pub cancel_rows-Body :
        Body (Voided w.trace) w.trace (cancel_rows env event_id event_type booking_id) begun
    unfolding cancel_rows
    cancel_rows-Body =
        Ends-bind Gone Kept Dropped (void_booking env booking_id)
          (λ _. ask {A = Unit {0}} (save_processed event_id event_type) env.done) begun gone
          λ _ v (ys, rows, (c, d, s)).
            Ends-ask Kept Dropped (save_processed event_id event_type) env.done v
              (λ _ g. (
                save_processed event_id event_type ∷ ys,
                (ys, rows, refl),
                (ap (λ cs. save_processed event_id event_type ∷ cs) c, d, s),
              ))
              (λ m g. (d, s))
      where
        Kept : Unit {0} → World Call (Unit {0}) → Type 0
        Kept a v = (xs : List Call) × Voided w.trace a xs × Pending xs w.trace v.trace
