-- ===== src/Expense/Rows.antt =====
-- What the transaction of a confirmed booking writes, of
-- expense-service/src/infrastructure/kafka/booking-event.consumer.ts.
use training_travel_booking.Shared.{ℕ, String, List, [], ◌∷◌, ◌≡◌, refl, ap, Error}
use training_travel_booking.Shared.Effect.{
  World, answer, Ends, Ends-bind, ask-then, read-then, pure, ask, ◌>>◌,
}
use training_travel_booking.Expense.Receipts.{Receipt, Expense}
use training_travel_booking.Expense.Calls.{
  Call, begin, save_receipt, save_expense, save_processed, Env,
}
use training_travel_booking.Expense.UseCases.{receipt_of, expense_of, save_pair, generate_receipt}
use training_travel_booking.Expense.Consumer.{EventData, confirmed_data, confirm_rows}
use training_travel_booking.Expense.Effects.{
  committed_from, taken, dropped, sent, Pending, Droppable, Body,
}

module _ (env : Env) (event_id event_type booking_id : String) where
  -- The rows of a confirmed booking, read when `count` receipts were stored.
  abbrev pub Generated : EventData → List Call → Receipt × Expense → List Call → Type 0
  Generated d t (r, e) xs =
      (count : ℕ) × (env.count_receipts (begin ∷ t) ≡ answer count)
      × ((at year : ℕ) × (id expense_id : String) × (r
            ≡ receipt_of env (confirmed_data booking_id d) id at year count)
          × (e ≡ expense_of env (confirmed_data booking_id d) expense_id id))
      × (xs ≡ save_processed event_id event_type ∷ save_expense e ∷ save_receipt r ∷ [])

  module _ (w : World Call (Unit {0})) where
    abbrev begun : World Call (Unit {0})
    begun = record { state = w.state; trace = begin ∷ w.trace }

    abbrev Dropped : Error → World Call (Unit {0}) → Type 0
    Dropped x v = Droppable w.trace v.trace

    module _ (d : EventData) where
      abbrev next_receipt : ℕ → Receipt
      next_receipt n =
          receipt_of env (confirmed_data booking_id d) (env.receipt_uuid begun.trace)
            (env.now begun.trace) (env.full_year begun.trace) n

      abbrev next_expense : Expense
      next_expense =
          expense_of env (confirmed_data booking_id d) (env.expense_uuid begun.trace)
            (env.receipt_uuid begun.trace)

      abbrev Done : Receipt × Expense → World Call (Unit {0}) → Type 0
      Done a u = (xs : List Call) × Generated d w.trace a xs × Pending xs w.trace u.trace

      abbrev Made : Receipt × Expense → World Call (Unit {0}) → Type 0
      Made rows v =
          (n : ℕ) × (env.count_receipts begun.trace ≡ answer n)
          × (rows ≡ (next_receipt n, next_expense))
          × (v.trace ≡ save_expense rows.1 ∷ save_receipt rows.0 ∷ begun.trace)

      made : Ends Made Dropped (generate_receipt env (confirmed_data booking_id d) begun)
      unfolding generate_receipt save_pair
      made =
          read-then Made Dropped env.count_receipts
            (λ n. save_pair env (next_receipt n) next_expense) begun
            (λ n f.
              ask-then Made Dropped (save_receipt (next_receipt n)) env.done
                (λ _.
                  ask {A = Unit {0}} (save_expense next_expense) env.done
                  >> pure (next_receipt n, next_expense))
                begun
                (λ _ g.
                  ask-then Made Dropped (save_expense next_expense) env.done
                    (λ _. pure (next_receipt n, next_expense)) _ (λ _ h. (n, f, refl, refl))
                    (λ m h. (refl, refl)))
                (λ m g. (refl, refl)))
            (λ m f. (refl, refl))

      marked :
          (rows : Receipt × Expense) (v : World Call (Unit {0}))
          → Made rows v
          → Ends Done Dropped
              ((ask {A = Unit {0}} (save_processed event_id event_type) env.done >> pure rows) v)
      marked rows v (n, f, p, q) =
          ask-then Done Dropped (save_processed event_id event_type) env.done (λ _. pure rows) v
            (λ _ g. (
              _,
              (
                n,
                f,
                (
                  env.now begun.trace,
                  env.full_year begun.trace,
                  env.receipt_uuid begun.trace,
                  env.expense_uuid begun.trace,
                  ap (λ x. x.0) p,
                  ap (λ x. x.1) p,
                ),
                refl,
              ),
              (
                ap (λ t. save_processed event_id event_type ∷ committed_from taken t) q,
                ap (committed_from dropped) q,
                ap sent q,
              ),
            ))
            (λ m g. (ap (committed_from dropped) q, ap sent q))

      pub confirm_rows-Body :
          Body
            (Generated d w.trace)
            w.trace
            (confirm_rows env event_id event_type booking_id d)
            begun
      unfolding confirm_rows
      confirm_rows-Body =
          Ends-bind Made Done Dropped (generate_receipt env (confirmed_data booking_id d))
            (λ rows.
              (ask {A = Unit {0}} (save_processed event_id event_type) env.done >> pure rows))
            begun made marked
