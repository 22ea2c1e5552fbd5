-- ===== src/Expense/Handlers.antt =====
-- The two handlers of booking events, of
-- expense-service/src/infrastructure/kafka/booking-event.consumer.ts.
use training_travel_booking.Shared.{
  ℕ, zero, suc, String, Bool, true, false, List, ◌∷◌, ◌++◌, ◌≡◌, refl, sym, ap, ◌∙◌, subst, ◌⊎◌,
  inl, inr, arith, Error,
}
use training_travel_booking.Shared.Effect.{
  World, answer, Ends, Ends-bind, Ends-mono, read-then, pure, note, ◌>>=◌, ◌>>◌,
}
use training_travel_booking.Expense.Receipts.{Receipt, Expense}
use training_travel_booking.Expense.Calls.{
  ExpenseEvent, Call, events_processed, receipts_generated, receipts_voided, metric, Env,
}
use training_travel_booking.Expense.UseCases.{Job}
use training_travel_booking.Expense.Consumer.{
  EventData, generated_event, recorded_event, voided_event, is_positive, publish, transaction,
  is_processed, confirm_rows, cancel_rows, confirm_new, cancel_new, handle_booking_confirmed,
  handle_booking_cancelled,
}
use training_travel_booking.Expense.Effects.{committed, sent, Quiet, Commits}
use training_travel_booking.Expense.Transactions.{publish-Ends, transaction-Ends}
use training_travel_booking.Expense.Rows.{Generated, confirm_rows-Body}
use training_travel_booking.Expense.Voids.{Voided, cancel_rows-Body}

module _ (env : Env) (w : World Call (Unit {0})) where
  abbrev pub Failed : Error → World Call (Unit {0}) → Type 0
  Failed x v = Quiet w.trace v.trace

  abbrev Published :
      ExpenseEvent → World Call (Unit {0}) → Unit {0} → World Call (Unit {0}) → Type 0
  Published event v a u =
      (committed u.trace ≡ committed v.trace) × (sent u.trace ≡ event ∷ sent v.trace)

  module _ (event_id event_type booking_id correlation_id : String) (d : EventData) where
    abbrev pub Confirmed : Unit {0} → World Call (Unit {0}) → Type 0
    Confirmed a v =
        (rows : Receipt × Expense) × (xs : List Call) × Generated env event_id event_type booking_id
          d w.trace rows xs
        × (committed v.trace ≡ xs ++ committed w.trace)
        × (sent v.trace
            ≡ recorded_event correlation_id rows.1
              ∷ generated_event correlation_id rows.0
              ∷ sent w.trace)

    abbrev pub Cancelled : Unit {0} → World Call (Unit {0}) → Type 0
    Cancelled a v =
        (xs : List Call) × Voided env event_id event_type booking_id w.trace tt xs
        × (committed v.trace ≡ xs ++ committed w.trace)
        × (sent v.trace ≡ voided_event correlation_id booking_id d.traveler_id ∷ sent w.trace)

    confirm_new-Ends :
        Ends Confirmed Failed (confirm_new env event_id event_type booking_id correlation_id d w)
    unfolding confirm_new
    confirm_new-Ends =
        Ends-bind
          (λ rows v.
            (xs : List Call) × Generated env event_id event_type booking_id d w.trace rows xs
            × Commits xs w.trace v.trace)
          Confirmed Failed (transaction env (confirm_rows env event_id event_type booking_id d))
          after_rows w
          (transaction-Ends env (Generated env event_id event_type booking_id d w.trace)
            (confirm_rows env event_id event_type booking_id d) w
            (confirm_rows-Body env event_id event_type booking_id w d))
          λ rows v (xs, gen, (c, s)).
            Ends-bind (Published (generated_event correlation_id rows.0) v) Confirmed Failed
              (publish env (generated_event correlation_id rows.0)) (λ _. after_first rows) v
              (publish-Ends env Failed (generated_event correlation_id rows.0) v)
              λ _ v₂ (c₂, s₂).
                Ends-bind (Published (recorded_event correlation_id rows.1) v₂) Confirmed Failed
                  (publish env (recorded_event correlation_id rows.1)) (λ _. marks) v₂
                  (publish-Ends env Failed (recorded_event correlation_id rows.1) v₂)
                  λ _ v₃ (c₃, s₃). (
                    rows,
                    xs,
                    gen,
                    c₃ ∙ c₂ ∙ c,
                    s₃
                        ∙ ap (λ es. recorded_event correlation_id rows.1 ∷ es)
                            (s₂ ∙ ap (λ es. generated_event correlation_id rows.0 ∷ es) s),
                  )
      where
        marks : Job (Unit {0})
        marks =
            note (metric receipts_generated)
            >> note (metric (events_processed "BookingConfirmed" "success"))

        after_first : Receipt × Expense → Job (Unit {0})
        after_first rows = publish env (recorded_event correlation_id rows.1) >> marks

        after_rows : Receipt × Expense → Job (Unit {0})
        after_rows rows = publish env (generated_event correlation_id rows.0) >> after_first rows

    cancel_new-Ends :
        Ends Cancelled Failed (cancel_new env event_id event_type booking_id correlation_id d w)
    unfolding cancel_new
    cancel_new-Ends =
        Ends-bind
          (λ a v.
            (xs : List Call) × Voided env event_id event_type booking_id w.trace a xs
            × Commits xs w.trace v.trace)
          Cancelled Failed (transaction env (cancel_rows env event_id event_type booking_id))
          (λ _. publish env event >> marks) w
          (transaction-Ends env (Voided env event_id event_type booking_id w.trace)
            (cancel_rows env event_id event_type booking_id) w
            (cancel_rows-Body env event_id event_type booking_id w))
          λ _ v (xs, gone, (c, s)).
            Ends-bind (Published event v) Cancelled Failed (publish env event) (λ _. marks) v
              (publish-Ends env Failed event v)
              λ _ v₂ (c₂, s₂). (xs, gone, c₂ ∙ c, s₂ ∙ ap (λ es. event ∷ es) s)
      where
        event : ExpenseEvent
        event = voided_event correlation_id booking_id d.traveler_id

        marks : Job (Unit {0})
        marks =
            note (metric receipts_voided)
            >> note (metric (events_processed "BookingCancelled" "success"))

    -- What is known of an event that the table of processed events was asked for.
    abbrev Asked : Bool → World Call (Unit {0}) → Type 0
    Asked b v =
        (n : ℕ) × (env.count_processed event_id w.trace ≡ answer n) × (b ≡ is_positive n) × (v ≡ w)

    is_processed-Ends : Ends Asked Failed (is_processed env event_id w)
    unfolding is_processed
    is_processed-Ends =
        read-then Asked Failed (env.count_processed event_id) (λ n. pure (is_positive n)) w
          (λ n f. (n, f, refl, refl)) (λ m f. (refl, refl))

    abbrev pub Repeated : World Call (Unit {0}) → Type 0
    Repeated v =
        ((n : ℕ) × (env.count_processed event_id w.trace ≡ answer (suc n))) × Quiet w.trace v.trace

    abbrev pub IsNew : Type 0
    IsNew = env.count_processed event_id w.trace ≡ answer 0

    -- A handler that first asks whether the event is processed.
    checked :
        (P : Unit {0} → World Call (Unit {0}) → Type 0) (name : String) (m : Job (Unit {0}))
        → Ends P Failed (m w)
        → Ends
            (λ a v. Repeated v ⊎ (IsNew × P a v))
            Failed
            ((is_processed env event_id >>= λ b. elim b [
              | true ↦ note (metric (events_processed name "duplicate"))
              | false ↦ m
            ])
              w)
    checked P name m h =
        Ends-bind Asked After Failed (is_processed env event_id) rest w is_processed-Ends
          λ b v (n, f, p, q). subst (λ u. Ends After Failed (rest b u)) (sym q) (go b n f p)
      where
        After : Unit {0} → World Call (Unit {0}) → Type 0
        After a v = Repeated v ⊎ (IsNew × P a v)

        rest : Bool → Job (Unit {0})
        rest b = elim b [ true ↦ note (metric (events_processed name "duplicate")) | false ↦ m ]

        go :
            (b : Bool) (n : ℕ)
            → env.count_processed event_id w.trace ≡ answer n
            → b ≡ is_positive n
            → Ends After Failed (rest b w)
        go true zero f p = ground arith
        go true (suc n) f p = inl ((n, f), (refl, refl))
        go false zero f p =
            Ends-mono P After Failed Failed (m w) (λ a v r. inr (f, r)) (λ x v r. r) h
        go false (suc n) f p = ground arith

    pub handle_booking_confirmed-Ends :
        Ends
          (λ a v. Repeated v ⊎ (IsNew × Confirmed a v))
          Failed
          (handle_booking_confirmed env event_id event_type booking_id correlation_id d w)
    unfolding handle_booking_confirmed
    handle_booking_confirmed-Ends =
        checked Confirmed "BookingConfirmed"
          (confirm_new env event_id event_type booking_id correlation_id d) confirm_new-Ends

    pub handle_booking_cancelled-Ends :
        Ends
          (λ a v. Repeated v ⊎ (IsNew × Cancelled a v))
          Failed
          (handle_booking_cancelled env event_id event_type booking_id correlation_id d w)
    unfolding handle_booking_cancelled
    handle_booking_cancelled-Ends =
        checked Cancelled "BookingCancelled"
          (cancel_new env event_id event_type booking_id correlation_id d) cancel_new-Ends
