-- ===== src/Expense/Transactions.antt =====
-- Transactions and publications of the expense service, and what they commit and send.
use training_travel_booking.Shared.{List, ◌∷◌, ◌≡◌, refl, Error, subst, sym}
use training_travel_booking.Shared.Effect.{
  World, Ends, Ends-bind, Ends-ask, Ends-catch, ask, pure, note, throw, try_catch, ◌>>=◌, ◌>>◌,
}
use training_travel_booking.Expense.Calls.{
  ExpenseEvent, Call, begin, commit, rollback, send, metric, messages_produced, Env,
}
use training_travel_booking.Expense.UseCases.{Job}
use training_travel_booking.Expense.Consumer.{publish, transaction}
use training_travel_booking.Expense.Effects.{
  committed, sent, Quiet, Commits, Pending, Droppable, Body,
}

module _ (env : Env) where
  -- A publication returns, and commits nothing.
  pub publish-Ends :
      (E : Error → World Call (Unit {0}) → Type 0) (e : ExpenseEvent) (w : World Call (Unit {0}))
      → Ends
          (λ a v. (committed v.trace ≡ committed w.trace) × (sent v.trace ≡ e ∷ sent w.trace))
          E
          (publish env e w)
  unfolding publish
  publish-Ends E e w =
      Ends-catch Sent (λ x. Sent tt) E attempt (λ x. pure tt) w
        (Ends-bind Sent Sent (λ x. Sent tt) (ask (send e) env.done)
          (λ a. note (metric messages_produced)) w
          (Ends-ask Sent (λ x. Sent tt) (send e) env.done w (λ a f. (refl, refl))
            (λ m f. (refl, refl)))
          (λ a v h. h))
        λ x v h. h
    where
      Sent : Unit {0} → World Call (Unit {0}) → Type 0
      Sent a v = (committed v.trace ≡ committed w.trace) × (sent v.trace ≡ e ∷ sent w.trace)

      attempt : Job (Unit {0})
      attempt = ask {A = Unit {0}} (send e) env.done >> note (metric messages_produced)

  module _ {A : Type 0} (Q : A → List Call → Type 0) where
    -- A transaction commits what its function wrote, or fails and commits nothing.
    pub transaction-Ends :
        (m : Job A) (w : World Call (Unit {0}))
        → Body Q w.trace m (record { state = w.state; trace = begin ∷ w.trace })
        → Ends
            (λ a v. (xs : List Call) × Q a xs × Commits xs w.trace v.trace)
            (λ e v. Quiet w.trace v.trace)
            (transaction env m w)
    unfolding transaction
    transaction-Ends m w h =
        Ends-bind (λ a v. v ≡ begun) Done Failed (ask begin env.done) (λ a. inner) w
          (Ends-ask (λ a v. v ≡ begun) Failed begin env.done w (λ a f. refl) (λ x f. (refl, refl)))
          λ a v e. subst (λ v. Ends Done Failed (inner v)) (sym e) caught
      where
        begun : World Call (Unit {0})
        begun = record { state = w.state; trace = begin ∷ w.trace }

        Done : A → World Call (Unit {0}) → Type 0
        Done a v = (xs : List Call) × Q a xs × Commits xs w.trace v.trace

        Failed : Error → World Call (Unit {0}) → Type 0
        Failed e v = Quiet w.trace v.trace

        Dropped : Error → World Call (Unit {0}) → Type 0
        Dropped e v = Droppable w.trace v.trace

        finish : A → Job A
        finish a = ask {A = Unit {0}} commit env.done >> pure a

        undo : Error → Job A
        undo e = note rollback >> throw e

        inner : Job A
        inner = try_catch (m >>= finish) undo

        body : Ends Done Dropped ((m >>= finish) begun)
        body =
            Ends-bind (λ a v. (xs : List Call) × Q a xs × Pending xs w.trace v.trace) Done Dropped m
              finish begun h
              λ a v (xs, q, (c, d, s)).
                Ends-bind (λ _ u. u ≡ record { state = v.state; trace = commit ∷ v.trace }) Done
                  Dropped (ask {A = Unit {0}} commit env.done) (λ _. pure a) v
                  (Ends-ask (λ _ u. u ≡ record { state = v.state; trace = commit ∷ v.trace })
                    Dropped commit env.done v (λ _ f. refl) (λ x f. (d, s)))
                  λ _ u e. subst (λ u. Done a u) (sym e) (xs, q, (c, s))

        caught : Ends Done Failed (inner begun)
        caught = Ends-catch Done Dropped Failed (m >>= finish) undo begun body λ e v d. d
