-- ===== src/Expense/Delivery.antt =====
-- What the delivery of a booking event does, of
-- expense-service/src/infrastructure/kafka/booking-event.consumer.ts.
use training_travel_booking.Shared.{
  ℕ, suc, String, Bool, true, false, List, ◌∷◌, ◌++◌, ◌≡◌, ◌≢◌, refl, inl, inr, arith, Error,
  Result, ok, err, or_default, str_eq, eq_iff, if◌then◌else◌,
}
use training_travel_booking.Shared.Effect.{World, Method, answer, Ends, Ends-mono, pure}
use training_travel_booking.Expense.Receipts.{Receipt, Expense}
use training_travel_booking.Expense.Calls.{Call, Env}
use training_travel_booking.Expense.UseCases.{Job}
use training_travel_booking.Expense.Consumer.{
  Message, BookingEventEnvelope, parse_envelope, generated_event, recorded_event, voided_event,
  handle_booking_confirmed, handle_booking_cancelled, handle_envelope, handle_booking_event,
}
use training_travel_booking.Expense.Effects.{committed, sent, Quiet}
use training_travel_booking.Expense.Rows.{Generated}
use training_travel_booking.Expense.Voids.{Voided}
use training_travel_booking.Expense.Handlers.{
  Failed, handle_booking_confirmed-Ends, handle_booking_cancelled-Ends,
}

abbrev pub correlation_of : BookingEventEnvelope → String
correlation_of e = or_default e.correlation_id "unknown"

-- What a delivery does that returns, with the calls before and after it.
pub data Handled (env : Env) (message : Message) (t v : List Call) : Type 0 where
  unread : (x : Error) → parse_envelope message ≡ err x → Quiet t v → Handled env message t v
  ignored :
      (e : BookingEventEnvelope)
      → parse_envelope message ≡ ok e
      → e.event_type ≢ "BookingConfirmed"
      → e.event_type ≢ "BookingCancelled"
      → Quiet t v
      → Handled env message t v
  duplicate :
      (e : BookingEventEnvelope) (n : ℕ)
      → parse_envelope message ≡ ok e
      → env.count_processed e.event_id t ≡ answer (suc n)
      → Quiet t v
      → Handled env message t v
  confirmed :
      (e : BookingEventEnvelope) (rows : Receipt × Expense) (xs : List Call)
      → parse_envelope message ≡ ok e
      → e.event_type ≡ "BookingConfirmed"
      → env.count_processed e.event_id t ≡ answer 0
      → Generated env e.event_id e.event_type e.aggregate_id e.event_data t rows xs
      → committed v ≡ xs ++ committed t
      → sent v
        ≡ recorded_event (correlation_of e) rows.1
          ∷ generated_event (correlation_of e) rows.0
          ∷ sent t
      → Handled env message t v
  cancelled :
      (e : BookingEventEnvelope) (xs : List Call)
      → parse_envelope message ≡ ok e
      → e.event_type ≡ "BookingCancelled"
      → env.count_processed e.event_id t ≡ answer 0
      → Voided env e.event_id e.event_type e.aggregate_id t tt xs
      → committed v ≡ xs ++ committed t
      → sent v ≡ voided_event (correlation_of e) e.aggregate_id e.event_data.traveler_id ∷ sent t
      → Handled env message t v

-- A test, and what either branch does.
Ends-if :
    {C S A : Type 0} (Q : A → World C S → Type 0) (E : Error → World C S → Type 0) (b : Bool)
    (m n : Method C S A) (w : World C S)
    → (b ≡ true → Ends Q E (m w))
    → (b ≡ false → Ends Q E (n w))
    → Ends Q E ((if b then m else n) w)
Ends-if Q E true m n w h k = h refl
Ends-if Q E false m n w h k = k refl

module _ (env : Env) (message : Message) (w : World Call (Unit {0})) where
  abbrev pub Handles : Unit {0} → World Call (Unit {0}) → Type 0
  Handles a v = Handled env message w.trace v.trace

  handle_envelope-Ends :
      (e : BookingEventEnvelope)
      → parse_envelope message ≡ ok e
      → Ends Handles (Failed env w) (handle_envelope env e w)
  unfolding handle_envelope
  handle_envelope-Ends e p =
      Ends-if Handles (Failed env w) (str_eq e.event_type "BookingConfirmed") confirm
        (if str_eq e.event_type "BookingCancelled" then cancel else pure tt) w
        (λ is.
          Ends-mono _ Handles (Failed env w) (Failed env w) (confirm w)
            (λ a v r. elim r [
              | inl ((n, f), q) ↦ duplicate e n p f q
              | inr (f, (rows, xs, gen, c, s)) ↦ confirmed e rows xs p ((eq_iff _ _).0 is) f gen c s
            ])
            (λ x v q. q)
            (handle_booking_confirmed-Ends env w e.event_id e.event_type e.aggregate_id
              (correlation_of e) e.event_data))
        λ isnt.
          Ends-if Handles (Failed env w) (str_eq e.event_type "BookingCancelled") cancel (pure tt) w
            (λ is.
              Ends-mono _ Handles (Failed env w) (Failed env w) (cancel w)
                (λ a v r. elim r [
                  | inl ((n, f), q) ↦ duplicate e n p f q
                  | inr (f, (xs, gone, c, s)) ↦ cancelled e xs p ((eq_iff _ _).0 is) f gone c s
                ])
                (λ x v q. q)
                (handle_booking_cancelled-Ends env w e.event_id e.event_type e.aggregate_id
                  (correlation_of e) e.event_data))
            λ isnt'. ignored e p (differs isnt) (differs isnt') (refl, refl)
    where
      confirm : Job (Unit {0})
      confirm =
          handle_booking_confirmed env e.event_id e.event_type e.aggregate_id (correlation_of e)
            e.event_data

      cancel : Job (Unit {0})
      cancel =
          handle_booking_cancelled env e.event_id e.event_type e.aggregate_id (correlation_of e)
            e.event_data

      differs : {x y : String} → str_eq x y ≡ false → x ≢ y
      differs {x} {y} n q = let same = (eq_iff x y).1 q in ground arith

  -- Whatever the database and the broker answer, a delivery that returns passed over a message that
  -- cannot be read, an event of another type or an event that is processed, and committed and sent
  -- nothing; or it committed the receipt, the expense and the mark of a confirmed booking, all in one
  -- transaction, and sent the two events after it; or it committed the mark of a cancelled booking, with its voided receipt and its
  -- cancelled expense as far as there are any, and sent one event. A delivery that throws committed
  -- and sent nothing.
  pub handle_booking_event-Ends : Ends Handles (Failed env w) (handle_booking_event env message w)
  unfolding handle_booking_event
  handle_booking_event-Ends = go (parse_envelope message) refl
    where
      go :
          (r : Result BookingEventEnvelope)
          → parse_envelope message ≡ r
          → Ends Handles
              (Failed env w)
              (elim r [ err e ↦ (ok tt, w) | ok e ↦ handle_envelope env e w ])
      go (err x) p = unread x p (refl, refl)
      go (ok e) p = handle_envelope-Ends e p
