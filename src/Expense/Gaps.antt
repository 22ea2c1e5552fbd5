-- ===== src/Expense/Gaps.antt =====
-- What the consumer of booking events does not take into account, of
-- expense-service/src/infrastructure/kafka/booking-event.consumer.ts.
use training_travel_booking.Shared.{
  String, some, ◌∷◌, ◌≡◌, refl, arith, conflict, ok, err, str_eq, true, false, or_default,
}
use training_travel_booking.Shared.Effect.{World, answer}
use training_travel_booking.Expense.Receipts.{Receipt, ReceiptStatus, void_receipt}
use training_travel_booking.Expense.Calls.{Call, begin, rollback, Env}
use training_travel_booking.Expense.UseCases.{void_booking, void_found}
use training_travel_booking.Expense.Effects.{committed}
use training_travel_booking.Expense.Consumer.{
  Message, BookingEventEnvelope, parse_envelope, is_processed, transaction, cancel_rows, cancel_new,
  handle_booking_cancelled, handle_envelope, handle_booking_event,
}

module _ (env : Env) (w : World Call (Unit {0})) (e : BookingEventEnvelope) (r : Receipt) where
  abbrev begun : World Call (Unit {0})
  begun = record { state = w.state; trace = begin ∷ w.trace }

  rows_refused :
      env.find_receipt e.aggregate_id begun.trace ≡ answer (some r)
      → r.status ≡ ReceiptStatus.voided
      → cancel_rows env e.event_id e.event_type e.aggregate_id begun
        ≡ (err (conflict "Receipt is already voided" "RECEIPT_ALREADY_VOIDED"), begun)
  unfolding cancel_rows void_booking void_found void_receipt
  rows_refused f s = ground arith

  abbrev pub Refused : World Call (Unit {0})
  Refused = record { state = w.state; trace = rollback ∷ begin ∷ w.trace }

  cancel_refused :
      (c : String)
      → env.done begun.trace ≡ answer tt
      → cancel_rows env e.event_id e.event_type e.aggregate_id begun
        ≡ (err (conflict "Receipt is already voided" "RECEIPT_ALREADY_VOIDED"), begun)
      → cancel_new env e.event_id e.event_type e.aggregate_id c e.event_data w
        ≡ (err (conflict "Receipt is already voided" "RECEIPT_ALREADY_VOIDED"), Refused)
  unfolding cancel_new transaction
  cancel_refused c d f = ground arith

  handler_refused :
      (c : String)
      → env.count_processed e.event_id w.trace ≡ answer 0
      → cancel_new env e.event_id e.event_type e.aggregate_id c e.event_data w
        ≡ (err (conflict "Receipt is already voided" "RECEIPT_ALREADY_VOIDED"), Refused)
      → handle_booking_cancelled env e.event_id e.event_type e.aggregate_id c e.event_data w
        ≡ (err (conflict "Receipt is already voided" "RECEIPT_ALREADY_VOIDED"), Refused)
  unfolding handle_booking_cancelled is_processed
  handler_refused c n f = ground arith

  -- An event of a cancelled booking whose receipt is voided already, and which is not processed
  -- itself, is refused with a conflict, so that the broker delivers it again: its transaction is
  -- rolled back, and it is not marked as processed.
  pub handle_booking_event-refused :
      (m : Message)
      → parse_envelope m ≡ ok e
      → e.event_type ≡ "BookingCancelled"
      → env.count_processed e.event_id w.trace ≡ answer 0
      → env.done begun.trace ≡ answer tt
      → env.find_receipt e.aggregate_id begun.trace ≡ answer (some r)
      → r.status ≡ ReceiptStatus.voided
      → (handle_booking_event env m w
          ≡ (err (conflict "Receipt is already voided" "RECEIPT_ALREADY_VOIDED"), Refused))
        × (committed Refused.trace ≡ committed w.trace)
  unfolding handle_booking_event handle_envelope
  handle_booking_event-refused m p i n d f s =
      let c = or_default e.correlation_id "unknown" in
      let refused = handler_refused c n (cancel_refused c d (rows_refused f s)) in
      let isnt : str_eq e.event_type "BookingConfirmed" ≡ false = rw i refl in
      let is : str_eq e.event_type "BookingCancelled" ≡ true = rw i refl in (ground arith, refl)
