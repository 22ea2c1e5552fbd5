-- ===== src/Expense/Consumer.antt =====
-- expense-service/src/infrastructure/kafka: the consumer of booking events and the publisher.
-- `transaction` is TypeORM's, as documented: what its function writes is committed when it returns,
-- and rolled back when it or the commit fails, the failure thrown on. The publications are not waited
-- for and stand where they start. Logging is left out.
use training_travel_booking.Shared.{
  ℕ, zero, suc, String, Option, none, some, Bool, true, false, failure, Result, ok, err, or_default,
  str_eq, if◌then◌else◌, Number, whole,
}
use training_travel_booking.Shared.Effect.{pure, throw, ask, read, try_catch, note, ◌>>=◌, ◌>>◌}
use training_travel_booking.Expense.Receipts.{Receipt, Expense, ExpenseStatus}
use training_travel_booking.Expense.Calls.{
  ExpenseEvent, receipt_generated, expense_recorded, events_processed, receipts_generated,
  receipts_voided, messages_produced, begin, commit, rollback, save_processed, send, metric, Env,
}
use training_travel_booking.Expense.UseCases.{
  Job, BookingConfirmedData, generate_receipt, void_booking,
}

-- The data of a booking event, with the types to which the source casts its fields.
pub record EventData : Type 0 where
  pub traveler_id : String
  pub traveler_name : String
  pub traveler_email : String
  pub total_amount : Number
  pub currency : Option String
  pub origin : String
  pub destination : String
  pub departure_date : String

-- An object as it came; a field that has not the type that is tested for is none.
pub record RawEnvelope : Type 0 where
  pub event_id : Option String
  pub event_type : Option String
  pub aggregate_id : Option String
  pub correlation_id : Option String
  pub data_field : Option EventData

pub data Message : Type 0 where
  not_an_object : Message
  object : RawEnvelope → Message

pub record BookingEventEnvelope : Type 0 where
  pub event_id : String
  pub event_type : String
  pub aggregate_id : String
  pub correlation_id : Option String
  pub event_data : EventData

abbrev pub required : {A : Type 0} → Option A → String → Result A
required none message = err (failure message)
required (some a) message = ok a

unfoldable pub parse_envelope : Message → Result BookingEventEnvelope
parse_envelope not_an_object = err (failure "Message is not an object")
parse_envelope (object m) = elim m.event_id [
  | none ↦ err (failure "Missing eventId")
  | some event_id ↦ elim m.event_type [
    | none ↦ err (failure "Missing eventType")
    | some event_type ↦ elim m.aggregate_id [
      | none ↦ err (failure "Missing aggregateId")
      | some aggregate_id ↦ elim m.data_field [
        | none ↦ err (failure "Missing data")
        | some d ↦ ok record {
          event_id = event_id;
          event_type = event_type;
          aggregate_id = aggregate_id;
          correlation_id = m.correlation_id;
          event_data = d;
        }
      ]
    ]
  ]
]

-- `...(data['currency'] ? { currency } : {})`
abbrev pub given_currency : Option String → Option String
given_currency none = none
given_currency (some c) = if str_eq c "" then none else some c

abbrev pub confirmed_data : String → EventData → BookingConfirmedData
confirmed_data booking_id d = record {
  booking_id = booking_id;
  traveler_id = d.traveler_id;
  traveler_name = d.traveler_name;
  traveler_email = d.traveler_email;
  total_amount = d.total_amount;
  currency = given_currency d.currency;
  origin = d.origin;
  destination = d.destination;
  departure_date = d.departure_date;
}

abbrev pub generated_event : String → Receipt → ExpenseEvent
generated_event correlation_id r =
    receipt_generated r.id correlation_id r.booking_id r.traveler_id r.receipt_number r.amount
      r.currency

abbrev pub recorded_event : String → Expense → ExpenseEvent
recorded_event correlation_id e =
    expense_recorded e.id correlation_id e.booking_id e.traveler_id e.amount e.currency
      ExpenseStatus.active

abbrev pub voided_event : String → String → String → ExpenseEvent
voided_event correlation_id booking_id traveler_id =
    expense_recorded booking_id correlation_id booking_id traveler_id (whole 0) "USD"
      ExpenseStatus.cancelled

abbrev pub is_positive : ℕ → Bool
is_positive zero = false
is_positive (suc n) = true

module _ (env : Env) where
  -- The publisher: a failure is logged and forgotten.
  unfoldable pub publish : ExpenseEvent → Job (Unit {0})
  publish event =
      try_catch (ask {A = Unit {0}} (send event) env.done >> note (metric messages_produced))
        (λ _. pure tt)

  unfoldable pub transaction : {A : Type 0} → Job A → Job A
  transaction m =
      ask {A = Unit {0}} begin env.done
      >> try_catch (m >>= λ a. (ask {A = Unit {0}} commit env.done >> pure a))
          (λ e. (note rollback >> throw e))

  -- `exists` of the repository.
  unfoldable pub is_processed : String → Job Bool
  is_processed event_id = do count ← read (env.count_processed event_id); pure (is_positive count)

  -- What the transaction does for BookingConfirmed.
  unfoldable pub confirm_rows :
      (event_id event_type booking_id : String) → EventData → Job (Receipt × Expense)
  unfolding generate_receipt
  confirm_rows event_id event_type booking_id d = do
    rows ← generate_receipt env (confirmed_data booking_id d)
    ask {A = Unit {0}} (save_processed event_id event_type) env.done
    pure rows

  -- What it does for BookingCancelled.
  unfoldable pub cancel_rows : (event_id event_type booking_id : String) → Job (Unit {0})
  unfolding void_booking
  cancel_rows event_id event_type booking_id = do
    void_booking env booking_id
    ask (save_processed event_id event_type) env.done

  -- The rest of `handleBookingConfirmed`, for an event that is no duplicate.
  unfoldable pub confirm_new :
      (event_id event_type booking_id correlation_id : String) → EventData → Job (Unit {0})
  unfolding transaction confirm_rows publish
  confirm_new event_id event_type booking_id correlation_id d = do
    rows ← transaction (confirm_rows event_id event_type booking_id d)
    publish (generated_event correlation_id rows.0)
    publish (recorded_event correlation_id rows.1)
    note (metric receipts_generated)
    note (metric (events_processed "BookingConfirmed" "success"))

  unfoldable pub handle_booking_confirmed :
      (event_id event_type booking_id correlation_id : String) → EventData → Job (Unit {0})
  unfolding is_processed confirm_new
  handle_booking_confirmed event_id event_type booking_id correlation_id d = do
    is_duplicate ← is_processed event_id
    elim is_duplicate [
      | true ↦ note (metric (events_processed "BookingConfirmed" "duplicate"))
      | false ↦ confirm_new event_id event_type booking_id correlation_id d
    ]

  -- The rest of `handleBookingCancelled`, for an event that is no duplicate.
  unfoldable pub cancel_new :
      (event_id event_type booking_id correlation_id : String) → EventData → Job (Unit {0})
  unfolding transaction cancel_rows publish
  cancel_new event_id event_type booking_id correlation_id d = do
    transaction (cancel_rows event_id event_type booking_id)
    publish (voided_event correlation_id booking_id d.traveler_id)
    note (metric receipts_voided)
    note (metric (events_processed "BookingCancelled" "success"))

  unfoldable pub handle_booking_cancelled :
      (event_id event_type booking_id correlation_id : String) → EventData → Job (Unit {0})
  unfolding is_processed cancel_new
  handle_booking_cancelled event_id event_type booking_id correlation_id d = do
    is_duplicate ← is_processed event_id
    elim is_duplicate [
      | true ↦ note (metric (events_processed "BookingCancelled" "duplicate"))
      | false ↦ cancel_new event_id event_type booking_id correlation_id d
    ]

  -- What follows the parse: an unknown type is ignored.
  unfoldable pub handle_envelope : BookingEventEnvelope → Job (Unit {0})
  unfolding handle_booking_confirmed handle_booking_cancelled
  handle_envelope e =
      let correlation_id = or_default e.correlation_id "unknown" in
      if str_eq e.event_type "BookingConfirmed"
      then handle_booking_confirmed e.event_id e.event_type e.aggregate_id correlation_id
          e.event_data
      else if str_eq e.event_type "BookingCancelled"
      then handle_booking_cancelled e.event_id e.event_type e.aggregate_id correlation_id
          e.event_data
      else pure tt

  -- A message that cannot be read is acknowledged, so that it does not block the partition.
  unfoldable pub handle_booking_event : Message → Job (Unit {0})
  unfolding parse_envelope handle_envelope
  handle_booking_event message w = elim (parse_envelope message) [
    | err e ↦ (ok tt, w)
    | ok e ↦ handle_envelope e w
  ]
