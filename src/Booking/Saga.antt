-- ===== src/Booking/Saga.antt =====
-- booking-service/src/domain/entities: the record that a saga run keeps of its steps. The steps are
-- objects of the saga's list; a mutation of one is a mutation of the saga.
use training_travel_booking.Shared.{
  ℕ, suc, ◌+◌, String, Option, none, some, List, [], ◌∷◌, ◌++◌, ◌==◌, if◌then◌else◌,
}

pub data SagaStatus : Type 0 where
  started in_progress completed compensating compensated compensated_with_errors failed : SagaStatus

pub data StepStatus : Type 0 where
  pending in_progress completed failed compensating compensated : StepStatus

pub record BookingStep : Type 0 where
  pub id : String
  pub saga_id : String
  pub step_number : ℕ
  pub step_name : String
  pub status : StepStatus
  pub started_at : Option ℕ
  pub completed_at : Option ℕ
  pub error_message : Option String
  pub retry_count : ℕ

pub record BookingSaga : Type 0 where
  pub id : String
  pub booking_id : String
  pub status : SagaStatus
  pub current_step : ℕ
  pub steps : List BookingStep

-- `BookingStep.create`, with the generated UUID first.
unfoldable pub create_step : String → String → ℕ → String → BookingStep
create_step id saga_id step_number step_name = record {
  id = id;
  saga_id = saga_id;
  step_number = step_number;
  step_name = step_name;
  status = StepStatus.pending;
  started_at = none;
  completed_at = none;
  error_message = none;
  retry_count = 0;
}

unfoldable pub mark_in_progress : ℕ → BookingStep → BookingStep
mark_in_progress now s = record s { status = StepStatus.in_progress; started_at = some now }

unfoldable pub mark_completed : ℕ → BookingStep → BookingStep
mark_completed now s = record s { status = StepStatus.completed; completed_at = some now }

unfoldable pub mark_failed : String → BookingStep → BookingStep
mark_failed error s = record s { status = StepStatus.failed; error_message = some error }

-- `BookingSaga.create`, with the generated UUID first.
unfoldable pub create_saga : String → String → BookingSaga
create_saga id booking_id = record {
  id = id;
  booking_id = booking_id;
  status = SagaStatus.started;
  current_step = 0;
  steps = [];
}

pub step_count : List BookingStep → ℕ
step_count [] = 0
step_count (s ∷ ss) = suc (step_count ss)

unfoldable pub add_step : String → String → BookingSaga → BookingSaga
unfolding step_count create_step
add_step id step_name saga = record saga {
  status = SagaStatus.in_progress;
  steps = saga.steps ++ create_step id saga.id (step_count saga.steps + 1) step_name ∷ [];
}

-- Mutate what `steps.find((s) => s.stepNumber === stepNumber)` finds, if it finds one.
unfoldable pub on_step : ℕ → (BookingStep → BookingStep) → List BookingStep → List BookingStep
on_step n f [] = []
on_step n f (s ∷ ss) = if s.step_number == n then f s ∷ ss else s ∷ on_step n f ss

unfoldable pub mark_step_completed : ℕ → ℕ → BookingSaga → BookingSaga
unfolding on_step mark_completed
mark_step_completed now n saga = record saga {
  steps = on_step n (mark_completed now) saga.steps;
  current_step = n;
}

unfoldable pub mark_step_failed : ℕ → String → BookingSaga → BookingSaga
unfolding on_step mark_failed
mark_step_failed n error saga = record saga { steps = on_step n (mark_failed error) saga.steps }

unfoldable pub begin_compensation : BookingSaga → BookingSaga
begin_compensation saga = record saga { status = SagaStatus.compensating }

unfoldable pub mark_compensated : BookingSaga → BookingSaga
mark_compensated saga = record saga { status = SagaStatus.compensated }

unfoldable pub mark_compensated_with_errors : BookingSaga → BookingSaga
mark_compensated_with_errors saga = record saga { status = SagaStatus.compensated_with_errors }

unfoldable pub complete : BookingSaga → BookingSaga
complete saga = record saga { status = SagaStatus.completed }

unfoldable pub fail_saga : BookingSaga → BookingSaga
fail_saga saga = record saga { status = SagaStatus.failed }
