-- ===== src/Booking.antt =====
-- booking-service: bookings, the saga that reserves and pays, and what reacts to payment events.
pub mod Itinerary
pub mod Aggregate
pub mod Saga
pub mod Mapper
pub mod Calls
pub mod Orchestrator
pub mod Compensation
pub mod Steps
pub mod SagaRun
pub mod UseCases
pub mod PaymentEvents
pub mod Lifecycle
pub mod Storage
pub mod Placement
pub mod Cancellation
pub mod Examples
