-- ===== src/Payment.antt =====
-- payment-service/src.
pub mod Values
pub mod Aggregate
pub mod Storage
pub mod Calls
pub mod Stripe
pub mod Commands
pub mod UseCases
pub mod Webhook
pub mod Lifecycle
pub mod Effects
pub mod Retry
pub mod Outcomes
pub mod RoundTrip
pub mod Examples
