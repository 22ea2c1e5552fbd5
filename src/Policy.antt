-- ===== src/Policy.antt =====
-- The policy service, policy-service/src: travel policies and the validation of bookings.
pub mod Rules
pub mod Validator
pub mod Verdict
pub mod Gaps
pub mod Calls
pub mod UseCases
pub mod Sources
pub mod Validation
pub mod Stored
pub mod Examples
