-- ===== src/Inventory.antt =====
-- The inventory service, inventory-service/src: reservations of flights.
pub mod Values
pub mod Reservation
pub mod Storage
pub mod Calls
pub mod Amadeus
pub mod UseCases
pub mod ExpiryJob
pub mod Lifecycle
pub mod RoundTrip
pub mod Effects
pub mod Retries
pub mod Writes
pub mod Expiry
pub mod AllExpired
pub mod NewReservation
pub mod Recording
pub mod Creation
pub mod Cancellation
pub mod Examples
