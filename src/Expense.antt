-- ===== src/Expense.antt =====
-- The expense service, expense-service/src: receipts and expenses of bookings, from their events.
pub mod Receipts
pub mod Calls
pub mod UseCases
pub mod Consumer
pub mod Effects
pub mod Transactions
pub mod Rows
pub mod Voids
pub mod Handlers
pub mod Delivery
pub mod Redelivery
pub mod Gaps
pub mod Queries
pub mod Access
pub mod Examples
