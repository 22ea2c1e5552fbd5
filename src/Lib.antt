-- ===== src/Lib.antt =====
-- The travel booking back end: a verification library beside the code.
--
-- The program is a set of services. The booking service (booking-service/src) takes a booking,
-- runs a saga that asks the policy service, reserves at the inventory service and authorizes and
-- captures at the payment service, and stores the booking and a row for reading. The payment service
-- (payment-service/src) keeps payments and payment methods, calls Stripe with retries behind a
-- circuit breaker, and receives Stripe's webhooks. The inventory service (inventory-service/src)
-- orders flights at Amadeus, keeps a reservation of each order until it expires or is cancelled, and
-- runs a job that expires what is due. The policy service (policy-service/src) keeps travel policies
-- with their rules and tells whether a booking breaks one. The expense service (expense-service/src)
-- hears of confirmed and cancelled bookings, and keeps a receipt and an expense of each. Modelled are
-- these five, and what they use of packages/shared/src.
--
-- How it is modelled. An async method is a function from a world to a result and a world
-- (Shared/Effect): the world holds the objects that the method changes and the calls that it made, the
-- newest first. A throw is an error value, and the world comes back beside it, so that nothing that
-- was done is lost. The database, the other services, Stripe, Amadeus, the caches, the broker, the
-- clock and the generated ids are an environment, a record of functions from the calls made so far to
-- an answer or a fault; a theorem that speaks of any environment holds however they behave, from call
-- to call. Logging is left out.
--
-- The files.
-- Shared: Tests (Booleans), Text (regular expressions of fixed length), Trim (trim and toUpperCase),
-- Numbers (JavaScript numbers, finite ones in thousandths), Doubles (how doubles round to cents), Exceptions
-- (packages/shared/src/exceptions), Checks (do blocks for results), Effect; Idempotence is a proof on
-- trimming and capitals.
-- Booking: Itinerary, Aggregate and Saga (domain), Mapper (application/mappers and
-- infrastructure/repositories), Calls (the environment), Orchestrator (application/saga: execute,
-- compensate), UseCases (application/use-cases: create_booking, cancel_booking, update_booking),
-- PaymentEvents (infrastructure/kafka/payment-event.consumer.ts). Proofs: Compensation, Steps with a
-- file per step, SagaRun, Placement, Cancellation, Lifecycle, Storage; Examples has runs.
-- Payment: Values and Aggregate (domain), Storage (infrastructure/persistence), Calls (the
-- environment), Stripe (infrastructure/stripe: withRetry), Commands and UseCases
-- (application/use-cases), Webhook (presentation/controllers). Proofs: Retry, Outcomes with Decline,
-- Authorize, Capture and Refund, Lifecycle, RoundTrip; Effects tells what a run wrote, Examples has runs.
-- Inventory: Values and Reservation (domain), Storage (infrastructure/persistence), Calls (the
-- environment), Amadeus (infrastructure/amadeus: the calls of the API with their retries), UseCases
-- (application/use-cases: create, get and cancel a reservation, with the wrapper for idempotency
-- keys), ExpiryJob (the job of infrastructure). Proofs: Lifecycle, RoundTrip, Retries, Writes,
-- Expiry, AllExpired, NewReservation, Recording, Creation, Cancellation; Effects tells what a run wrote,
-- Examples has runs.
-- Policy: Rules and Validator (domain), Calls (the environment), UseCases (application/use-cases),
-- Sources (which policies a validation can use: the store and the cache). Proofs: Verdict, Gaps,
-- Validation, Stored; Examples has runs.
-- Expense: Receipts (domain), Calls (the environment), UseCases (application/use-cases), Consumer
-- (infrastructure/kafka). Proofs: Transactions, Rows, Voids and Handlers, on which Delivery, Redelivery and
-- Gaps stand; Effects tells what a run committed and sent. Queries (application/services) with the
-- proof Access; Examples has runs.
-- Methods keep their names, in snake_case; a piece of a method has a comment that says which.
--
-- Bounds. The loops with a counter are withRetry of the payment service and _withRetry of the
-- inventory service, which recurse on the retries left, 3 at first as in the source; nothing needs
-- fuel, the other loops run over lists. Finite numbers are exact thousandths: amounts of more than three
-- decimals are not modelled. Where an amount is rounded to cents, Math.round(a * 100), the double
-- product is computed (Shared/Doubles), which is exact for amounts below ten thousand million; its
-- exponent has a fuel of 64, since the least amount with half a cent, 0.005, needs 60. Dates are milliseconds from the epoch on, none
-- before it. The database is not a copy: the amount's column of a booking keeps two decimal places, its
-- dates lose their times, the airports of a reservation may be padded, and its date of birth is what the
-- column gives; a proof that reads a row back says so. Other columns give back what was written.
--
-- Not modelled: HTTP clients and the breakers' inner states and time limits, query builders and lists,
-- controllers and guards, logging and metrics; of the inventory service the flight search with its
-- cache, the airports, the cache of the Amadeus token and the mock offers; of the policy service the
-- budgets of departments; of the expense service the pages, summaries and reports and the mapping of
-- rows; the traveler service, the API gateway and the frontend.
pub mod Shared
pub mod Booking
pub mod Payment
pub mod Inventory
pub mod Policy
pub mod Expense
