-- ===== src/Inventory/ExpiryJob.antt =====
-- inventory-service/src/infrastructure/jobs/reservation-expiry.job.ts, which runs every minute.
use training_travel_booking.Shared.{List, [], ◌∷◌, none, Result, ok}
use training_travel_booking.Shared.Checks as Checks
use training_travel_booking.Shared.Effect.{
  pure, gets, read, lift, update, note, scoped, ◌>>=◌, ◌>>◌,
}
use training_travel_booking.Inventory.Reservation.{FlightReservation, expire}
use training_travel_booking.Inventory.Storage.{ReservationEntity, Cipher, to_reservation}
use training_travel_booking.Inventory.Calls.{Env, metric, reservations_expired}
use training_travel_booking.Inventory.UseCases.{UseCase, OnReservation, save_and_publish}

-- The rows of `findPendingExpired` as reservations; one that cannot be mapped throws for them all.
unfoldable pub map_rows : Cipher → List ReservationEntity → Result (List FlightReservation)
map_rows decrypt [] = ok []
map_rows decrypt (e ∷ es) =
    Checks.◌>>=◌ (to_reservation decrypt e)
      λ r. Checks.◌>>=◌ (map_rows decrypt es) λ rs. ok (r ∷ rs)

module _ (env : Env) where
  -- The `try` block.
  unfoldable pub expire_item : OnReservation (Unit {0})
  expire_item = do
    at ← gets λ w. env.now w.trace
    update (expire at none none)
    save_and_publish env
    note (metric reservations_expired)

  -- The loop; what an item throws is logged and forgotten.
  unfoldable pub expire_all : List FlightReservation → UseCase (Unit {0})
  unfolding expire_item
  expire_all [] = pure tt
  expire_all (r ∷ rs) = do scoped r (expire_item); expire_all rs

  unfoldable pub expire_reservations : UseCase (Unit {0})
  unfolding map_rows expire_all
  expire_reservations = do
    at ← gets λ w. env.now w.trace
    rows ← read (env.find_pending_before at)
    rs ← lift (map_rows env.decrypt rows)
    expire_all rs
