-- ===== src/Inventory/AllExpired.antt =====
-- A run of the expiry job while the database and the broker work.
use training_travel_booking.Shared.{
  String, some, true, List, [], ◌∷◌, ◌≡◌, refl, inl, inr, arith, ok,
}
use training_travel_booking.Shared.Effect.{World, answer}
use training_travel_booking.Inventory.Values.{pending}
use training_travel_booking.Inventory.Reservation.{FlightReservation}
use training_travel_booking.Inventory.Storage.{ReservationEntity}
use training_travel_booking.Inventory.Calls.{
  Call, save_row, publish, metric, reservations_expired, Env,
}
use training_travel_booking.Inventory.ExpiryJob.{map_rows, expire_all, expire_reservations}
use training_travel_booking.Inventory.Writes.{told}
use training_travel_booking.Inventory.Expiry.{
  expiry_event, IsExpiryOf, not_due, no_row, not_saved, not_sent, handled, AllHandled, none_left,
  next, map_rows-AllQuiet, expire_all-AllHandled, through_all,
}

abbrev pub AllPending : List FlightReservation → Type 0
AllPending [] = Unit
AllPending (r ∷ rs) = (r.status ≡ pending) × AllPending rs

-- One reservation after the other, each stored EXPIRED, announced and counted.
pub data AllExpired (env : Env) : List FlightReservation → List Call → List Call → Type 0 where
  all_done : {t : List Call} → AllExpired env [] t t
  then_next :
      {r : FlightReservation} {rs : List FlightReservation} {t v : List Call}
      (row : ReservationEntity)
      → IsExpiryOf env t r row
      → AllExpired env rs
          (metric reservations_expired ∷ told row (expiry_event (env.now t) r) true t)
          v
      → AllExpired env (r ∷ rs) t v

-- A database and a broker that take everything, the rows being there.
pub record IsWorking (env : Env) : Type 0 where
  pub taken : (t : List Call) → env.done t ≡ answer tt
  pub row : String → List Call → ReservationEntity
  pub there : (id : String) (t : List Call) → env.find_row id t ≡ answer (some (row id t))

module _ (env : Env) (works : IsWorking env) where
  all_expired :
      (rs : List FlightReservation) (t v : List Call)
      → AllPending rs
      → AllHandled env rs t v
      → AllExpired env rs t v
  all_expired [] t v p none_left = all_done
  all_expired (r ∷ rs) t v (p, ps) (next (not_due late) h) = elim (late p) [ ]
  all_expired (r ∷ rs) t v (p, ps) (next (no_row r' x e (inl (m, f, y))) h) =
      let there = works.there r'.id t in ground arith
  all_expired (r ∷ rs) t v (p, ps) (next (no_row r' x e (inr (f, y))) h) =
      let there = works.there r'.id t in ground arith
  all_expired (r ∷ rs) t v (p, ps) (next (not_saved row m i d) h) =
      let taken = works.taken (save_row row ∷ t) in ground arith
  all_expired (r ∷ rs) t v (p, ps) (next (not_sent row m i d) h) =
      let taken = works.taken (publish (expiry_event (env.now t) r) ∷ save_row row ∷ t) in
      ground arith
  all_expired (r ∷ rs) t v (p, ps) (next (handled row i) h) =
      then_next row i (all_expired rs _ v ps h)

-- If the database takes every write and finds a row for every id, the broker takes every event, and
-- the rows that the job finds can all be mapped and are all PENDING, then a run of the expiry job
-- returns and leaves every one of them stored EXPIRED, announced and counted.
pub expire_reservations-AllExpired :
    (env : Env) (w : World Call (Unit {0})) (rows : List ReservationEntity)
    (rs : List FlightReservation)
    → IsWorking env
    → env.find_pending_before (env.now w.trace) w.trace ≡ answer rows
    → map_rows env.decrypt rows ≡ ok rs
    → AllPending rs
    → ((expire_reservations env w).0 ≡ ok tt)
      × AllExpired env rs w.trace (expire_reservations env w).1.trace
expire_reservations-AllExpired env w rows rs works f m p =
    let run = through_all env rows rs w f m in
    let (e, h) = expire_all-AllHandled env rs w (map_rows-AllQuiet env.decrypt rows rs m) in
    rw run (refl, all_expired env works rs w.trace (expire_all env rs w).1.trace p h)
