-- ===== src/Inventory/Effects.antt =====
-- What a run of the inventory service wrote, sent and asked, told from the calls it made.
use training_travel_booking.Shared.{ℕ, zero, suc, ◌+◌, List, [], ◌∷◌}
use training_travel_booking.Inventory.Calls.{
  AmadeusRequest, Call, request, wait, save_row, publish, remember, metric,
}

-- The saves, the publications and the stored responses among the calls, the newest first.
abbrev pub effects : List Call → List Call
effects [] = []
effects (save_row e ∷ t) = save_row e ∷ effects t
effects (publish e ∷ t) = publish e ∷ effects t
effects (remember k r n ∷ t) = remember k r n ∷ effects t
effects (request r ∷ t) = effects t
effects (wait n ∷ t) = effects t
effects (metric m ∷ t) = effects t

-- The requests of Amadeus, the newest first.
abbrev pub asked : List Call → List AmadeusRequest
asked [] = []
asked (request r ∷ t) = r ∷ asked t
asked (save_row e ∷ t) = asked t
asked (publish e ∷ t) = asked t
asked (remember k r n ∷ t) = asked t
asked (wait n ∷ t) = asked t
asked (metric m ∷ t) = asked t

-- How long the service waited, in milliseconds.
abbrev pub waited : List Call → ℕ
waited [] = 0
waited (wait n ∷ t) = n + waited t
waited (save_row e ∷ t) = waited t
waited (publish e ∷ t) = waited t
waited (remember k r n ∷ t) = waited t
waited (request r ∷ t) = waited t
waited (metric m ∷ t) = waited t

-- `n` times the request before the others.
abbrev pub repeated : ℕ → AmadeusRequest → List AmadeusRequest → List AmadeusRequest
repeated zero r rs = rs
repeated (suc n) r rs = repeated n r (r ∷ rs)
