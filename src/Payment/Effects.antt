-- ===== src/Payment/Effects.antt =====
-- What a run of the payment service wrote and sent, told from the calls it made.
use training_travel_booking.Shared.{ℕ, suc, ◌+◌, List, [], ◌∷◌}
use training_travel_booking.Payment.Calls.{
  Call, save_payment, save_method, fire, wait, publish, metric,
}

-- The saves and the publications among the calls, the newest first.
abbrev pub effects : List Call → List Call
effects [] = []
effects (save_payment p ∷ t) = save_payment p ∷ effects t
effects (save_method m ∷ t) = save_method m ∷ effects t
effects (publish e ∷ t) = publish e ∷ effects t
effects (fire r ∷ t) = effects t
effects (wait n ∷ t) = effects t
effects (metric m ∷ t) = effects t

-- How often Stripe was called.
abbrev pub fires : List Call → ℕ
fires [] = 0
fires (fire r ∷ t) = suc (fires t)
fires (save_payment p ∷ t) = fires t
fires (save_method m ∷ t) = fires t
fires (publish e ∷ t) = fires t
fires (wait n ∷ t) = fires t
fires (metric m ∷ t) = fires t

-- How long the service waited, in milliseconds.
abbrev pub waited : List Call → ℕ
waited [] = 0
waited (wait n ∷ t) = n + waited t
waited (save_payment p ∷ t) = waited t
waited (save_method m ∷ t) = waited t
waited (publish e ∷ t) = waited t
waited (fire r ∷ t) = waited t
waited (metric m ∷ t) = waited t
