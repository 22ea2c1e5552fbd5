-- ===== src/Inventory/Lifecycle.antt =====
-- The states of a reservation under any sequence of the aggregate's methods.
use training_travel_booking.Shared.{
  ℕ, String, Option, Bool, true, false, List, [], ◌∷◌, map, ◌≡◌, ◌⊎◌, inl, inr, arith, domain,
  Result, ok, err, Result-cases, Bool-cases, ◌<>◌,
}
use training_travel_booking.Inventory.Values.{
  ReservationStatus, pending, confirmed, cancelled, expired, status_name,
}
use training_travel_booking.Inventory.Reservation.{
  event_name, FlightReservation, confirm_reservation, cancel_flight, expire,
}

-- A method call, with the time and its arguments.
pub data ReservationOp : Type 0 where
  to_confirm : ℕ → ReservationOp
  to_cancel to_expire : ℕ → (correlation_id causation_id : Option String) → ReservationOp

unfoldable pub apply : ReservationOp → FlightReservation → Result FlightReservation
apply (to_confirm now) r = confirm_reservation now r
apply (to_cancel now c d) r = cancel_flight now c d r
apply (to_expire now c d) r = expire now c d r

abbrev pub kept : FlightReservation → Result FlightReservation → FlightReservation
kept r (ok r') = r'
kept r (err e) = r

-- The reservation after a method, by the fields that a method may change.
pub apply-same :
    (op : ReservationOp) (r r' : FlightReservation)
    → apply op r ≡ ok r'
    → record r {
      status = r'.status;
      updated_at = r'.updated_at;
      uncommitted_events = r'.uncommitted_events;
      version = r'.version;
    }
      ≡ r'
unfolding apply confirm_reservation cancel_flight expire
apply-same (to_confirm now) r r' h = ground arith
apply-same (to_cancel now c d) r r' h = ground arith
apply-same (to_expire now c d) r r' h = ground arith

-- A refused call leaves the object as it was, and the caller may go on.
pub run : List ReservationOp → FlightReservation → FlightReservation
run [] r = r
run (op ∷ ops) r = run ops (kept r (apply op r))

-- The names of the events of a reservation that is in a status.
abbrev pub story : ReservationStatus → List String
story pending = "FlightReserved" ∷ []
story confirmed = "FlightReserved" ∷ []
story cancelled = "FlightReserved" ∷ "FlightReservationCancelled" ∷ []
story expired = "FlightReserved" ∷ "FlightReservationExpired" ∷ []

abbrev pub chapters : ReservationStatus → ℕ
chapters pending = 1
chapters confirmed = 1
chapters cancelled = 2
chapters expired = 2

-- What a reservation that expires at `expires_at` keeps.
pub record IsTold (expires_at : ℕ) (r : FlightReservation) : Type 0 where
  pub told : map event_name r.uncommitted_events ≡ story r.status
  pub counted : r.version ≡ chapters r.status
  pub due : r.expires_at ≡ expires_at

-- The moves that the aggregate makes.
pub data ReservationMoves : ReservationStatus → ReservationStatus → Type 0 where
  confirms : ReservationMoves pending confirmed
  cancels : ReservationMoves pending cancelled
  cancels_confirmed : ReservationMoves confirmed cancelled
  expires : ReservationMoves pending expired

-- The status that a method leads to.
abbrev pub target : ReservationOp → ReservationStatus
target (to_confirm now) = confirmed
target (to_cancel now c d) = cancelled
target (to_expire now c d) = expired

-- A call does what the diagram has, or is refused since the diagram has no such move.
abbrev pub Follows : ReservationOp → FlightReservation → Type 0
Follows op r =
    ((r' : FlightReservation) × (apply op r ≡ ok r')
      × (r'.status ≡ target op)
      × ReservationMoves r.status r'.status)
    ⊎ ((message : String) × (apply op r ≡ err (domain message "INVALID_STATUS_TRANSITION" 422))
        × ¬ ReservationMoves r.status (target op))

abbrev has_move : ReservationStatus → ReservationStatus → Bool
has_move pending confirmed = true
has_move pending cancelled = true
has_move pending expired = true
has_move confirmed cancelled = true
has_move _ _ = false

no_move : (s t : ReservationStatus) → has_move s t ≡ false → ¬ ReservationMoves s t
no_move s t h m = clash s t m h
  where
    clash : (s t : ReservationStatus) → ReservationMoves s t → has_move s t ≡ false → ⊥
    clash pending confirmed confirms h = ground arith
    clash pending cancelled cancels h = ground arith
    clash confirmed cancelled cancels_confirmed h = ground arith
    clash pending expired expires h = ground arith
    clash pending pending x h = elim x [ ]
    clash confirmed pending x h = elim x [ ]
    clash confirmed confirmed x h = elim x [ ]
    clash confirmed expired x h = elim x [ ]
    clash cancelled t x h = elim x [ ]
    clash expired t x h = elim x [ ]

move : (s t : ReservationStatus) → has_move s t ≡ true → ReservationMoves s t
move pending confirmed h = confirms
move pending cancelled h = cancels
move pending expired h = expires
move confirmed cancelled h = cancels_confirmed
move pending pending h = ground arith
move confirmed pending h = ground arith
move confirmed confirmed h = ground arith
move confirmed expired h = ground arith
move cancelled t h = ground arith
move expired t h = ground arith

-- What a method says when it is refused.
abbrev refusal : ReservationOp → ReservationStatus → String
refusal (to_confirm now) s = "Cannot confirm reservation in status " <> status_name s
refusal (to_cancel now c d) s = "Cannot cancel reservation in status " <> status_name s
refusal (to_expire now c d) s = "Cannot expire reservation in status " <> status_name s

apply-allowed :
    (op : ReservationOp) (r : FlightReservation)
    → has_move r.status (target op) ≡ true
    → (r' : FlightReservation) × (apply op r ≡ ok r') × (r'.status ≡ target op)
unfolding apply confirm_reservation cancel_flight expire
apply-allowed (to_confirm now) r h = elim (Result-cases (confirm_reservation now r)) [
  | inl (r', e) ↦ (r', e, ground arith)
  | inr (x, e) ↦ ground arith
]
apply-allowed (to_cancel now c d) r h = elim (Result-cases (cancel_flight now c d r)) [
  | inl (r', e) ↦ (r', e, ground arith)
  | inr (x, e) ↦ ground arith
]
apply-allowed (to_expire now c d) r h = elim (Result-cases (expire now c d r)) [
  | inl (r', e) ↦ (r', e, ground arith)
  | inr (x, e) ↦ ground arith
]

apply-refused :
    (op : ReservationOp) (r : FlightReservation)
    → has_move r.status (target op) ≡ false
    → apply op r ≡ err (domain (refusal op r.status) "INVALID_STATUS_TRANSITION" 422)
unfolding apply confirm_reservation cancel_flight expire
apply-refused (to_confirm now) r h = ground arith
apply-refused (to_cancel now c d) r h = ground arith
apply-refused (to_expire now c d) r h = ground arith

-- Every method of the aggregate follows the diagram: it returns with the status that it is named
-- for exactly if there is such a move from the status before, and otherwise throws
-- INVALID_STATUS_TRANSITION.
pub apply-Follows : (op : ReservationOp) (r : FlightReservation) → Follows op r
apply-Follows op r = elim (Bool-cases (has_move r.status (target op))) [
  | inl h ↦
      let (r', e, status) = apply-allowed op r h in
      inl (r', e, status, rw status (move r.status (target op) h))
  | inr h ↦ inr (refusal op r.status, apply-refused op r h, no_move r.status (target op) h)
]
