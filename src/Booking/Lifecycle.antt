-- ===== src/Booking/Lifecycle.antt =====
-- The states of a booking under any sequence of the aggregate's methods.
use training_travel_booking.Shared.{
  ℕ, String, none, some, List, [], ◌∷◌, ◌≡◌, ◌≢◌, refl, sym, arith, Result, ok, err, true,
}
use training_travel_booking.Booking.Aggregate.{
  BookingStatus, pending, reserved, payment_processing, confirmed, cancelled, failed, is_terminal,
  Booking, CreateBookingProps, create, reserve, start_payment_processing, confirm, cancel, fail,
  update_special_requests, set_policy_validation_id,
}

-- A method call, with its arguments and the time.
pub data BookingOp : Type 0 where
  to_reserve to_pay : String → BookingOp
  to_confirm : ℕ → String → String → BookingOp
  to_cancel : ℕ → String → BookingOp
  to_fail to_request to_validate : String → BookingOp

pub apply : BookingOp → Booking → Result Booking
apply (to_reserve id) b = reserve id b
apply (to_pay id) b = start_payment_processing id b
apply (to_confirm now name email) b = confirm now name email b
apply (to_cancel now reason) b = cancel now reason b
apply (to_fail reason) b = ok (fail reason b)
apply (to_request s) b = ok (update_special_requests s b)
apply (to_validate id) b = ok (set_policy_validation_id id b)

abbrev pub keep : Booking → Result Booking → Booking
keep b (ok b') = b'
keep b (err e) = b

-- A refused call leaves the object as it was, and the caller may go on.
pub run : List BookingOp → Booking → Booking
run [] b = b
run (op ∷ ops) b = run ops (keep b (apply op b))

-- What each status says of the other fields.
pub record IsConsistent (b : Booking) : Type 0 where
  pub new_holds_nothing : b.status ≡ pending → (b.reservation_id ≡ none) × (b.payment_id ≡ none)
  pub reserved_holds : b.status ≡ reserved → (b.reservation_id ≢ none) × (b.payment_id ≡ none)
  pub paying_holds :
      b.status ≡ payment_processing → (b.reservation_id ≢ none) × (b.payment_id ≢ none)
  pub confirmed_holds :
      b.status ≡ confirmed
      → (b.reservation_id ≢ none) × (b.payment_id ≢ none) × (b.confirmed_at ≢ none)
  pub cancelled_dated : b.status ≡ cancelled → (b.cancelled_at ≢ none) × (b.cancel_reason ≢ none)
  pub failed_reasoned : b.status ≡ failed → b.cancel_reason ≢ none
  pub payment_after_reservation : b.payment_id ≢ none → b.reservation_id ≢ none
  pub confirmed_after_payment : b.confirmed_at ≢ none → b.payment_id ≢ none

create-IsConsistent : (id : String) (props : CreateBookingProps) → IsConsistent (create id props)
unfolding create
create-IsConsistent id props = ground arith

apply-IsConsistent :
    (op : BookingOp) (b : Booking) → IsConsistent b → IsConsistent (keep b (apply op b))
unfolding apply reserve start_payment_processing confirm cancel fail update_special_requests
    set_policy_validation_id
apply-IsConsistent (to_reserve id) b h = ground arith
apply-IsConsistent op b h = ground arith

run-IsConsistent : (ops : List BookingOp) (b : Booking) → IsConsistent b → IsConsistent (run ops b)
unfolding run
run-IsConsistent [] b h = h
run-IsConsistent (op ∷ ops) b h =
    run-IsConsistent ops (keep b (apply op b)) (apply-IsConsistent op b h)

-- Whatever methods are called on a new booking, in any order, refused calls included: a reserved
-- booking holds a reservation and no payment, a paying or confirmed one both, a confirmed one its
-- time, a cancelled one a time and a reason, a failed one a reason; no payment was ever started
-- without a reservation, and none confirmed without a payment.
pub run-create-IsConsistent :
    (id : String) (props : CreateBookingProps) (ops : List BookingOp)
    → IsConsistent (run ops (create id props))
run-create-IsConsistent id props ops =
    run-IsConsistent ops (create id props) (create-IsConsistent id props)

-- The moves that the aggregate lets through.
pub data Moves : BookingStatus → BookingStatus → Type 0 where
  stays : {s : BookingStatus} → Moves s s
  reserves : Moves pending reserved
  pays : Moves reserved payment_processing
  confirms : Moves payment_processing confirmed
  cancels : {s : BookingStatus} → s ≢ cancelled → Moves s cancelled
  fails : {s : BookingStatus} → Moves s failed

-- Every call moves the status along the diagram.
pub apply-Moves : (op : BookingOp) (b : Booking) → Moves b.status (keep b (apply op b)).status
unfolding apply reserve start_payment_processing confirm cancel fail update_special_requests
    set_policy_validation_id
apply-Moves (to_reserve id) b = grind (arith, stays, reserves)
apply-Moves (to_pay id) b = grind (arith, stays, pays)
apply-Moves (to_confirm now name email) b = grind (arith, stays, confirms)
apply-Moves (to_cancel now reason) b = grind (arith, stays, cancels)
apply-Moves (to_fail reason) b = fails
apply-Moves op b = stays

-- A status that the enum file lists as terminal is left all the same: a CONFIRMED or FAILED booking
-- can be cancelled, and a CONFIRMED or CANCELLED one becomes FAILED.
pub terminal_left :
    (b : Booking) (now : ℕ) (reason : String)
    → is_terminal b.status ≡ true
    → (b.status ≢ cancelled
        → (b' : Booking) × (cancel now reason b ≡ ok b') × (b'.status ≡ cancelled))
      × (((fail reason b).status ≡ failed)
          × (b.status ≢ failed → (fail reason b).status ≢ b.status))
unfolding fail cancel
terminal_left b now reason h = (
  λ n. (
    record b { status = cancelled; cancelled_at = some now; cancel_reason = some reason },
    ground arith,
    refl,
  ),
  (refl, λ n e. n (sym e)),
)
