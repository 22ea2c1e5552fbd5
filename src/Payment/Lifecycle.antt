-- ===== src/Payment/Lifecycle.antt =====
-- The states of a payment under any sequence of the aggregate's methods.
use training_travel_booking.Shared.{
  ℕ, suc, ◌+◌, String, Option, none, some, List, [], ◌∷◌, ◌++◌, ◌≡◌, ◌≢◌, refl, inl, inr, arith,
  Number, geb_number, Result, ok, err, Bool, true, false, Bool-cases, Result-cases,
}
use training_travel_booking.Payment.Values.{new_money}
use training_travel_booking.Payment.Aggregate.{
  PaymentStatus, pending, authorized, captured, failed, refunded, partially_refunded, cancelled,
  PaymentEvent, Payment, CreatePaymentProps, create_payment, authorize, mark_captured,
  mark_refunded, mark_failed, mark_cancelled,
}

-- A method call, with the time and its arguments.
pub data PaymentOp : Type 0 where
  to_authorize : ℕ → String → Option String → PaymentOp
  to_capture : ℕ → Number → Option String → PaymentOp
  to_refund : ℕ → Number → String → Option String → PaymentOp
  to_fail : ℕ → String → Option String → PaymentOp
  to_cancel : ℕ → PaymentOp

pub apply : PaymentOp → Payment → Result Payment
apply (to_authorize now intent c) p = authorize now intent c p
apply (to_capture now amount c) p = mark_captured now amount c p
apply (to_refund now amount reason c) p = mark_refunded now amount reason c p
apply (to_fail now reason c) p = mark_failed now reason c p
apply (to_cancel now) p = mark_cancelled now p

abbrev pub keep : Payment → Result Payment → Payment
keep p (ok p') = p'
keep p (err e) = p

-- A refused call leaves the object as it was, and the caller may go on.
pub run : List PaymentOp → Payment → Payment
run [] p = p
run (op ∷ ops) p = run ops (keep p (apply op p))

pub event_count : List PaymentEvent → ℕ
event_count [] = 0
event_count (e ∷ es) = suc (event_count es)

-- Whether a refund, if there is one, is at least the amount.
abbrev pub covers : Option Number → Number → Option Bool
covers none amount = none
covers (some a) amount = some (geb_number a amount)

-- What each status says of the other fields.
pub record IsConsistent (p : Payment) : Type 0 where
  pub pending_alone : p.status ≡ pending → p.stripe_payment_intent_id ≡ none
  pub authorized_holds : p.status ≡ authorized → p.stripe_payment_intent_id ≢ none
  pub captured_holds :
      p.status ≡ captured → (p.stripe_payment_intent_id ≢ none) × (p.captured_amount ≢ none)
  pub refunded_whole :
      p.status ≡ refunded
      → (p.captured_amount ≢ none) × (covers p.refunded_amount p.money.amount ≡ some true)
  pub refunded_in_part :
      p.status ≡ partially_refunded
      → (p.captured_amount ≢ none) × (covers p.refunded_amount p.money.amount ≡ some false)
  pub failed_reasoned : p.status ≡ failed → (p.failure_reason ≢ none) × (p.captured_amount ≡ none)
  pub cancelled_held :
      p.status ≡ cancelled → (p.stripe_payment_intent_id ≢ none) × (p.captured_amount ≡ none)
  pub captured_late : p.status ≡ pending → p.captured_amount ≡ none
  pub authorized_uncaptured : p.status ≡ authorized → p.captured_amount ≡ none

event_count-snoc :
    (es : List PaymentEvent) (e : PaymentEvent) → event_count (es ++ e ∷ []) ≡ event_count es + 1
unfolding event_count
event_count-snoc [] e = refl
event_count-snoc (x ∷ es) e = let ih = event_count-snoc es e in omega arith

apply-IsConsistent :
    (op : PaymentOp) (p : Payment) → IsConsistent p → IsConsistent (keep p (apply op p))
unfolding apply authorize mark_captured mark_refunded mark_failed mark_cancelled
apply-IsConsistent (to_authorize now intent c) p h = ground arith
apply-IsConsistent (to_capture now amount c) p h = ground arith
apply-IsConsistent (to_refund now amount reason c) p h =
    elim (Bool-cases (geb_number amount p.money.amount)) [
      | inl whole ↦ ground arith
      | inr part ↦ ground arith
    ]
apply-IsConsistent (to_fail now reason c) p h = ground arith
apply-IsConsistent (to_cancel now) p h = ground arith

-- The version counts the events that wait.
abbrev Counted : Payment → Type 0
Counted p = p.version ≡ event_count p.uncommitted_events

apply-Counted : (op : PaymentOp) (p : Payment) → Counted p → Counted (keep p (apply op p))
unfolding apply authorize mark_captured mark_refunded mark_failed mark_cancelled
apply-Counted (to_authorize now intent c) p h = grind (arith, event_count-snoc)
apply-Counted (to_capture now amount c) p h = grind (arith, event_count-snoc)
apply-Counted (to_refund now amount reason c) p h = grind (arith, event_count-snoc)
apply-Counted (to_fail now reason c) p h = grind (arith, event_count-snoc)
apply-Counted (to_cancel now) p h = ground arith

run-holds :
    (ops : List PaymentOp) (p : Payment)
    → IsConsistent p
    → Counted p
    → IsConsistent (run ops p) × Counted (run ops p)
unfolding run
run-holds [] p h c = (h, c)
run-holds (op ∷ ops) p h c =
    run-holds ops (keep p (apply op p)) (apply-IsConsistent op p h) (apply-Counted op p c)

created-holds :
    (id : String) (now : ℕ) (props : CreatePaymentProps) (p : Payment)
    → create_payment id now props ≡ ok p
    → IsConsistent p × Counted p
unfolding create_payment event_count
created-holds id now props p h = elim (Result-cases (new_money props.amount props.currency)) [
  | inl (m, e) ↦ ground arith
  | inr (x, e) ↦ ground arith
]

-- Whatever methods are called on a new payment, in any order, refused calls included: it is
-- authorized, captured or cancelled only with an intent of Stripe, refunded only after a capture,
-- REFUNDED exactly if the refund reaches its amount and PARTIALLY_REFUNDED if it does not, failed or
-- cancelled only if nothing was captured; and its version counts the events that wait.
pub run-create_payment-IsConsistent :
    (id : String) (now : ℕ) (props : CreatePaymentProps) (p : Payment) (ops : List PaymentOp)
    → create_payment id now props ≡ ok p
    → IsConsistent (run ops p) × ((run ops p).version ≡ event_count (run ops p).uncommitted_events)
run-create_payment-IsConsistent id now props p ops h =
    let (fine, counted) = created-holds id now props p h in run-holds ops p fine counted

-- The moves that the aggregate lets through.
pub data PaymentMoves : PaymentStatus → PaymentStatus → Type 0 where
  stays : {s : PaymentStatus} → PaymentMoves s s
  authorizes : PaymentMoves pending authorized
  captures : PaymentMoves authorized captured
  refunds : PaymentMoves captured refunded
  refunds_part : PaymentMoves captured partially_refunded
  fails : PaymentMoves pending failed
  fails_late : PaymentMoves authorized failed
  cancels : PaymentMoves authorized cancelled

-- Every call moves the status along the diagram, or leaves the payment as it is.
pub apply-PaymentMoves :
    (op : PaymentOp) (p : Payment) → PaymentMoves p.status (keep p (apply op p)).status
unfolding apply authorize mark_captured mark_refunded mark_failed mark_cancelled
apply-PaymentMoves (to_authorize now intent c) p = grind (arith, stays, authorizes)
apply-PaymentMoves (to_capture now amount c) p = grind (arith, stays, captures)
apply-PaymentMoves (to_refund now amount reason c) p = grind (arith, stays, refunds, refunds_part)
apply-PaymentMoves (to_fail now reason c) p = grind (arith, stays, fails, fails_late)
apply-PaymentMoves (to_cancel now) p = grind (arith, stays, cancels)

abbrev pub is_final : PaymentStatus → Bool
is_final pending = false
is_final authorized = false
is_final captured = false
is_final _ = true

-- A payment that is failed, cancelled, or refunded in whole or in part refuses every method; so it
-- is never refunded twice.
pub apply-is_final :
    (op : PaymentOp) (p : Payment) → is_final p.status ≡ true → (p' : Payment) → apply op p ≢ ok p'
unfolding apply authorize mark_captured mark_refunded mark_failed mark_cancelled
apply-is_final (to_authorize now intent c) p h p' e = ground arith
apply-is_final (to_capture now amount c) p h p' e = ground arith
apply-is_final (to_refund now amount reason c) p h p' e = ground arith
apply-is_final (to_fail now reason c) p h p' e = ground arith
apply-is_final (to_cancel now) p h p' e = ground arith
