-- ===== src/Expense/Redelivery.antt =====
-- Booking events that come more than once, of
-- expense-service/src/infrastructure/kafka/booking-event.consumer.ts.
use training_travel_booking.Shared.{
  ℕ, suc, String, true, List, [], ◌∷◌, ◌++◌, ◌≡◌, ◌≢◌, refl, sym, ap, ◌∙◌, subst, ◌⊎◌, inl, inr,
  ◌↔◌, arith, Error, Result, ok, err,
}
use mathlib.Core.List.Memᴰ
use mathlib.Core.List.{Memᴰ}
use training_travel_booking.Shared.Effect.{World, answer, Ends}
use training_travel_booking.Expense.Calls.{Call, save_processed, Env}
use training_travel_booking.Expense.Consumer.{
  Message, BookingEventEnvelope, parse_envelope, is_positive, handle_booking_event,
}
use training_travel_booking.Expense.Effects.{committed, Quiet}
use training_travel_booking.Expense.Delivery.{
  Handled, unread, ignored, duplicate, confirmed, cancelled, handle_booking_event-Ends,
}

-- The mark of an event was committed.
abbrev pub IsMarked : String → List Call → Type 0
IsMarked event_id t = (name : String) × Memᴰ (save_processed event_id name) (committed t)

-- The database counts the rows of processed events, when it answers: there is one of an event
-- exactly if its mark was committed.
abbrev pub CountsProcessed : Env → Type 0
CountsProcessed env =
    (event_id : String) (t : List Call) (n : ℕ)
    → env.count_processed event_id t ≡ answer n
    → (is_positive n ≡ true) ↔ IsMarked event_id t

module _ (env : Env) where
  -- Deliveries in a row, whether they return or throw.
  abbrev pub deliver : List Message → World Call (Unit {0}) → World Call (Unit {0})
  deliver [] w = w
  deliver (m ∷ ms) w = deliver ms (handle_booking_event env m w).1

  -- What makes a message pass over at any later delivery.
  Settled : Message → List Call → Type 0
  Settled message t =
      ((x : Error) × (parse_envelope message ≡ err x))
      ⊎ ((e : BookingEventEnvelope) × (parse_envelope message ≡ ok e)
          × (((e.event_type ≢ "BookingConfirmed") × (e.event_type ≢ "BookingCancelled"))
              ⊎ IsMarked e.event_id t))

  abbrev Grows : List Call → List Call → Type 0
  Grows t v = (xs : List Call) × (committed v ≡ xs ++ committed t)

  Handled-Grows : (m : Message) (t v : List Call) → Handled env m t v → Grows t v
  Handled-Grows m t v (unread x p (c, s)) = ([], c)
  Handled-Grows m t v (ignored e p a b (c, s)) = ([], c)
  Handled-Grows m t v (duplicate e n p f (c, s)) = ([], c)
  Handled-Grows m t v (confirmed e rows xs p i f gen c s) = (xs, c)
  Handled-Grows m t v (cancelled e xs p i f gone c s) = (xs, c)

  handle-Grows :
      (m : Message) (w : World Call (Unit {0}))
      → Grows w.trace ((handle_booking_event env m w).1.trace)
  handle-Grows m w = go (handle_booking_event env m w) (handle_booking_event-Ends env m w)
    where
      go :
          (p : Result (Unit {0}) × World Call (Unit {0}))
          → Ends (λ a v. Handled env m w.trace v.trace) (λ x v. Quiet w.trace v.trace) p
          → Grows w.trace p.1.trace
      go (ok a, v) h = Handled-Grows m w.trace v.trace h
      go (err x, v) (c, s) = ([], c)

  Settled-Grows : (m : Message) (t v : List Call) → Grows t v → Settled m t → Settled m v
  unfolding Settled
  Settled-Grows m t v g (inl h) = inl h
  Settled-Grows m t v g (inr (e, p, inl h)) = inr (e, p, inl h)
  Settled-Grows m t v (xs, c) (inr (e, p, inr (name, h))) = inr (
    e,
    p,
    inr (
      name,
      subst (λ cs. Memᴰ (save_processed e.event_id name) cs) (sym c) (Memᴰ.append_right xs h),
    ),
  )

  Settled-deliver :
      (m : Message) (ms : List Message) (w : World Call (Unit {0}))
      → Settled m w.trace
      → Settled m (deliver ms w).trace
  Settled-deliver m [] w h = h
  Settled-deliver m (x ∷ ms) w h =
      Settled-deliver m ms (handle_booking_event env x w).1
        (Settled-Grows m w.trace _ (handle-Grows x w) h)

  module _ (counts : CountsProcessed env) where
    Handled-Settled : (m : Message) (t v : List Call) → Handled env m t v → Settled m v
    unfolding Settled
    Handled-Settled m t v (unread x p q) = inl (x, p)
    Handled-Settled m t v (ignored e p a b q) = inr (e, p, inl (a, b))
    Handled-Settled m t v (duplicate e n p f (c, s)) =
        let (name, h) = (counts e.event_id t (suc n) f).0 refl in
        inr (e, p, inr (name, subst (λ cs. Memᴰ (save_processed e.event_id name) cs) (sym c) h))
    Handled-Settled m t v (confirmed e rows xs p i f (n, g, r, q) c s) = inr (
      e,
      p,
      inr (
        e.event_type,
        subst (λ cs. Memᴰ (save_processed e.event_id e.event_type) cs)
            (sym (c ∙ ap (λ ys. ys ++ committed t) q)) (Memᴰ.head refl),
      ),
    )
    Handled-Settled m t v (cancelled e xs p i f (ys, g, q) c s) = inr (
      e,
      p,
      inr (
        e.event_type,
        subst (λ cs. Memᴰ (save_processed e.event_id e.event_type) cs)
            (sym (c ∙ ap (λ ys. ys ++ committed t) q)) (Memᴰ.head refl),
      ),
    )

    same_envelope :
        (m : Message) (e e' : BookingEventEnvelope)
        → parse_envelope m ≡ ok e
        → parse_envelope m ≡ ok e'
        → e ≡ e'
    same_envelope m e e' p q = ground arith

    unmarked :
        (e : BookingEventEnvelope) (t : List Call)
        → env.count_processed e.event_id t ≡ answer 0
        → ¬ IsMarked e.event_id t
    unmarked e t f h = let no = (counts e.event_id t 0 f).1 h in ground arith

    unsettled :
        (m : Message) (t : List Call) (e : BookingEventEnvelope)
        → parse_envelope m ≡ ok e
        → (e.event_type ≡ "BookingConfirmed") ⊎ (e.event_type ≡ "BookingCancelled")
        → env.count_processed e.event_id t ≡ answer 0
        → ¬ Settled m t
    unfolding Settled
    unsettled m t e p i f (inl (x, h)) = ground arith
    unsettled m t e p i f (inr (e', h, inr k)) =
        unmarked e t f (subst (λ x. IsMarked x.event_id t) (same_envelope m e' e h p) k)
    unsettled m t e p (inl i) f (inr (e', h, inl (a, b))) =
        a (ap (λ x. x.event_type) (same_envelope m e' e h p) ∙ i)
    unsettled m t e p (inr i) f (inr (e', h, inl (a, b))) =
        b (ap (λ x. x.event_type) (same_envelope m e' e h p) ∙ i)

    Settled-Quiet : (m : Message) (t v : List Call) → Settled m t → Handled env m t v → Quiet t v
    Settled-Quiet m t v s (unread x p q) = q
    Settled-Quiet m t v s (ignored e p a b q) = q
    Settled-Quiet m t v s (duplicate e n p f q) = q
    Settled-Quiet m t v s (confirmed e rows xs p i f gen c d) =
        elim (unsettled m t e p (inl i) f s) [ ]
    Settled-Quiet m t v s (cancelled e xs p i f gone c d) = elim (unsettled m t e p (inr i) f s) [ ]

    -- If the database counts the processed events, when it answers: once a delivery of a message
    -- returned, and whatever other messages are delivered after it, the same message delivered again
    -- commits and sends nothing, whether it returns or throws.
    pub handle_booking_event-deliver :
        (m : Message) (ms : List Message) (w v : World Call (Unit {0}))
        → handle_booking_event env m w ≡ (ok tt, v)
        → Quiet (deliver ms v).trace ((handle_booking_event env m (deliver ms v)).1.trace)
    handle_booking_event-deliver m ms w v returned =
        go (handle_booking_event env m (deliver ms v))
          (handle_booking_event-Ends env m (deliver ms v))
      where
        first : Handled env m w.trace v.trace
        first =
            subst
              (λ p. Ends (λ a u. Handled env m w.trace u.trace) (λ x u. Quiet w.trace u.trace) p)
              returned (handle_booking_event-Ends env m w)

        settled : Settled m (deliver ms v).trace
        settled = Settled-deliver m ms v (Handled-Settled m w.trace v.trace first)

        go :
            (p : Result (Unit {0}) × World Call (Unit {0}))
            → Ends
                (λ a u. Handled env m (deliver ms v).trace u.trace)
                (λ x u. Quiet (deliver ms v).trace u.trace)
                p
            → Quiet (deliver ms v).trace p.1.trace
        go (ok a, u) h = Settled-Quiet m (deliver ms v).trace u.trace settled h
        go (err x, u) h = h
