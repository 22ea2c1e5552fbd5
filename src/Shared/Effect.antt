-- ===== src/Shared/Effect.antt =====
-- An async method of the source: it works on mutable objects (`state`), calls databases, other
-- services and the broker (`trace`, the newest call first), and returns or throws. What was done
-- before a throw stays done, so the world comes back beside the error too. What the outside
-- answers is a function of the calls made so far, so that it may change from call to call.
use mathlib.Core.Path.{◌≡◌, refl}
use mathlib.Core.Logic.{◌⊎◌, inl, inr}
use mathlib.Core.Bool.{Bool, true, false}
use mathlib.Core.List.{List, ◌∷◌}
use Prim.Native.String.{String}
use native.Mathlib.Omega.{arith}
use training_travel_booking.Shared.Exceptions.{Error, Result, ok, err, failure}

pub record World (C S : Type 0) : Type 0 where
  pub state : S
  pub trace : List C

abbrev pub Method : Type 0 → Type 0 → Type 0 → Type 0
Method C S A = World C S → Result A × World C S

-- What a remote call answers: a value, or an error with a message.
pub data Reply (A : Type 0) : Type 0 where
  answer : A → Reply A
  fault : String → Reply A

pub Reply-cases :
    {A : Type 0} (r : Reply A) → ((a : A) × (r ≡ answer a)) ⊎ ((m : String) × (r ≡ fault m))
Reply-cases (answer a) = inl (a, refl)
Reply-cases (fault m) = inr (m, refl)

abbrev pub to_result : {A : Type 0} → Reply A → Result A
to_result (answer a) = ok a
to_result (fault message) = err (failure message)

module _ {C S A : Type 0} where
  abbrev pub pure : A → Method C S A
  pure a w = (ok a, w)

  abbrev pub throw : Error → Method C S A
  throw e w = (err e, w)

  abbrev pub lift : Result A → Method C S A
  lift r w = (r, w)

  abbrev pub gets : (World C S → A) → Method C S A
  gets f w = (ok (f w), w)

  -- A call `c` of the outside, and its reply.
  abbrev pub ask : C → (List C → Reply A) → Method C S A
  ask c reply w =
      let t = c ∷ w.trace in (to_result (reply t), record { state = w.state; trace = t })

  -- A read, which leaves no mark outside.
  abbrev pub read : (List C → Reply A) → Method C S A
  read reply w = (to_result (reply w.trace), w)

  -- `try { … } catch (err) { … }`
  abbrev pub try_catch : Method C S A → (Error → Method C S A) → Method C S A
  try_catch m handler w = let (r, v) = m w in elim r [ ok a ↦ (ok a, v) | err e ↦ handler e v ]

module _ {C S : Type 0} where
  abbrev pub modify : (S → S) → Method C S (Unit {0})
  modify f w = (ok tt, record { state = f w.state; trace = w.trace })

  -- Replace the state by a computation that may throw.
  abbrev pub update : (S → Result S) → Method C S (Unit {0})
  update f w = elim (f w.state) [
    | ok s ↦ (ok tt, record { state = s; trace = w.trace })
    | err e ↦ (err e, w)
  ]

  -- A mark that cannot fail, such as a metric.
  abbrev pub note : C → Method C S (Unit {0})
  note c w = (ok tt, record { state = w.state; trace = c ∷ w.trace })

  abbrev pub when : Bool → Method C S (Unit {0}) → Method C S (Unit {0})
  when true m = m
  when false m = pure tt

module _ {C S A B : Type 0} where
  infixl 5 ◌>>=◌ ◌>>◌
  abbrev pub ◌>>=◌ : Method C S A → (A → Method C S B) → Method C S B
  ◌>>=◌ m f w = let (r, v) = m w in elim r [ ok a ↦ f a v | err e ↦ (err e, v) ]

  abbrev pub ◌>>◌ : Method C S A → Method C S B → Method C S B
  m >> n = m >>= λ _. n

-- Run a method on objects of its own; a throw becomes a value, and the objects come back.
abbrev pub scoped : {C S T A : Type 0} → T → Method C T A → Method C S (Result A × T)
scoped t m w =
    let (r, v) = m (record { state = t; trace = w.trace }) in
    (ok (r, v.state), record { state = w.state; trace = v.trace })

-- How a run ended: `Q` holds of a result, or `E` of an error.
abbrev pub Ends :
    {C S A : Type 0}
    → (A → World C S → Type 0)
    → (Error → World C S → Type 0)
    → Result A × World C S
    → Type 0
Ends Q E (ok a, w) = Q a w
Ends Q E (err e, w) = E e w

module _ {C S A B : Type 0} where
  -- A run ends well if its first part does, and what follows does from there.
  pub Ends-bind :
      (R : A → World C S → Type 0) (Q : B → World C S → Type 0) (E : Error → World C S → Type 0)
      (m : Method C S A) (f : A → Method C S B) (w : World C S)
      → Ends R E (m w)
      → ((a : A) (v : World C S) → R a v → Ends Q E (f a v))
      → Ends Q E ((m >>= f) w)
  Ends-bind R Q E m f w h k = go (m w) h
    where
      go :
          (p : Result A × World C S)
          → Ends R E p
          → Ends Q E (let (r, v) = p in elim r [ ok a ↦ f a v | err e ↦ (err e, v) ])
      go (ok a, v) h = k a v h
      go (err e, v) h = h

module _ {C S A : Type 0} where
  -- A call ends well if either of its replies makes it.
  pub Ends-ask :
      (Q : A → World C S → Type 0) (E : Error → World C S → Type 0) (c : C)
      (reply : List C → Reply A) (w : World C S)
      → ((a : A)
          → reply (c ∷ w.trace) ≡ answer a
          → Q a (record { state = w.state; trace = c ∷ w.trace }))
      → ((m : String)
          → reply (c ∷ w.trace) ≡ fault m
          → E (failure m) (record { state = w.state; trace = c ∷ w.trace }))
      → Ends Q E (ask c reply w)
  Ends-ask Q E c reply w h k = go (reply (c ∷ w.trace)) h k
    where
      v : World C S
      v = record { state = w.state; trace = c ∷ w.trace }

      go :
          (r : Reply A)
          → ((a : A) → r ≡ answer a → Q a v)
          → ((m : String) → r ≡ fault m → E (failure m) v)
          → Ends Q E (to_result r, v)
      go (answer a) h k = h a refl
      go (fault m) h k = k m refl

module _ {C S A : Type 0} where
  -- A run that ends well ends well by weaker conditions too.
  pub Ends-mono :
      (Q R : A → World C S → Type 0) (E F : Error → World C S → Type 0) (p : Result A × World C S)
      → ((a : A) (v : World C S) → Q a v → R a v)
      → ((e : Error) (v : World C S) → E e v → F e v)
      → Ends Q E p
      → Ends R F p
  Ends-mono Q R E F (ok a, v) f g h = f a v h
  Ends-mono Q R E F (err e, v) f g h = g e v h

-- An update that succeeds, and what follows.
pub update-then :
    {C S A : Type 0} (f : S → Result S) (m : Method C S A) (w : World C S) (s : S)
    → f w.state ≡ ok s
    → (update f >> m) w ≡ m (record { state = s; trace = w.trace })
update-then f m w s e = ground arith

-- A first part that returns, and what follows.
pub bind-returns :
    {C S A B : Type 0} (m : Method C S A) (f : A → Method C S B) (w : World C S) (a : A)
    (v : World C S)
    → m w ≡ (ok a, v)
    → (m >>= f) w ≡ f a v
bind-returns m f w a v e = ground arith

-- A `try` ends well if its body does, or the handler does from where the body threw.
pub Ends-catch :
    {C S A : Type 0} (Q : A → World C S → Type 0) (D E : Error → World C S → Type 0)
    (m : Method C S A) (handler : Error → Method C S A) (w : World C S)
    → Ends Q D (m w)
    → ((e : Error) (v : World C S) → D e v → Ends Q E (handler e v))
    → Ends Q E (try_catch m handler w)
Ends-catch {C} {S} {A} Q D E m handler w h k = go (m w) h
  where
    go :
        (p : Result A × World C S)
        → Ends Q D p
        → Ends Q E (let (r, v) = p in elim r [ ok a ↦ (ok a, v) | err e ↦ handler e v ])
    go (ok a, v) h = h
    go (err e, v) h = k e v h

-- A first part that throws.
pub bind-throws :
    {C S A B : Type 0} (m : Method C S A) (f : A → Method C S B) (w : World C S) (e : Error)
    (v : World C S)
    → m w ≡ (err e, v)
    → (m >>= f) w ≡ (err e, v)
bind-throws m f w e v h = ground arith

module _ {C S A B : Type 0} (Q : B → World C S → Type 0) (E : Error → World C S → Type 0) where
  -- A call, and what follows each reply.
  pub ask-then :
      (c : C) (reply : List C → Reply A) (f : A → Method C S B) (w : World C S)
      → ((a : A)
          → reply (c ∷ w.trace) ≡ answer a
          → Ends Q E (f a (record { state = w.state; trace = c ∷ w.trace })))
      → ((m : String)
          → reply (c ∷ w.trace) ≡ fault m
          → E (failure m) (record { state = w.state; trace = c ∷ w.trace }))
      → Ends Q E ((ask c reply >>= f) w)
  ask-then c reply f w h k = go (reply (c ∷ w.trace)) h k
    where
      v : World C S
      v = record { state = w.state; trace = c ∷ w.trace }

      go :
          (r : Reply A)
          → ((a : A) → r ≡ answer a → Ends Q E (f a v))
          → ((m : String) → r ≡ fault m → E (failure m) v)
          → Ends Q E (elim (to_result r) [ ok a ↦ f a v | err e ↦ (err e, v) ])
      go (answer a) h k = h a refl
      go (fault m) h k = k m refl

  -- A read, likewise.
  pub read-then :
      (reply : List C → Reply A) (f : A → Method C S B) (w : World C S)
      → ((a : A) → reply w.trace ≡ answer a → Ends Q E (f a w))
      → ((m : String) → reply w.trace ≡ fault m → E (failure m) w)
      → Ends Q E ((read reply >>= f) w)
  read-then reply f w h k = go (reply w.trace) h k
    where
      go :
          (r : Reply A)
          → ((a : A) → r ≡ answer a → Ends Q E (f a w))
          → ((m : String) → r ≡ fault m → E (failure m) w)
          → Ends Q E (elim (to_result r) [ ok a ↦ f a w | err e ↦ (err e, w) ])
      go (answer a) h k = h a refl
      go (fault m) h k = k m refl

  -- A check that may throw, likewise.
  pub lift-then :
      (r : Result A) (f : A → Method C S B) (w : World C S)
      → ((a : A) → r ≡ ok a → Ends Q E (f a w))
      → ((e : Error) → r ≡ err e → E e w)
      → Ends Q E ((lift r >>= f) w)
  lift-then (ok a) f w h k = h a refl
  lift-then (err e) f w h k = k e refl
