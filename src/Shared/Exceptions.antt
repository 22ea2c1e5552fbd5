-- ===== src/Shared/Exceptions.antt =====
-- packages/shared/src/exceptions and the exceptions of the services: what a `throw` carries. The
-- optional `context` of a DomainException only repeats values of its message and is left out.
use Prim.Native.Nat.{ℕ}
use Prim.Native.String
use Prim.Native.String.{String}
use mathlib.Core.Path.{◌≡◌, refl}
use mathlib.Core.Logic.{◌⊎◌, inl, inr}
use mathlib.Core.List.{List, [], ◌∷◌}

pub data Error : Type 0 where
  -- a DomainException: message, code, HTTP status
  domain : String → String → ℕ → Error
  -- the PolicyViolationException of the booking saga, by its violations
  policy_violation : List String → Error
  -- an HttpException of the framework: message, HTTP status
  http : String → ℕ → Error
  -- the payment service's PaymentDeclinedException: code, message
  declined : String → String → Error
  -- its StripeCircuitOpenException: message
  circuit_open : String → Error
  -- its StripeProcessingException and PaymentProcessingException: message
  processing : String → Error
  -- any other Error: message
  failure : String → Error

abbrev pub not_found : String → Error
not_found message = domain message "NOT_FOUND" 404

abbrev pub conflict : String → String → Error
conflict message code = domain message code 409

infixr 65 ◌<>◌
abbrev pub ◌<>◌ : String → String → String
a <> b = String.◌++◌ a b

-- `parts.join(', ')`
abbrev pub join_comma : List String → String
join_comma [] = ""
join_comma (x ∷ []) = x
join_comma (x ∷ y ∷ xs) = x <> ", " <> join_comma (y ∷ xs)

-- `err.message`
pub message_of : Error → String
message_of (domain message code status) = message
message_of (policy_violation violations) = "Policy validation failed: " <> join_comma violations
message_of (http message status) = message
message_of (declined code message) = message
message_of (circuit_open message) = message
message_of (processing message) = message
message_of (failure message) = message

pub data Result {ℓ} (A : Type ℓ) : Type ℓ where
  ok : A → Result A
  err : Error → Result A

module _ {A : Type 0} where
  pub Result-cases :
      (r : Result A) → ((value : A) × (r ≡ ok value)) ⊎ ((thrown : Error) × (r ≡ err thrown))
  Result-cases (ok value) = inl (value, refl)
  Result-cases (err thrown) = inr (thrown, refl)
