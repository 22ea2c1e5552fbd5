-- ===== src/Policy/Validator.antt =====
-- policy-service/src/domain/services/policy-validator.domain-service.ts. How a number is printed in
-- a message is a parameter, `show`. Lengths count characters.
use training_travel_booking.Shared.{
  ℕ, suc, String, Option, none, some, Bool, true, false, not, ◌&&◌, ◌||◌, List, [], ◌∷◌, ◌++◌,
  Number, ltb_number, ◌==◌, str_eq, includes, or_default, if◌then◌else◌, ◌<>◌,
}
use training_travel_booking.Shared.Trim.{to_upper_case}
use training_travel_booking.Shared.Exceptions.{join_comma}
use training_travel_booking.Policy.Rules.{
  PolicyViolation, error, warning, PolicyRules, TravelPolicy,
}

pub record PolicyValidationRequest : Type 0 where
  pub traveler_id : String
  pub amount : Number
  pub cabin_class : Option String
  pub origin : Option String
  pub destination : Option String
  pub advance_booking_days : Option Number

pub record ValidationResult : Type 0 where
  pub valid : Bool
  pub violations : List PolicyViolation
  pub requires_approval : Bool

abbrev pub pass : Bool → ValidationResult
pass requires_approval = record {
  valid = true;
  violations = [];
  requires_approval = requires_approval;
}

abbrev pub fail_with : List PolicyViolation → Bool → ValidationResult
fail_with violations requires_approval = record {
  valid = false;
  violations = violations;
  requires_approval = requires_approval;
}

-- `a > limit`, which is false for a limit that is not there.
abbrev pub exceeds : Number → Option Number → Bool
exceeds a none = false
exceeds a (some limit) = ltb_number limit a

-- `a < least`, likewise.
abbrev pub falls_short : Number → Option Number → Bool
falls_short a none = false
falls_short a (some least) = ltb_number a least

unfoldable pub text_length : String → ℕ
text_length String.[] = 0
text_length (String.◌∷◌ c s) = suc (text_length s)

-- A number of a message that is there.
abbrev pub shown : (Number → String) → Option Number → String
shown show none = "undefined"
shown show (some n) = show n

abbrev pub cabin_violation : String → List String → PolicyViolation
cabin_violation c allowed = record {
  rule = "cabinClass";
  severity = error;
  message = "Cabin class \"" <> c <> "\" is not allowed. Allowed: " <> join_comma allowed;
}

abbrev pub cost_violation : (Number → String) → Number → Option Number → PolicyViolation
cost_violation show amount limit = record {
  rule = "maxFlightCost";
  severity = error;
  message = "Amount " <> show amount <> " exceeds maximum allowed flight cost " <> shown show limit;
}

abbrev pub advance_violation : (Number → String) → Number → Option Number → PolicyViolation
advance_violation show days least = record {
  rule = "advanceBookingDays";
  severity = error;
  message = "Advance booking days " <> show days <> " is below the minimum of " <> shown show least;
}

abbrev pub international_violation : PolicyViolation
international_violation = record {
  rule = "allowInternational";
  severity = warning;
  message = "International travel may not be permitted under this policy";
}

-- Rule 1.
unfoldable pub check_cabin : PolicyValidationRequest → PolicyRules → List PolicyViolation
check_cabin request rules = elim request.cabin_class [
  | none ↦ []
  | some c ↦
      if not (includes rules.allowed_cabin_classes c)
      then cabin_violation c rules.allowed_cabin_classes ∷ []
      else []
]

-- Rule 2.
unfoldable pub check_cost :
    (Number → String) → PolicyValidationRequest → PolicyRules → List PolicyViolation
check_cost show request rules =
    if exceeds request.amount rules.max_flight_cost
    then cost_violation show request.amount rules.max_flight_cost ∷ []
    else []

-- Rule 3.
unfoldable pub check_advance :
    (Number → String) → PolicyValidationRequest → PolicyRules → List PolicyViolation
check_advance show request rules = elim request.advance_booking_days [
  | none ↦ []
  | some days ↦
      if falls_short days rules.advance_booking_days
      then advance_violation show days rules.advance_booking_days ∷ []
      else []
]

unfoldable pub is_likely_international : PolicyValidationRequest → Bool
unfolding text_length to_upper_case
is_likely_international request =
    let origin = or_default request.origin "" in
    let destination = or_default request.destination "" in
    text_length origin == 2
    && text_length destination == 2
    && not (str_eq (to_upper_case origin) (to_upper_case destination))

-- A flag that is absent counts as false.
abbrev pub is_set : Option Bool → Bool
is_set flag = or_default flag false

-- Rule 4.
unfoldable pub check_international : PolicyValidationRequest → PolicyRules → List PolicyViolation
unfolding is_likely_international
check_international request rules =
    if not (is_set rules.allow_international) && is_likely_international request
    then international_violation ∷ []
    else []

unfoldable pub needs_approval : PolicyValidationRequest → PolicyRules → Bool
needs_approval request rules =
    is_set rules.requires_approval || exceeds request.amount rules.approval_threshold

-- The violations, in the order in which they are pushed.
unfoldable pub violations_of :
    (Number → String) → PolicyValidationRequest → PolicyRules → List PolicyViolation
violations_of show request rules =
    check_cabin request rules
    ++ (check_cost show request rules
        ++ (check_advance show request rules ++ check_international request rules))

abbrev pub concluded : List PolicyViolation → Bool → ValidationResult
concluded [] requires_approval = pass requires_approval
concluded (v ∷ vs) requires_approval = fail_with (v ∷ vs) requires_approval

unfoldable pub validate :
    (Number → String) → PolicyValidationRequest → Option TravelPolicy → ValidationResult
validate show request none = pass false
validate show request (some policy) =
    concluded (violations_of show request policy.rules) (needs_approval request policy.rules)
