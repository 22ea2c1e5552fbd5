-- ===== src/Policy/Examples.antt =====
-- Runs of the policy service at concrete inputs.
use training_travel_booking.Shared.{
  String, none, some, true, false, List, [], ◌∷◌, ◌≡◌, ◌≢◌, refl, ◌↔◌, Number, whole, ok, arith,
}
use mathlib.Core.List.{Memᴰ}
use training_travel_booking.Shared.Effect.{World, answer, fault}
use training_travel_booking.Shared.Text.{ThreeCapitals}
use training_travel_booking.Policy.Rules.{
  PolicyRulesProps, PolicyRules, PolicyViolation, TravelPolicy, CreatePolicyProps,
  UpdatePolicyProps, check_cabin_classes, new_rules, update_travel_policy, policy_to_row,
}
use training_travel_booking.Policy.Validator.{
  PolicyValidationRequest, cabin_violation, violations_of, check_cabin, check_cost, check_advance,
  check_international, is_likely_international, text_length, validate,
}
use training_travel_booking.Policy.Verdict.{Breaks, NeedsApproval, validate-Breaks}
use training_travel_booking.Policy.Gaps.{
  allowing_international, validate-allowing_international, validate-update_travel_policy,
}
use training_travel_booking.Policy.Calls.{Call, Env, save_failed}
use training_travel_booking.Policy.Stored.{PolicyOp, to_update, to_deactivate}

abbrev shown_as : Number → String
shown_as n = "n"

abbrev strict : PolicyRulesProps
strict = record {
  max_flight_cost = some (whole 500);
  allowed_cabin_classes = some ("ECONOMY" ∷ []);
  advance_booking_days = some (whole 7);
  requires_approval = some false;
  approval_threshold = some (whole 300);
  allow_international = some false;
}

abbrev economy_only : PolicyRulesProps
economy_only = record {
  max_flight_cost = none;
  allowed_cabin_classes = some ("ECONOMY" ∷ []);
  advance_booking_days = none;
  requires_approval = none;
  approval_threshold = none;
  allow_international = none;
}

abbrev made_of : PolicyRulesProps → PolicyRules
made_of props = record {
  max_flight_cost = props.max_flight_cost;
  allowed_cabin_classes = "ECONOMY" ∷ [];
  advance_booking_days = props.advance_booking_days;
  requires_approval = props.requires_approval;
  approval_threshold = props.approval_threshold;
  allow_international = props.allow_international;
}

abbrev sales_props : CreatePolicyProps
sales_props = record { name = "Sales"; description = none; department = "sales"; rules = strict }

abbrev sales : TravelPolicy
sales = record {
  id = "p1";
  name = "Sales";
  description = none;
  department = "sales";
  rules = made_of strict;
  active = true;
  created_by = "admin";
  version = 0;
  created_at = 5;
  updated_at = 5;
}

abbrev trip : PolicyValidationRequest
trip = record {
  traveler_id = "t1";
  amount = whole 900;
  cabin_class = some "FIRST";
  origin = some "LHR";
  destination = some "JFK";
  advance_booking_days = some (whole 30);
}

validate-Breaks_example :
    ((v : PolicyViolation)
      → Memᴰ v (validate shown_as trip (some sales)).violations
        ↔ Breaks shown_as trip sales.rules v)
    × (((validate shown_as trip (some sales)).valid ≡ true)
        ↔ ((v : PolicyViolation) → ¬ Breaks shown_as trip sales.rules v))
    × (((validate shown_as trip (some sales)).requires_approval ≡ true)
        ↔ NeedsApproval trip sales.rules)
validate-Breaks_example = validate-Breaks shown_as trip sales

heathrow : ThreeCapitals "LHR"
heathrow = record {
  first = b'L';
  second = b'H';
  third = b'R';
  spelled = refl;
  first_capital = (omega arith, omega arith);
  second_capital = (omega arith, omega arith);
  third_capital = (omega arith, omega arith);
}

validate-allowing_international_example :
    validate shown_as trip (some sales)
    ≡ validate shown_as trip (some (allowing_international sales))
validate-allowing_international_example =
    validate-allowing_international shown_as trip sales "LHR" refl heathrow

abbrev loosening : UpdatePolicyProps
loosening = record { name = none; description = none; rules = some economy_only; active = none }

abbrev loosened : TravelPolicy
loosened = record sales { rules = made_of economy_only; version = 1; updated_at = 6 }

update_accepted : update_travel_policy 6 loosening sales ≡ ok loosened
unfolding update_travel_policy new_rules check_cabin_classes
update_accepted = refl

first_refused :
    Memᴰ
      (cabin_violation "FIRST" ("ECONOMY" ∷ []))
      (validate shown_as trip (some loosened)).violations
unfolding validate violations_of check_cabin check_cost check_advance check_international
    is_likely_international text_length
first_refused = Memᴰ.head refl

validate-update_travel_policy_example :
    (cabin_violation "FIRST" ("ECONOMY" ∷ [])).rule ≢ "maxFlightCost"
validate-update_travel_policy_example =
    validate-update_travel_policy shown_as trip 6 loosening economy_only sales loosened
      (cabin_violation "FIRST" ("ECONOMY" ∷ [])) refl refl update_accepted first_refused

-- Redis and the traveler service are down.
abbrev lonely : Env
lonely = record {
  now = λ t. 7;
  uuid = λ t. "p1";
  show = shown_as;
  find_cached_department = λ id t. fault "down";
  find_cached_policies = λ d t. fault "down";
  traveler_reply = λ id t. fault "down";
  find_active = λ d t. answer (policy_to_row sales ∷ []);
  find_all = λ d a t. answer [];
  find_policy = λ id t. answer none;
  save_reply = λ t. save_failed "down";
  done = λ t. answer tt;
}

abbrev at_rest : World Call (Unit {0})
at_rest = record { state = tt; trace = [] }

abbrev history : List PolicyOp
history = to_update 6 loosening ∷ to_deactivate 7 ∷ []
