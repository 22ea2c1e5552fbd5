-- ===== src/Policy/Rules.antt =====
-- policy-service/src/domain/value-objects and domain/aggregates/travel-policy.aggregate.ts. What the
-- types of the source call always there may be absent all the same, since an update takes rules of
-- which each field is optional: a number or a flag that is absent is none.
use training_travel_booking.Shared.{
  ℕ, ◌+◌, String, Option, none, some, Bool, true, false, List, [], ◌∷◌, Number, Result, ok, err,
  domain, failure, includes, or_default, if◌then◌else◌, ◌<>◌,
}
use training_travel_booking.Shared.Checks.{◌>>=◌}

-- `Object.values(CabinClass)`
abbrev pub valid_cabin_classes : List String
valid_cabin_classes = "ECONOMY" ∷ "PREMIUM_ECONOMY" ∷ "BUSINESS" ∷ "FIRST" ∷ []

pub data Severity : Type 0 where
  error warning : Severity

pub record PolicyViolation : Type 0 where
  pub rule : String
  pub severity : Severity
  pub message : String

-- What a caller gives, or a row has.
pub record PolicyRulesProps : Type 0 where
  pub max_flight_cost : Option Number
  pub allowed_cabin_classes : Option (List String)
  pub advance_booking_days : Option Number
  pub requires_approval : Option Bool
  pub approval_threshold : Option Number
  pub allow_international : Option Bool

-- The object, whose cabin classes are there.
pub record PolicyRules : Type 0 where
  pub max_flight_cost : Option Number
  pub allowed_cabin_classes : List String
  pub advance_booking_days : Option Number
  pub requires_approval : Option Bool
  pub approval_threshold : Option Number
  pub allow_international : Option Bool

-- The loop of the constructor.
unfoldable pub check_cabin_classes : List String → Result (Unit {0})
check_cabin_classes [] = ok tt
check_cabin_classes (c ∷ cs) =
    let rest = check_cabin_classes cs in
    if includes valid_cabin_classes c
    then rest
    else err (domain ("Invalid cabin class: \"" <> c <> "\"") "INVALID_CABIN_CLASS" 400)

-- The constructor of PolicyRules.
unfoldable pub new_rules : PolicyRulesProps → Result PolicyRules
unfolding check_cabin_classes
new_rules props = elim props.allowed_cabin_classes [
  | none ↦ err (failure "props.allowedCabinClasses is not iterable")
  | some cs ↦ (do
    checked ← check_cabin_classes cs
    ok (record {
      max_flight_cost = props.max_flight_cost;
      allowed_cabin_classes = cs;
      advance_booking_days = props.advance_booking_days;
      requires_approval = props.requires_approval;
      approval_threshold = props.approval_threshold;
      allow_international = props.allow_international;
    }))
]

unfoldable pub to_plain : PolicyRules → PolicyRulesProps
to_plain r = record {
  max_flight_cost = r.max_flight_cost;
  allowed_cabin_classes = some r.allowed_cabin_classes;
  advance_booking_days = r.advance_booking_days;
  requires_approval = r.requires_approval;
  approval_threshold = r.approval_threshold;
  allow_international = r.allow_international;
}

-- `TravelPolicyProps`, with rules of the type `R`: the object's, or those of a row.
pub record PolicyOf (R : Type 0) : Type 0 where
  pub id : String
  pub name : String
  pub description : Option String
  pub department : String
  pub rules : R
  pub active : Bool
  pub created_by : String
  pub version : ℕ
  pub created_at : ℕ
  pub updated_at : ℕ

abbrev pub TravelPolicy : Type 0
TravelPolicy = PolicyOf PolicyRules

abbrev pub PolicyRow : Type 0
PolicyRow = PolicyOf PolicyRulesProps

pub record CreatePolicyProps : Type 0 where
  pub name : String
  pub description : Option String
  pub department : String
  pub rules : PolicyRulesProps

pub record UpdatePolicyProps : Type 0 where
  pub name : Option String
  pub description : Option String
  pub rules : Option PolicyRulesProps
  pub active : Option Bool

-- `TravelPolicy.create`, with the generated UUID and the time first.
unfoldable pub create_travel_policy : String → ℕ → CreatePolicyProps → String → Result TravelPolicy
create_travel_policy id now props created_by = do
  rules ← new_rules props.rules
  ok (record {
    id = id;
    name = props.name;
    description = props.description;
    department = props.department;
    rules = rules;
    active = true;
    created_by = created_by;
    version = 0;
    created_at = now;
    updated_at = now;
  })

abbrev pub description_after : Option String → Option String → Option String
description_after none old = old
description_after (some d) old = some d

-- The rules after an update: the old ones, or new ones in their place.
abbrev pub rules_after : Option PolicyRulesProps → PolicyRules → Result PolicyRules
rules_after none old = ok old
rules_after (some props) old = new_rules props

-- `update`. When the new rules are refused, the name and the description of the object have changed
-- already, which no caller looks at.
unfoldable pub update_travel_policy : ℕ → UpdatePolicyProps → TravelPolicy → Result TravelPolicy
update_travel_policy now props p = do
  rules ← rules_after props.rules p.rules
  ok (record p {
    name = or_default props.name p.name;
    description = description_after props.description p.description;
    rules = rules;
    active = or_default props.active p.active;
    version = p.version + 1;
    updated_at = now;
  })

unfoldable pub deactivate_policy : ℕ → TravelPolicy → TravelPolicy
deactivate_policy now p = record p { active = false; version = p.version + 1; updated_at = now }

-- `toDomain` of the repository and of the cache, and `toEntity` of the repository.
unfoldable pub row_to_policy : PolicyRow → Result TravelPolicy
row_to_policy e = do
  rules ← new_rules e.rules
  ok (record {
    id = e.id;
    name = e.name;
    description = e.description;
    department = e.department;
    rules = rules;
    active = e.active;
    created_by = e.created_by;
    version = e.version;
    created_at = e.created_at;
    updated_at = e.updated_at;
  })

unfoldable pub policy_to_row : TravelPolicy → PolicyRow
unfolding to_plain
policy_to_row p = record {
  id = p.id;
  name = p.name;
  description = p.description;
  department = p.department;
  rules = to_plain p.rules;
  active = p.active;
  created_by = p.created_by;
  version = p.version;
  created_at = p.created_at;
  updated_at = p.updated_at;
}
