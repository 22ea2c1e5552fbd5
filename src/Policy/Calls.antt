-- ===== src/Policy/Calls.antt =====
-- What the policy service calls: its database, Redis, the traveler service through a circuit
-- breaker, the broker, the metrics. What they answer is that of an environment, each answer a
-- function of the calls made so far, the call that is answered included.
use training_travel_booking.Shared.{ℕ, String, Option, Bool, List, Number}
use training_travel_booking.Shared.Effect.{Reply}
use training_travel_booking.Policy.Rules.{PolicyViolation, PolicyRow}

-- `PolicyViolationRecord`, as the row that is stored.
pub record PolicyViolationRecord : Type 0 where
  pub policy_id : Option String
  pub traveler_id : String
  pub booking_ref : Option String
  pub violations : List PolicyViolation
  pub requires_approval : Bool

-- The events of the topic policy-events, each with its traveler and its correlation id.
pub data PolicyEvent : Type 0 where
  policy_validated :
      (traveler_id correlation_id : String) → (policy_id : Option String) → PolicyEvent
  policy_violation_detected :
      (traveler_id correlation_id policy_id : String)
      → List PolicyViolation
      → (requires_approval : Bool) → PolicyEvent

pub data Metric : Type 0 where
  cache_hit cache_miss : (cache : String) → Metric
  validations_total : (result : String) → Metric

pub data Call : Type 0 where
  -- traveler, department, seconds to live
  cache_department : String → String → ℕ → Call
  -- department, policies, seconds to live
  cache_policies : String → List PolicyRow → ℕ → Call
  drop_policies : (department : String) → Call
  save_violation : PolicyViolationRecord → Call
  save_policy : PolicyRow → Call
  delete_policy : (id : String) → Call
  publish : PolicyEvent → Call
  metric : Metric → Call

-- How the save of a policy ends: with the row, refused for a unique key, or failed.
pub data SaveReply : Type 0 where
  saved : PolicyRow → SaveReply
  duplicate_key : (message : String) → SaveReply
  save_failed : (message : String) → SaveReply

pub record Env : Type 0 where
  pub now : List Call → ℕ
  pub uuid : List Call → String
  -- how a number is printed
  pub show : Number → String
  pub find_cached_department : String → List Call → Reply (Option String)
  pub find_cached_policies : String → List Call → Reply (Option (List PolicyRow))
  -- the department in the answer of the traveler service
  pub traveler_reply : String → List Call → Reply String
  pub find_active : (department : String) → List Call → Reply (List PolicyRow)
  pub find_all :
      (department : Option String) (active : Option Bool) → List Call → Reply (List PolicyRow)
  pub find_policy : String → List Call → Reply (Option PolicyRow)
  pub save_reply : List Call → SaveReply
  -- the calls that return nothing
  pub done : List Call → Reply (Unit {0})
