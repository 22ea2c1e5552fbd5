-- ===== src/Policy/Stored.antt =====
-- A policy under any updates, and what storing it keeps.
use training_travel_booking.Shared.{ℕ, suc, List, [], ◌∷◌, ◌≡◌, Result, ok, err}
use training_travel_booking.Policy.Rules.{
  PolicyRulesProps, PolicyRules, TravelPolicy, UpdatePolicyProps, new_rules, update_travel_policy,
  deactivate_policy,
}

-- A call of a method, with the time.
pub data PolicyOp : Type 0 where
  to_update : ℕ → UpdatePolicyProps → PolicyOp
  to_deactivate : ℕ → PolicyOp

abbrev pub kept : TravelPolicy → Result TravelPolicy → TravelPolicy
kept p (ok p') = p'
kept p (err e) = p

pub apply : PolicyOp → TravelPolicy → TravelPolicy
apply (to_update now props) p = kept p (update_travel_policy now props p)
apply (to_deactivate now) p = deactivate_policy now p

-- A refused update is lost with the object that it changed.
pub run : List PolicyOp → TravelPolicy → TravelPolicy
run [] p = p
run (op ∷ ops) p = run ops (apply op p)

pub op_count : List PolicyOp → ℕ
op_count [] = 0
op_count (op ∷ ops) = suc (op_count ops)

-- Rules that their constructor made.
abbrev pub AreMade : PolicyRules → Type 0
AreMade r = (props : PolicyRulesProps) × (new_rules props ≡ ok r)
