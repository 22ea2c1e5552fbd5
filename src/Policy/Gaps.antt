-- ===== src/Policy/Gaps.antt =====
-- Where the rules of a policy do not bite.
use training_travel_booking.Shared.{
  ℕ, suc, String, none, some, true, false, List, [], ◌∷◌, ◌≡◌, ◌≢◌, refl, sym, ap, ◌∙◌, inl, inr,
  arith, Number, ok, Result-cases, Option-cases, Bool-cases, ◌++◌, str_eq, eq_iff,
}
use mathlib.Core.List.{Memᴰ}
use training_travel_booking.Shared.Text.{codes, ThreeCapitals}
use training_travel_booking.Policy.Rules.{
  PolicyRulesProps, PolicyRules, PolicyViolation, TravelPolicy, UpdatePolicyProps, new_rules,
  check_cabin_classes, update_travel_policy,
}
use training_travel_booking.Policy.Validator.{
  PolicyValidationRequest, text_length, check_cabin, check_cost, check_advance, check_international,
  is_likely_international, needs_approval, violations_of, validate, is_set, concluded,
}
use training_travel_booking.Policy.Verdict.{
  Breaks, by_cabin, by_cost, by_advance, by_route, validate-Breaks,
}

count : List ℕ → ℕ
count [] = 0
count (c ∷ cs) = suc (count cs)

text_length-codes : (s : String) → text_length s ≡ count (codes s)
unfolding text_length count
text_length-codes String.[] = refl
text_length-codes (String.◌∷◌ c s) = ap suc (text_length-codes s)

not_international :
    (q : PolicyValidationRequest) (origin : String)
    → q.origin ≡ some origin
    → ThreeCapitals origin
    → is_likely_international q ≡ false
unfolding is_likely_international count
not_international q origin e t =
    let three : text_length origin ≡ 3 = text_length-codes origin ∙ ap count t.spelled in
    ground arith

abbrev pub allowing_international : TravelPolicy → TravelPolicy
allowing_international p = record p { rules = record p.rules { allow_international = some true } }

route_silent :
    (q : PolicyValidationRequest) (rules : PolicyRules)
    → is_likely_international q ≡ false
    → check_international q rules ≡ []
unfolding check_international
route_silent q rules n = elim (Bool-cases (is_set rules.allow_international)) [
  | inl e ↦ rw e refl
  | inr e ↦ rw (e, n) refl
]

same_violations :
    (show : Number → String) (q : PolicyValidationRequest) (rules : PolicyRules)
    → is_likely_international q ≡ false
    → violations_of show q rules
      ≡ violations_of show q (record rules { allow_international = some true })
unfolding violations_of check_cabin check_cost check_advance
same_violations show q rules n =
    ap (λ x. check_cabin q rules ++ (check_cost show q rules ++ (check_advance show q rules ++ x)))
      (route_silent q rules n
        ∙ sym (route_silent q (record rules { allow_international = some true }) n))

-- For a request whose origin is an airport code of three capital letters, as bookings have it, a
-- policy that forbids international travel gives the same verdict as one that allows it.
pub validate-allowing_international :
    (show : Number → String) (q : PolicyValidationRequest) (p : TravelPolicy) (origin : String)
    → q.origin ≡ some origin
    → ThreeCapitals origin
    → validate show q (some p) ≡ validate show q (some (allowing_international p))
unfolding validate needs_approval
validate-allowing_international show q p origin e t =
    let n = not_international q origin e t in
    ap (λ vs. concluded vs (needs_approval q p.rules)) (same_violations show q p.rules n)

new_rules-max_flight_cost :
    (props : PolicyRulesProps) (r : PolicyRules)
    → new_rules props ≡ ok r
    → r.max_flight_cost ≡ props.max_flight_cost
unfolding new_rules
new_rules-max_flight_cost props r h = elim (Option-cases props.allowed_cabin_classes) [
  | inl e ↦ ground arith
  | inr (cs, e) ↦ elim (Result-cases (check_cabin_classes cs)) [
    | inl (x, f) ↦ ground arith
    | inr (x, f) ↦ ground arith
  ]
]

update-max_flight_cost :
    (now : ℕ) (props : UpdatePolicyProps) (rules : PolicyRulesProps) (p p' : TravelPolicy)
    → props.rules ≡ some rules
    → update_travel_policy now props p ≡ ok p'
    → p'.rules.max_flight_cost ≡ rules.max_flight_cost
unfolding update_travel_policy
update-max_flight_cost now props rules p p' e h = elim (Result-cases (new_rules rules)) [
  | inl (r, f) ↦ let kept = new_rules-max_flight_cost rules r f in ground arith
  | inr (x, f) ↦ ground arith
]

other_rule : (a : String) → str_eq a "maxFlightCost" ≡ false → a ≢ "maxFlightCost"
other_rule a f h = let t = (eq_iff a "maxFlightCost").1 h in ground arith

not_by_cost :
    (show : Number → String) (q : PolicyValidationRequest) (rules : PolicyRules)
    (v : PolicyViolation)
    → rules.max_flight_cost ≡ none
    → Breaks show q rules v
    → v.rule ≢ "maxFlightCost"
not_by_cost show q rules v n (by_cabin c e m) = other_rule "cabinClass" refl
not_by_cost show q rules v n (by_cost (l, e, h)) = ground arith
not_by_cost show q rules v n (by_advance days e h) = other_rule "advanceBookingDays" refl
not_by_cost show q rules v n (by_route a h) = other_rule "allowInternational" refl

-- An update that gives rules without a cost limit, which its type lets it leave out, takes the limit
-- away: under the policy as it is then, no request breaks the rule on the cost, whatever the limit
-- was before.
pub validate-update_travel_policy :
    (show : Number → String) (q : PolicyValidationRequest) (now : ℕ) (props : UpdatePolicyProps)
    (rules : PolicyRulesProps) (p p' : TravelPolicy) (v : PolicyViolation)
    → props.rules ≡ some rules
    → rules.max_flight_cost ≡ none
    → update_travel_policy now props p ≡ ok p'
    → Memᴰ v (validate show q (some p')).violations
    → v.rule ≢ "maxFlightCost"
validate-update_travel_policy show q now props rules p p' v e n h m =
    let gone = update-max_flight_cost now props rules p p' e h ∙ n in
    not_by_cost show q p'.rules v gone (((validate-Breaks show q p').0 v).0 m)
