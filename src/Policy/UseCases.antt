-- ===== src/Policy/UseCases.antt =====
-- policy-service/src/application/use-cases on policies, with infrastructure/cache, the reads and
-- writes of infrastructure/repositories and the client of the traveler service. No object outlives
-- a call. Logging is left out.
use training_travel_booking.Shared.{
  String, Option, none, some, Bool, List, [], ◌∷◌, map, Error, failure, not_found, conflict, Result,
  ok, err, ◌<>◌, or_default, if◌then◌else◌,
}
use training_travel_booking.Shared.Checks as Checks
use training_travel_booking.Shared.Effect.{
  World, Method, answer, fault, pure, throw, lift, gets, ask, read, try_catch, note, ◌>>=◌, ◌>>◌,
}
use training_travel_booking.Policy.Rules.{
  PolicyViolation, TravelPolicy, PolicyRow, CreatePolicyProps, UpdatePolicyProps,
  create_travel_policy, update_travel_policy, row_to_policy, policy_to_row,
}
use training_travel_booking.Policy.Validator.{PolicyValidationRequest, ValidationResult, validate}
use training_travel_booking.Policy.Calls.{
  PolicyViolationRecord, PolicyEvent, policy_validated, policy_violation_detected, cache_hit,
  cache_miss, validations_total, Call, cache_department, cache_policies, drop_policies,
  save_violation, save_policy, delete_policy, publish, metric, saved, duplicate_key, save_failed,
  Env,
}

abbrev pub UseCase : Type 0 → Type 0
UseCase = Method Call (Unit {0})

pub record PolicyValidationResponseDto : Type 0 where
  pub valid : Bool
  pub violations : List PolicyViolation
  pub requires_approval : Bool
  pub policy_id : Option String
  pub department : String

-- Rows as policies; one that cannot be mapped throws for them all.
unfoldable pub rows_to_policies : List PolicyRow → Result (List TravelPolicy)
rows_to_policies [] = ok []
rows_to_policies (e ∷ es) =
    Checks.◌>>=◌ (row_to_policy e) λ p. Checks.◌>>=◌ (rows_to_policies es) λ ps. ok (p ∷ ps)

-- `policies[0] ?? null`
abbrev pub first_policy : List TravelPolicy → Option TravelPolicy
first_policy [] = none
first_policy (p ∷ ps) = some p

abbrev pub id_of : Option TravelPolicy → Option String
id_of none = none
id_of (some p) = some p.id

-- The event of a verdict.
abbrev pub verdict_event :
    PolicyValidationRequest → String → Option TravelPolicy → ValidationResult → PolicyEvent
verdict_event request correlation_id policy r =
    if r.valid
    then policy_validated request.traveler_id correlation_id (id_of policy)
    else policy_violation_detected request.traveler_id correlation_id
        (or_default (id_of policy) request.traveler_id) r.violations r.requires_approval

abbrev pub verdict_response :
    String → Option TravelPolicy → ValidationResult → PolicyValidationResponseDto
verdict_response department policy r = record {
  valid = r.valid;
  violations = r.violations;
  requires_approval = r.requires_approval;
  policy_id = id_of policy;
  department = department;
}

-- The record of a verdict that is not valid.
abbrev pub violation_record :
    PolicyValidationRequest
    → Option String
    → TravelPolicy
    → ValidationResult
    → PolicyViolationRecord
violation_record request booking_ref policy r = record {
  policy_id = some policy.id;
  traveler_id = request.traveler_id;
  booking_ref = booking_ref;
  violations = r.violations;
  requires_approval = r.requires_approval;
}

module _ (env : Env) where
  -- A write of Redis, whose fault is logged and forgotten.
  abbrev pub try_write : Call → UseCase (Unit {0})
  try_write c = try_catch (ask c env.done) (λ _. pure tt)

  -- `getTravelerDepartment` of the cache.
  unfoldable pub get_cached_department : String → UseCase (Option String)
  get_cached_department traveler_id w = elim (env.find_cached_department traveler_id w.trace) [
    | answer none ↦ (note (metric (cache_miss "traveler")) >> pure none) w
    | answer (some d) ↦ (note (metric (cache_hit "traveler")) >> pure (some d)) w
    | fault m ↦ (ok none, w)
  ]

  -- `getTravelerDepartment` of the client: a fault of the breaker's action, or an open circuit, is
  -- answered by its fallback, the department of the token.
  unfoldable pub fetch_department : (traveler_id token_department : String) → UseCase String
  fetch_department traveler_id token_department w = elim (env.traveler_reply traveler_id w.trace) [
    | answer d ↦ (ok d, w)
    | fault m ↦ (ok token_department, w)
  ]

  -- Step 1.
  unfoldable pub resolve_department : (traveler_id token_department : String) → UseCase String
  unfolding get_cached_department fetch_department
  resolve_department traveler_id token_department = do
    cached ← get_cached_department traveler_id
    elim cached [
      | some d ↦ pure d
      | none ↦ (do
        d ← fetch_department traveler_id token_department
        try_write (cache_department traveler_id d 3600)
        pure d)
    ]

  -- `getPoliciesForDepartment` of the cache: what cannot be mapped counts as nothing found.
  unfoldable pub get_cached_policies : String → UseCase (Option (List TravelPolicy))
  unfolding rows_to_policies
  get_cached_policies department w = elim (env.find_cached_policies department w.trace) [
    | answer none ↦ (note (metric (cache_miss "policy")) >> pure none) w
    | answer (some rows) ↦
        (note (metric (cache_hit "policy"))
            >> elim (rows_to_policies rows) [ ok ps ↦ pure (some ps) | err e ↦ pure none ])
          w
    | fault m ↦ (ok none, w)
  ]

  -- Step 2.
  unfoldable pub resolve_policies : String → UseCase (List TravelPolicy)
  unfolding get_cached_policies
  resolve_policies department = do
    cached ← get_cached_policies department
    elim cached [
      | some ps ↦ pure ps
      | none ↦ (do
        rows ← read (env.find_active department)
        ps ← lift (rows_to_policies rows)
        try_write (cache_policies department (map policy_to_row ps) 900)
        pure ps)
    ]

  -- Step 5, if there is a policy.
  unfoldable pub record_violation :
      PolicyValidationRequest
      → Option String
      → Option TravelPolicy
      → ValidationResult
      → UseCase (Unit {0})
  record_violation request booking_ref none r = pure tt
  record_violation request booking_ref (some p) r =
      if r.valid
      then pure tt
      else ask (save_violation (violation_record request booking_ref p r)) env.done

  -- Steps 4 to 7; the publication is not waited for.
  unfoldable pub conclude_validation :
      PolicyValidationRequest
      → Option String
      → String
      → String
      → Option TravelPolicy
      → UseCase PolicyValidationResponseDto
  unfolding record_violation
  conclude_validation request booking_ref correlation_id department policy = do
    let r : ValidationResult = validate env.show request policy
    record_violation request booking_ref policy r
    note (metric (validations_total (if r.valid then "valid" else "invalid")))
    note (publish (verdict_event request correlation_id policy r))
    pure (verdict_response department policy r)

  unfoldable pub validate_policy :
      PolicyValidationRequest
      → Option String
      → (token_department correlation_id : String) → UseCase PolicyValidationResponseDto
  unfolding resolve_department resolve_policies conclude_validation
  validate_policy request booking_ref token_department correlation_id = do
    department ← resolve_department request.traveler_id token_department
    policies ← resolve_policies department
    conclude_validation request booking_ref correlation_id department (first_policy policies)

  -- `save` of the repository: the row that the database gives back, as a policy.
  unfoldable pub save_travel_policy : TravelPolicy → (String → Error) → UseCase TravelPolicy
  save_travel_policy p on_duplicate w =
      let t = save_policy (policy_to_row p) ∷ w.trace in
      let v : World Call (Unit {0}) = record { state = w.state; trace = t } in
      elim (env.save_reply t) [
        | saved row ↦ (row_to_policy row, v)
        | duplicate_key message ↦ (err (on_duplicate message), v)
        | save_failed message ↦ (err (failure message), v)
      ]

  -- The policies go out as they are; the DTO shows every field.
  unfoldable pub create_policy : CreatePolicyProps → String → UseCase TravelPolicy
  unfolding save_travel_policy
  create_policy props created_by = do
    id ← gets λ w. env.uuid w.trace
    at ← gets λ w. env.now w.trace
    p ← lift (create_travel_policy id at props created_by)
    stored ←
        save_travel_policy p λ _.
          (conflict "Policy already exists for this name and department" "POLICY_ALREADY_EXISTS")
    try_write (drop_policies p.department)
    pure stored

  unfoldable pub existing_policy : String → UseCase TravelPolicy
  existing_policy id = do
    found ← read (env.find_policy id)
    elim found [
      | none ↦ throw (not_found ("Policy with id \"" <> id <> "\" not found"))
      | some e ↦ lift (row_to_policy e)
    ]

  unfoldable pub update_policy : String → UpdatePolicyProps → UseCase TravelPolicy
  unfolding existing_policy save_travel_policy
  update_policy id props = do
    p ← existing_policy id
    at ← gets λ w. env.now w.trace
    p' ← lift (update_travel_policy at props p)
    stored ← save_travel_policy p' failure
    try_write (drop_policies p'.department)
    pure stored

  unfoldable pub remove_policy : String → UseCase (Unit {0})
  unfolding existing_policy
  remove_policy id = do
    p ← existing_policy id
    ask {A = Unit {0}} (delete_policy id) env.done
    try_write (drop_policies p.department)

  unfoldable pub list_policies : Option String → Option Bool → UseCase (List TravelPolicy)
  list_policies department active = do
    rows ← read (env.find_all department active)
    lift (rows_to_policies rows)
