-- ===== src/Policy/Validation.antt =====
-- What a validation does, of policy-service/src/application/use-cases/validate-policy.use-case.ts.
use training_travel_booking.Shared.{
  String, Option, none, some, false, List, [], ◌∷◌, ◌++◌, ◌≡◌, refl, ap, ◌∙◌, ◌⊎◌, inl, inr, arith,
  failure, ok, err, Bool-cases, if◌then◌else◌,
}
use training_travel_booking.Shared.Effect.{World, Reply-cases, Ends, Ends-mono}
use training_travel_booking.Policy.Rules.{TravelPolicy}
use training_travel_booking.Policy.Validator.{PolicyValidationRequest, ValidationResult, validate}
use training_travel_booking.Policy.Calls.{
  validations_total, Call, save_violation, publish, metric, Env,
}
use training_travel_booking.Policy.UseCases.{
  PolicyValidationResponseDto, first_policy, verdict_event, verdict_response, violation_record,
  record_violation, conclude_validation,
}
use training_travel_booking.Policy.Sources.{told, DepartmentOf, PoliciesOf, At}

module _ (env : Env) where
  module _ (q : PolicyValidationRequest) (ref : Option String) (correlation_id : String) where
    -- The record that a verdict asks for, if any.
    abbrev pub recorded : Option TravelPolicy → ValidationResult → List Call
    recorded none r = []
    recorded (some p) r = if r.valid then [] else save_violation (violation_record q ref p r) ∷ []

    abbrev verdict : Option TravelPolicy → ValidationResult
    verdict policy = validate env.show q policy

    -- The verdict on the policy was recorded, if it is not valid, and published.
    abbrev pub Concluded :
        String → Option TravelPolicy → List Call → PolicyValidationResponseDto → List Call → Type 0
    Concluded d policy t dto v =
        (dto ≡ verdict_response d policy (validate env.show q policy))
        × (told v
            ≡ publish (verdict_event q correlation_id policy (validate env.show q policy))
                ∷ recorded policy (validate env.show q policy)
              ++ told t)

    -- The record could not be stored, and nothing was published.
    abbrev pub Unrecorded : Option TravelPolicy → List Call → List Call → Type 0
    Unrecorded policy t v =
        (p : TravelPolicy) × (policy ≡ some p)
        × ((validate env.show q (some p)).valid ≡ false)
        × (told v
            ≡ save_violation (violation_record q ref p (validate env.show q (some p))) ∷ told t)

    conclude_validation-Ends :
        (d : String) (policy : Option TravelPolicy) (w : World Call (Unit {0}))
        → Ends
            (λ dto v. Concluded d policy w.trace dto v.trace)
            (λ e v. Unrecorded policy w.trace v.trace)
            (conclude_validation env q ref correlation_id d policy w)
    unfolding conclude_validation record_violation
    conclude_validation-Ends d none w = (refl, refl)
    conclude_validation-Ends d (some p) w =
        let r : ValidationResult = validate env.show q (some p) in
        let event = verdict_event q correlation_id (some p) r in
        let c = save_violation (violation_record q ref p r) in
        let dto = verdict_response d (some p) r in
        elim (Bool-cases r.valid) [
          | inl h ↦
              let t = publish event ∷ metric (validations_total "valid") ∷ w.trace in
              let run : conclude_validation env q ref correlation_id d (some p) w
                  ≡ (ok dto, At w t) =
                ground arith in
              rw run (refl, rw h refl)
          | inr h ↦ elim (Reply-cases (env.done (c ∷ w.trace))) [
            | inl (x, f) ↦
                let t = publish event ∷ metric (validations_total "invalid") ∷ c ∷ w.trace in
                let run : conclude_validation env q ref correlation_id d (some p) w
                    ≡ (ok dto, At w t) =
                  ground arith in
                rw run (refl, rw h refl)
            | inr (m, f) ↦
                let run : conclude_validation env q ref correlation_id d (some p) w
                    ≡ (err (failure m), At w (c ∷ w.trace)) =
                  ground arith in
                rw run (p, refl, h, refl)
          ]
        ]

    -- A verdict on the first of the policies of the traveler's department.
    abbrev pub Judged :
        (token_department : String)
        → World Call (Unit {0})
        → PolicyValidationResponseDto
        → World Call (Unit {0})
        → Type 0
    Judged token_department w dto v =
        (d : String) × (ps : List TravelPolicy) × DepartmentOf env q.traveler_id token_department
          w.trace d
        × PoliciesOf env d ps
        × Concluded d (first_policy ps) w.trace dto v.trace

    abbrev pub Unjudged : World Call (Unit {0}) → World Call (Unit {0}) → Type 0
    Unjudged w v =
        (told v.trace ≡ told w.trace)
        ⊎ ((policy : Option TravelPolicy) × Unrecorded policy w.trace v.trace)

    judge :
        (token_department d : String) (ps : List TravelPolicy) (w : World Call (Unit {0}))
        (t : List Call)
        → DepartmentOf env q.traveler_id token_department w.trace d
        → PoliciesOf env d ps
        → told t ≡ told w.trace
        → Ends
            (Judged token_department w)
            (λ e v. Unjudged w v)
            (conclude_validation env q ref correlation_id d (first_policy ps) (At w t))
    judge token_department d ps w t from policies same =
        let policy = first_policy ps in
        let r : ValidationResult = validate env.show q policy in
        Ends-mono (λ dto v. Concluded d policy t dto v.trace) (Judged token_department w)
          (λ e v. Unrecorded policy t v.trace) (λ e v. Unjudged w v)
          (conclude_validation env q ref correlation_id d policy (At w t))
          (λ dto v (a, b). (
            d,
            ps,
            from,
            policies,
            (
              a,
              b
                  ∙ ap
                      (λ x.
                        publish (verdict_event q correlation_id policy r) ∷ recorded policy r ++ x)
                      same,
            ),
          ))
          (λ e v (p, s, h, b). inr (
            policy,
            (
              p,
              s,
              h,
              b
                  ∙ ap
                      (λ x.
                        save_violation (violation_record q ref p (validate env.show q (some p)))
                        ∷ x)
                      same,
            ),
          ))
          (conclude_validation-Ends d policy (At w t))
