-- ===== src/Booking/Steps/Policy.antt =====
-- The first step of the saga: the policy check.
use training_travel_booking.Shared.{
  message_of, String, true, false, List, [], ◌∷◌, ◌≡◌, refl, ◌∙◌, ◌⊎◌, arith, Error,
  policy_violation, failure, ok, err, or_default, Bool-cases, inl, inr,
}
use training_travel_booking.Shared.Effect.{World, Reply-cases, answer, fault, Ends}
use training_travel_booking.Booking.Saga.{
  BookingSaga, SagaStatus, on_step, mark_failed, mark_step_failed, fail_saga,
}
use training_travel_booking.Booking.Calls.{
  PolicyValidationResponse, Call, Env, save_saga, validate_policy,
}
use training_travel_booking.Booking.Orchestrator.{
  Objects, begin_step, complete_step, policy_request, policy_refused, policy_unavailable,
  validate_step,
}
use training_travel_booking.Booking.Compensation.{
  SavesSucceed, requests, persist_lem, compensate_ends,
}
use training_travel_booking.Booking.Steps.{
  objects_at, Refused, RolledBack, begin_step_lem, complete_step_lem,
}

module _ (env : Env) (saves : SavesSucceed env) (correlation_id : String) where
  policy_refused_lem :
      (result : PolicyValidationResponse) (w : World Call Objects)
      → (saga : BookingSaga) × (policy_refused env result w ≡ (
        err (policy_violation (or_default result.violations ("Policy violation" ∷ []))),
        objects_at w.state.booking saga (save_saga saga ∷ w.trace),
      ))
        × (saga.status ≡ SagaStatus.failed)
  unfolding policy_refused fail_saga mark_step_failed
  policy_refused_lem result w =
      let marked : BookingSaga = record w.state.saga {
        steps = on_step 1 (mark_failed "Policy violation") w.state.saga.steps;
      } in
      let saga = fail_saga (mark_step_failed 1 "Policy violation" marked) in
      (saga, ground (arith, persist_lem env saves (objects_at w.state.booking saga w.trace)), refl)

  policy_unavailable_lem :
      (e : Error) (w : World Call Objects)
      → Ends
          (λ _ _. ⊥)
          (RolledBack correlation_id w.state.booking (requests w.trace))
          (policy_unavailable env correlation_id e w)
  unfolding policy_unavailable fail_saga mark_step_failed
  policy_unavailable_lem e w =
      let saga = fail_saga (mark_step_failed 1 (message_of e) w.state.saga) in
      let w' = objects_at w.state.booking saga w.trace in
      let w'' = objects_at w.state.booking saga (save_saga saga ∷ w.trace) in
      ground (arith, persist_lem env saves w', compensate_ends env saves correlation_id w'')

  abbrev validating : World Call Objects → BookingSaga → List Call
  validating w saga =
      validate_policy (policy_request w.state.booking) correlation_id ∷ save_saga saga ∷ w.trace

  module _ (w : World Call Objects) (saga : BookingSaga)
      (begun : begin_step env 1 "validate_policy" w
        ≡ (ok tt, objects_at w.state.booking saga (save_saga saga ∷ w.trace))) where
    validate_step_passed :
        (r : PolicyValidationResponse)
        → env.policy_reply (validating w saga) ≡ answer r
        → r.valid ≡ true
        → validate_step env correlation_id w
          ≡ complete_step env 1 (objects_at w.state.booking saga (validating w saga))
    unfolding validate_step
    validate_step_passed r e valid =
        let (saga', completed) =
          complete_step_lem env saves 1 (objects_at w.state.booking saga (validating w saga)) in
        ground (arith, completed)

    validate_step_refused :
        (r : PolicyValidationResponse)
        → env.policy_reply (validating w saga) ≡ answer r
        → r.valid ≡ false
        → validate_step env correlation_id w
          ≡ policy_refused env r (objects_at w.state.booking saga (validating w saga))
    unfolding validate_step
    validate_step_refused r e invalid =
        let (saga', refused, status) =
          policy_refused_lem r (objects_at w.state.booking saga (validating w saga)) in
        ground (arith, refused)

    validate_step_faulted :
        (m : String)
        → env.policy_reply (validating w saga) ≡ fault m
        → validate_step env correlation_id w
          ≡ policy_unavailable env correlation_id
              (failure m)
              (objects_at w.state.booking saga (validating w saga))
    unfolding validate_step
    validate_step_faulted m e = ground arith

  pub validate_step_lem :
      (w : World Call Objects)
      → let b = w.state.booking in
        let asked = validate_policy (policy_request b) correlation_id ∷ requests w.trace in
        Ends
          (λ _ v. (v.state.booking ≡ b) × (requests v.trace ≡ asked))
          (λ e v. Refused b asked e v ⊎ RolledBack correlation_id b asked e v)
          (validate_step env correlation_id w)
  validate_step_lem w =
      let b = w.state.booking in
      let (saga, begun) = begin_step_lem env saves 1 "validate_policy" w in
      let v = objects_at b saga (validating w saga) in
      elim (Reply-cases (env.policy_reply (validating w saga))) [
        | inl (r, e) ↦ elim (Bool-cases r.valid) [
          | inl valid ↦
              let (saga', completed) = complete_step_lem env saves 1 v in
              rw (validate_step_passed w saga begun r e valid ∙ completed) (refl, refl)
          | inr invalid ↦
              let (saga', refused, status) = policy_refused_lem r v in
              rw (validate_step_refused w saga begun r e invalid ∙ refused)
                (inl (_, refl, refl, refl, status))
        ]
        | inr (m, e) ↦
            ground
              (arith, validate_step_faulted w saga begun m e, policy_unavailable_lem (failure m) v)
      ]
