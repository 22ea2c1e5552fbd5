-- ===== src/Policy/Sources.antt =====
-- Where the department of a traveler and its policies come from in a validation.
use training_travel_booking.Shared.{
  String, none, some, List, [], ◌∷◌, map, ◌≡◌, refl, ◌⊎◌, inl, inr, arith, Error, failure, ok, err,
  Result-cases,
}
use training_travel_booking.Shared.Effect.{World, Reply-cases, answer, fault}
use training_travel_booking.Policy.Rules.{TravelPolicy, PolicyRow, policy_to_row}
use training_travel_booking.Policy.Calls.{
  cache_hit, cache_miss, Call, cache_department, cache_policies, drop_policies, save_violation,
  save_policy, delete_policy, publish, metric, Env,
}
use training_travel_booking.Policy.UseCases.{
  rows_to_policies, try_write, get_cached_department, fetch_department, resolve_department,
  get_cached_policies, resolve_policies,
}

-- The records and the publications among the calls, the newest first.
abbrev pub told : List Call → List Call
told [] = []
told (save_violation r ∷ t) = save_violation r ∷ told t
told (publish e ∷ t) = publish e ∷ told t
told (cache_department i d n ∷ t) = told t
told (cache_policies d ps n ∷ t) = told t
told (drop_policies d ∷ t) = told t
told (save_policy p ∷ t) = told t
told (delete_policy i ∷ t) = told t
told (metric m ∷ t) = told t

-- Where the department of a traveler comes from: the cache, the traveler service, or the token.
pub data DepartmentOf (env : Env) (traveler_id token_department : String) (t : List Call)
    : String → Type 0 where
  was_cached :
      (d : String)
      → env.find_cached_department traveler_id t ≡ answer (some d)
      → DepartmentOf env traveler_id token_department t d
  was_told :
      (d : String) (u : List Call)
      → env.traveler_reply traveler_id u ≡ answer d
      → DepartmentOf env traveler_id token_department t d
  from_token :
      (message : String) (u : List Call)
      → env.traveler_reply traveler_id u ≡ fault message
      → DepartmentOf env traveler_id token_department t token_department

-- Where the policies come from: the cache or the database, mapped whole.
pub data PoliciesOf (env : Env) (department : String) : List TravelPolicy → Type 0 where
  were_cached :
      (ps : List TravelPolicy) (rows : List PolicyRow) (t : List Call)
      → env.find_cached_policies department t ≡ answer (some rows)
      → rows_to_policies rows ≡ ok ps
      → PoliciesOf env department ps
  were_found :
      (ps : List TravelPolicy) (rows : List PolicyRow) (t : List Call)
      → env.find_active department t ≡ answer rows
      → rows_to_policies rows ≡ ok ps
      → PoliciesOf env department ps

abbrev pub At : World Call (Unit {0}) → List Call → World Call (Unit {0})
At w t = record { state = w.state; trace = t }

module _ (env : Env) where
  try_write_lem :
      (c : Call) (w : World Call (Unit {0})) → try_write env c w ≡ (ok tt, At w (c ∷ w.trace))
  try_write_lem c w = elim (Reply-cases (env.done (c ∷ w.trace))) [
    | inl (x, d) ↦ ground arith
    | inr (m, d) ↦ ground arith
  ]

  -- A department is always found, and nothing is recorded or published on the way.
  abbrev pub Resolved : String → String → World Call (Unit {0}) → Type 0
  Resolved i k w =
      (d : String) × (u : List Call) × (resolve_department env i k w ≡ (ok d, At w u))
      × (told u ≡ told w.trace)
      × DepartmentOf env i k w.trace d

  fetched :
      (i k : String) (w : World Call (Unit {0})) (t : List Call)
      → get_cached_department env i w ≡ (ok none, At w t)
      → told t ≡ told w.trace
      → Resolved i k w
  unfolding resolve_department fetch_department
  fetched i k w t miss same = elim (Reply-cases (env.traveler_reply i t)) [
    | inl (d, e) ↦
        let wrote = try_write_lem (cache_department i d 3600) (At w t) in
        (d, cache_department i d 3600 ∷ t, ground arith, same, was_told d t e)
    | inr (m, e) ↦
        let wrote = try_write_lem (cache_department i k 3600) (At w t) in
        (k, cache_department i k 3600 ∷ t, ground arith, same, from_token m t e)
  ]

  pub resolve_department_lem : (i k : String) (w : World Call (Unit {0})) → Resolved i k w
  unfolding resolve_department get_cached_department
  resolve_department_lem i k w = elim (Reply-cases (env.find_cached_department i w.trace)) [
    | inl (none, e) ↦
        let miss : get_cached_department env i w
            ≡ (ok none, At w (metric (cache_miss "traveler") ∷ w.trace)) =
          ground arith in
        fetched i k w (metric (cache_miss "traveler") ∷ w.trace) miss refl
    | inl (some d, e) ↦
        (d, metric (cache_hit "traveler") ∷ w.trace, ground arith, refl, was_cached d e)
    | inr (m, e) ↦
        let miss : get_cached_department env i w ≡ (ok none, At w w.trace) = ground arith in
        fetched i k w w.trace miss refl
  ]

  -- The policies are found, or the database or a row of it fails; nothing is recorded or published.
  abbrev pub Picked : String → World Call (Unit {0}) → Type 0
  Picked d w =
      ((ps : List TravelPolicy) × (u : List Call) × (resolve_policies env d w ≡ (ok ps, At w u))
        × (told u ≡ told w.trace)
        × PoliciesOf env d ps)
      ⊎ ((e : Error) × (u : List Call) × (resolve_policies env d w ≡ (err e, At w u))
          × (told u ≡ told w.trace))

  searched :
      (d : String) (w : World Call (Unit {0})) (t : List Call)
      → get_cached_policies env d w ≡ (ok none, At w t)
      → told t ≡ told w.trace
      → Picked d w
  unfolding resolve_policies
  searched d w t miss same = elim (Reply-cases (env.find_active d t)) [
    | inl (rows, f) ↦ elim (Result-cases (rows_to_policies rows)) [
      | inl (ps, m) ↦
          let c = cache_policies d (map policy_to_row ps) 900 in
          let wrote = try_write_lem c (At w t) in
          inl (ps, c ∷ t, ground arith, same, were_found ps rows t f m)
      | inr (x, m) ↦ inr (x, t, ground arith, same)
    ]
    | inr (message, f) ↦ inr (failure message, t, ground arith, same)
  ]

  pub resolve_policies_lem : (d : String) (w : World Call (Unit {0})) → Picked d w
  unfolding resolve_policies get_cached_policies
  resolve_policies_lem d w = elim (Reply-cases (env.find_cached_policies d w.trace)) [
    | inl (none, e) ↦
        let t = metric (cache_miss "policy") ∷ w.trace in
        let miss : get_cached_policies env d w ≡ (ok none, At w t) = ground arith in
        searched d w t miss refl
    | inl (some rows, e) ↦ elim (Result-cases (rows_to_policies rows)) [
      | inl (ps, m) ↦ inl (
        ps,
        metric (cache_hit "policy") ∷ w.trace,
        ground arith,
        refl,
        were_cached ps rows w.trace e m,
      )
      | inr (x, m) ↦
          let t = metric (cache_hit "policy") ∷ w.trace in
          let miss : get_cached_policies env d w ≡ (ok none, At w t) = ground arith in
          searched d w t miss refl
    ]
    | inr (m, e) ↦
        let miss : get_cached_policies env d w ≡ (ok none, At w w.trace) = ground arith in
        searched d w w.trace miss refl
  ]
