-- ===== src/Policy/Verdict.antt =====
-- What the validator finds, against the rules of a policy as they are read.
use training_travel_booking.Shared.{
  String, Option, none, some, Bool, true, false, not, ◌&&◌, ◌||◌, List, [], ◌∷◌, ◌≡◌, ◌≢◌, refl,
  sym, subst, ◌∙◌, ◌⊎◌, inl, inr, ◌↔◌, arith, Number, ltb_number, str_eq, eq_iff, includes,
  Bool-cases, Option-cases, if◌then◌else◌,
}
use mathlib.Core.List.Memᴰ
use mathlib.Core.List.{Memᴰ}
use training_travel_booking.Policy.Rules.{PolicyViolation, PolicyRules, TravelPolicy}
use training_travel_booking.Policy.Validator.{
  PolicyValidationRequest, exceeds, falls_short, cabin_violation, cost_violation, advance_violation,
  international_violation, check_cabin, check_cost, check_advance, check_international,
  is_likely_international, is_set, needs_approval, violations_of, concluded, validate,
}

-- A number above a limit that is there, and one below a least that is there.
abbrev pub IsAbove : Number → Option Number → Type 0
IsAbove a limit = (l : Number) × (limit ≡ some l) × (ltb_number l a ≡ true)

abbrev pub IsBelow : Number → Option Number → Type 0
IsBelow a least = (l : Number) × (least ≡ some l) × (ltb_number a l ≡ true)

-- How a request breaks the rules of a policy, told rule by rule; which routes count as
-- international is the test of the source.
pub data Breaks (show : Number → String) (q : PolicyValidationRequest) (rules : PolicyRules)
    : PolicyViolation → Type 0 where
  by_cabin :
      (c : String)
      → q.cabin_class ≡ some c
      → ¬ Memᴰ c rules.allowed_cabin_classes
      → Breaks show q rules (cabin_violation c rules.allowed_cabin_classes)
  by_cost :
      IsAbove q.amount rules.max_flight_cost
      → Breaks show q rules (cost_violation show q.amount rules.max_flight_cost)
  by_advance :
      (days : Number)
      → q.advance_booking_days ≡ some days
      → IsBelow days rules.advance_booking_days
      → Breaks show q rules (advance_violation show days rules.advance_booking_days)
  by_route :
      rules.allow_international ≢ some true
      → is_likely_international q ≡ true
      → Breaks show q rules international_violation

includes-Mem : (xs : List String) (x : String) → (includes xs x ≡ true) ↔ Memᴰ x xs
includes-Mem xs x = (to xs, from xs)
  where
    to : (xs : List String) → includes xs x ≡ true → Memᴰ x xs
    to [] h = ground arith
    to (y ∷ ys) h = elim (Bool-cases (str_eq y x)) [
      | inl e ↦ Memᴰ.head (sym ((eq_iff y x).0 e))
      | inr e ↦ Memᴰ.tail (to ys (ground arith))
    ]

    from : (xs : List String) → Memᴰ x xs → includes xs x ≡ true
    from [] m = elim m [ ]
    from (y ∷ ys) (Memᴰ.head e) =
        let same : str_eq y x ≡ true = (eq_iff y x).1 (sym e) in rw same refl
    from (y ∷ ys) (Memᴰ.tail m) = elim (Bool-cases (str_eq y x)) [
      | inl e ↦ rw e refl
      | inr e ↦ rw e (from ys m)
    ]

-- A list of one violation, or of none.
abbrev only_if : Bool → PolicyViolation → List PolicyViolation
only_if b v = if b then v ∷ [] else []

only_if_sound : (b : Bool) (v w : PolicyViolation) → Memᴰ v (only_if b w) → (b ≡ true) × (v ≡ w)
only_if_sound true v w (Memᴰ.head e) = (refl, e)
only_if_sound true v w (Memᴰ.tail m) = elim m [ ]
only_if_sound false v w m = elim m [ ]

only_if-complete : (b : Bool) (v : PolicyViolation) → b ≡ true → Memᴰ v (only_if b v)
only_if-complete b v h = rw h (Memᴰ.head refl)

exceeds-IsAbove : (a : Number) (limit : Option Number) → exceeds a limit ≡ true → IsAbove a limit
exceeds-IsAbove a none h = ground arith
exceeds-IsAbove a (some l) h = (l, refl, h)

falls_short-IsBelow :
    (a : Number) (least : Option Number) → falls_short a least ≡ true → IsBelow a least
falls_short-IsBelow a none h = ground arith
falls_short-IsBelow a (some l) h = (l, refl, h)

not_set : (flag : Option Bool) → is_set flag ≡ false → flag ≢ some true
not_set flag h = ground arith

module _ (show : Number → String) (q : PolicyValidationRequest) (rules : PolicyRules) where
  abbrev Broken : PolicyViolation → Type 0
  Broken = Breaks show q rules

  no_cabin : q.cabin_class ≡ none → check_cabin q rules ≡ []
  unfolding check_cabin
  no_cabin e = rw e refl

  some_cabin :
      (c : String)
      → q.cabin_class ≡ some c
      → check_cabin q rules
        ≡ only_if
            (not (includes rules.allowed_cabin_classes c))
            (cabin_violation c rules.allowed_cabin_classes)
  unfolding check_cabin
  some_cabin c e = rw e refl

  absurd_cabin :
      (c : String)
      → not (includes rules.allowed_cabin_classes c) ≡ true
      → Memᴰ c rules.allowed_cabin_classes
      → ⊥
  absurd_cabin c b n = let i = (includes-Mem rules.allowed_cabin_classes c).1 n in ground arith

  no_advance : q.advance_booking_days ≡ none → check_advance show q rules ≡ []
  unfolding check_advance
  no_advance e = rw e refl

  some_advance :
      (days : Number)
      → q.advance_booking_days ≡ some days
      → check_advance show q rules
        ≡ only_if
            (falls_short days rules.advance_booking_days)
            (advance_violation show days rules.advance_booking_days)
  unfolding check_advance
  some_advance days e = rw e refl

  advance_sound : (v : PolicyViolation) → Memᴰ v (check_advance show q rules) → Broken v
  advance_sound v m = elim (Option-cases q.advance_booking_days) [
    | inl e ↦ let m' : Memᴰ v [] = subst (Memᴰ v) (no_advance e) m in elim m' [ ]
    | inr (days, e) ↦
        let w = advance_violation show days rules.advance_booking_days in
        let (b, f) =
          only_if_sound (falls_short days rules.advance_booking_days) v w
            (subst (Memᴰ v) (some_advance days e) m) in
        subst Broken (sym f)
          (by_advance days e (falls_short-IsBelow days rules.advance_booking_days b))
  ]

  cabin_sound : (v : PolicyViolation) → Memᴰ v (check_cabin q rules) → Broken v
  unfolding check_cabin
  cabin_sound v m = elim (Option-cases q.cabin_class) [
    | inl e ↦ let m' : Memᴰ v [] = subst (Memᴰ v) (no_cabin e) m in elim m' [ ]
    | inr (c, e) ↦
        let w = cabin_violation c rules.allowed_cabin_classes in
        let (b, f) =
          only_if_sound (not (includes rules.allowed_cabin_classes c)) v w
            (subst (Memᴰ v) (some_cabin c e) m) in
        subst Broken (sym f) (by_cabin c e λ n. absurd_cabin c b n)
  ]

  cost_sound : (v : PolicyViolation) → Memᴰ v (check_cost show q rules) → Broken v
  unfolding check_cost
  cost_sound v m =
      let (b, e) =
        only_if_sound (exceeds q.amount rules.max_flight_cost) v
          (cost_violation show q.amount rules.max_flight_cost) m in
      subst Broken (sym e) (by_cost (exceeds-IsAbove q.amount rules.max_flight_cost b))

  route_sound : (v : PolicyViolation) → Memᴰ v (check_international q rules) → Broken v
  unfolding check_international
  route_sound v m =
      let (b, e) =
        only_if_sound (not (is_set rules.allow_international) && is_likely_international q) v
          international_violation m in
      subst Broken (sym e)
        (by_route (not_set rules.allow_international (ground arith)) (ground arith))

  violations_sound : (v : PolicyViolation) → Memᴰ v (violations_of show q rules) → Broken v
  unfolding violations_of
  violations_sound v m = elim (Memᴰ.append_cases (check_cabin q rules) m) [
    | inl a ↦ cabin_sound v a
    | inr m ↦ elim (Memᴰ.append_cases (check_cost show q rules) m) [
      | inl a ↦ cost_sound v a
      | inr m ↦ elim (Memᴰ.append_cases (check_advance show q rules) m) [
        | inl a ↦ advance_sound v a
        | inr a ↦ route_sound v a
      ]
    ]
  ]

  at_cost :
      (v : PolicyViolation) → Memᴰ v (check_cost show q rules) → Memᴰ v (violations_of show q rules)
  unfolding violations_of
  at_cost v m = Memᴰ.append_right (check_cabin q rules) (Memᴰ.append_left _ m)

  at_advance :
      (v : PolicyViolation)
      → Memᴰ v (check_advance show q rules)
      → Memᴰ v (violations_of show q rules)
  unfolding violations_of
  at_advance v m =
      Memᴰ.append_right (check_cabin q rules)
        (Memᴰ.append_right (check_cost show q rules) (Memᴰ.append_left _ m))

  at_route :
      (v : PolicyViolation)
      → Memᴰ v (check_international q rules)
      → Memᴰ v (violations_of show q rules)
  unfolding violations_of
  at_route v m = Memᴰ.append_right (check_cabin q rules) (
      Memᴰ.append_right (check_cost show q rules)
        (Memᴰ.append_right (check_advance show q rules) m))

  at_cabin :
      (v : PolicyViolation) → Memᴰ v (check_cabin q rules) → Memᴰ v (violations_of show q rules)
  unfolding violations_of
  at_cabin v m = Memᴰ.append_left _ m

  unlisted :
      (c : String)
      → ¬ Memᴰ c rules.allowed_cabin_classes
      → not (includes rules.allowed_cabin_classes c) ≡ true
  unlisted c n = elim (Bool-cases (includes rules.allowed_cabin_classes c)) [
    | inl h ↦ elim (n ((includes-Mem rules.allowed_cabin_classes c).0 h)) [ ]
    | inr h ↦ rw h refl
  ]

  violations-complete : (v : PolicyViolation) → Broken v → Memᴰ v (violations_of show q rules)
  unfolding check_cost check_international
  violations-complete v (by_cabin c e n) =
      at_cabin v (subst (Memᴰ v) (sym (some_cabin c e)) (only_if-complete _ v (unlisted c n)))
  violations-complete v (by_cost (l, e, h)) =
      at_cost v (only_if-complete (exceeds q.amount rules.max_flight_cost) v (rw e h))
  violations-complete v (by_advance days e (l, f, h)) = at_advance v (
      subst (Memᴰ v) (sym (some_advance days e))
        (only_if-complete (falls_short days rules.advance_booking_days) v (rw f h)))
  violations-complete v (by_route n h) = at_route v (
      only_if-complete (not (is_set rules.allow_international) && is_likely_international q) v
        (ground arith))

-- A trip that must be approved: the policy says so of all, or its amount is above the threshold.
abbrev pub NeedsApproval : PolicyValidationRequest → PolicyRules → Type 0
NeedsApproval q rules =
    (rules.requires_approval ≡ some true) ⊎ IsAbove q.amount rules.approval_threshold

approval_iff :
    (q : PolicyValidationRequest) (rules : PolicyRules)
    → (needs_approval q rules ≡ true) ↔ NeedsApproval q rules
unfolding needs_approval
approval_iff q rules = (to, from)
  where
    to :
        is_set rules.requires_approval || exceeds q.amount rules.approval_threshold ≡ true
        → NeedsApproval q rules
    to h = elim (Bool-cases (is_set rules.requires_approval)) [
      | inl e ↦ inl (ground arith)
      | inr e ↦ inr (exceeds-IsAbove q.amount rules.approval_threshold (ground arith))
    ]

    from :
        NeedsApproval q rules
        → is_set rules.requires_approval || exceeds q.amount rules.approval_threshold ≡ true
    from (inl e) = rw e refl
    from (inr (l, e, h)) = elim (Bool-cases (is_set rules.requires_approval)) [
      | inl s ↦ rw s refl
      | inr s ↦ rw (s, e, h) refl
    ]

concluded_violations :
    (vs : List PolicyViolation) (b : Bool)
    → ((concluded vs b).violations ≡ vs) × ((concluded vs b).requires_approval ≡ b)
concluded_violations [] b = (refl, refl)
concluded_violations (v ∷ vs) b = (refl, refl)

concluded_valid :
    (vs : List PolicyViolation) (b : Bool)
    → ((concluded vs b).valid ≡ true) ↔ ((v : PolicyViolation) → ¬ Memᴰ v vs)
concluded_valid [] b = (λ h v m. elim m [ ], λ h. refl)
concluded_valid (v ∷ vs) b = (λ h. ground arith, λ h. elim (h v (Memᴰ.head refl)) [ ])

module _ (show : Number → String) (q : PolicyValidationRequest) (p : TravelPolicy) where
  -- The verdict on a request for a policy: the violations are exactly the rules that it breaks, it is
  -- valid exactly if it breaks none, those that only warn included, and it requires approval exactly
  -- if the policy wants it for all trips or the amount is above the threshold.
  pub validate-Breaks :
      (((v : PolicyViolation)
          → Memᴰ v (validate show q (some p)).violations ↔ Breaks show q p.rules v)
        × (((validate show q (some p)).valid ≡ true)
            ↔ ((v : PolicyViolation) → ¬ Breaks show q p.rules v))
        × (((validate show q (some p)).requires_approval ≡ true) ↔ NeedsApproval q p.rules))
  unfolding validate
  validate-Breaks =
      let vs = violations_of show q p.rules in
      let b = needs_approval q p.rules in
      let (listed, approved) = concluded_violations vs b in
      let (none_if, if_none) = concluded_valid vs b in
      (
        λ v. (
          λ m. violations_sound show q p.rules v (subst (Memᴰ v) listed m),
          λ x. subst (Memᴰ v) (sym listed) (violations-complete show q p.rules v x),
        ),
        (
          λ h v x. none_if h v (violations-complete show q p.rules v x),
          λ h. if_none (λ v m. h v (violations_sound show q p.rules v m)),
        ),
        (
          λ h. (approval_iff q p.rules).0 (sym approved ∙ h),
          λ h. approved ∙ (approval_iff q p.rules).1 h,
        ),
      )
