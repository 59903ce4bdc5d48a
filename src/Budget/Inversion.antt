-- ===== src/Budget/Inversion.antt =====
-- What a call of the meter of src/fre/runtime/budget_meter.py that returns has checked, and what it
-- returns.
use reasoning_engine.Prelude.{
  ℕ, ◌+◌, ◌-◌, ◌≤◌, ◌≡◌, refl, sym, subst, true, false, some, [], ◌∷◌, ◌++◌, inl, inr, any, find,
  length, ltb, ◌==◌, ok, >>=-eq-ok, raise_if-ok, ltb_false→le, le→ltb_false, Bool-cases,
  Option-cases, sort_by, arith,
}
use reasoning_engine.Budget.Types.{
  Resource, ResourceVector, getattr, any_resource, limit_resources, BudgetPlan, BudgetReservation,
  BudgetProjection, BudgetRemaining,
}
use reasoning_engine.Budget.Meter.{
  add, reserved, by_reservation_id, difference, overdrawn, remaining_under, remaining, consume,
  at_ceiling, reserve, without, settle, release,
}
use reasoning_engine.Budget.Vectors.{
  getattr-vector, any_resource-false, any_resource_intro, held, getattr-reserved,
}

-- `b` is at most `a`, resource by resource.
abbrev pub Covers : ResourceVector → ResourceVector → Type 0
Covers a b = (name : Resource) → getattr b name ≤ getattr a name

module _ {F : Type 0} where
  -- Committed and reserved amounts together stay within the plan's limits.
  abbrev pub Fits : BudgetPlan F → BudgetProjection F → Type 0
  Fits plan p =
      (name : Resource)
      → getattr p.committed name + held name p.reservations
        ≤ getattr (limit_resources plan.limits) name

  -- What is left, and what is used, add up to what is allocated.
  abbrev pub Splits : BudgetPlan F → BudgetProjection F → ResourceVector → Type 0
  Splits plan p left =
      (name : Resource)
      → getattr left name + (getattr p.committed name + held name p.reservations)
        ≡ getattr (limit_resources plan.limits) name

pub Covers-of_any :
    (a b : ResourceVector)
    → any_resource (λ name. ltb (getattr a name) (getattr b name)) ≡ false
    → Covers a b
Covers-of_any a b h name =
    ltb_false→le (getattr a name) (getattr b name)
      (any_resource-false (λ name. ltb (getattr a name) (getattr b name)) h name)

pub any_of_Covers :
    (a b : ResourceVector)
    → Covers a b
    → any_resource (λ name. ltb (getattr a name) (getattr b name)) ≡ false
any_of_Covers a b h =
    any_resource_intro (λ name. ltb (getattr a name) (getattr b name))
      (λ name. le→ltb_false (getattr a name) (getattr b name) (h name))

module _ {F : Type 0} (plan : BudgetPlan F) (p : BudgetProjection F) where
  Fits-of_overdrawn : overdrawn plan p ≡ false → Fits plan p
  unfolding overdrawn
  Fits-of_overdrawn h name = omega (
    arith,
    getattr-reserved p name,
    ltb_false→le (getattr (limit_resources plan.limits) name)
        (getattr p.committed name + getattr (reserved p) name)
        (any_resource-false
          (λ name.
            ltb (getattr (limit_resources plan.limits) name)
              (getattr p.committed name + getattr (reserved p) name))
          h name),
  )

  overdrawn_of_Fits : Fits plan p → overdrawn plan p ≡ false
  unfolding overdrawn
  overdrawn_of_Fits h =
      any_resource_intro
        (λ name.
          ltb (getattr (limit_resources plan.limits) name)
            (getattr p.committed name + getattr (reserved p) name))
        (λ name.
          le→ltb_false (getattr (limit_resources plan.limits) name)
            (getattr p.committed name + getattr (reserved p) name)
            (omega (arith, getattr-reserved p name, h name)))

  difference-Splits : Fits plan p → Splits plan p (difference plan p)
  unfolding difference
  difference-Splits h name = omega (
    arith,
    h name,
    getattr-reserved p name,
    getattr-vector
        (λ name.
          getattr (limit_resources plan.limits) name
          - getattr p.committed name
          - getattr (reserved p) name)
        name,
  )

module _ {F : Type 0} (hash : BudgetProjection F → ℕ) where
  remaining_under_inv :
      (plan : BudgetPlan F) (p : BudgetProjection F) (left : BudgetRemaining)
      → remaining_under hash plan p ≡ ok left
      → (overdrawn plan p ≡ false) × (left.resources ≡ difference plan p)
  unfolding remaining_under
  remaining_under_inv plan p left h = ground arith

  remaining_under_ok :
      (plan : BudgetPlan F) (p : BudgetProjection F)
      → overdrawn plan p ≡ false
      → (left : BudgetRemaining) × (remaining_under hash plan p ≡ ok left)
        × (left.resources ≡ difference plan p)
  unfolding remaining_under
  remaining_under_ok plan p h = (
    record {
      resources = difference plan p;
      active_concurrent_actions = length p.reservations;
      projection_hash = hash p;
    },
    rw h,
    refl,
  )

  remaining_plan :
      (p : BudgetProjection F) (left : BudgetRemaining)
      → remaining hash p ≡ ok left
      → (plan : BudgetPlan F) × (p.plan ≡ some plan) × (remaining_under hash plan p ≡ ok left)
  unfolding remaining
  remaining_plan p left h = elim (Option-cases p.plan) [
    | inl e ↦ absurd (ground arith)
    | inr (plan, e) ↦ (plan, e, ground arith)
  ]

  pub remaining_inv :
      (p : BudgetProjection F) (left : BudgetRemaining)
      → remaining hash p ≡ ok left
      → (plan : BudgetPlan F) × (p.plan ≡ some plan) × Fits plan p × Splits plan p left.resources
  remaining_inv p left h =
      let (plan, e, under) = remaining_plan p left h in
      let (fine, same) = remaining_under_inv plan p left under in
      let fits = Fits-of_overdrawn plan p fine in
      (plan, e, fits, subst (Splits plan p) (sym same) (difference-Splits plan p fits))

  -- The same for a plan that is known to be in force.
  pub remaining-Splits :
      (plan : BudgetPlan F) (p : BudgetProjection F) (left : BudgetRemaining)
      → p.plan ≡ some plan
      → remaining hash p ≡ ok left
      → Splits plan p left.resources
  remaining-Splits plan p left e h =
      let (plan', e', fits, splits) = remaining_inv p left h in
      let same : plan' ≡ plan = ground arith in subst (λ x. Splits x p left.resources) same splits

  pub remaining_of_Fits :
      (plan : BudgetPlan F) (p : BudgetProjection F)
      → p.plan ≡ some plan
      → Fits plan p
      → (left : BudgetRemaining) × (remaining hash p ≡ ok left) × Splits plan p left.resources
  unfolding remaining
  remaining_of_Fits plan p e fits =
      let (left, under, same) = remaining_under_ok plan p (overdrawn_of_Fits plan p fits) in
      (left, ground arith, subst (Splits plan p) (sym same) (difference-Splits plan p fits))

  -- A plan that is exceeded makes `ResourceVector` refuse.
  pub consume_inv :
      (p q : BudgetProjection F) (usage : ResourceVector)
      → consume hash p usage ≡ ok q
      → (left : BudgetRemaining) × (remaining hash p ≡ ok left)
        × Covers left.resources usage
        × (q ≡ record p {
          committed = add p.committed usage;
          usage_events = p.usage_events ++ usage ∷ [];
        })
  unfolding consume
  consume_inv p q usage h =
      let (left, e, h') = >>=-eq-ok (remaining hash p) _ h in
      let (c, h'') = raise_if-ok _ _ _ h' in
      (left, e, Covers-of_any left.resources usage c, ground arith)

  pub reserve_inv :
      (p q : BudgetProjection F) (r : BudgetReservation)
      → reserve hash p r ≡ ok q
      → (left : BudgetRemaining) × (any
            (λ item. item.reservation_id == r.reservation_id)
            p.reservations
          ≡ false)
        × (any (λ item. item.action_id == r.action_id) p.reservations ≡ false)
        × (at_ceiling hash p ≡ false)
        × (remaining hash p ≡ ok left)
        × Covers left.resources r.resources
        × (q ≡ record p { reservations = sort_by by_reservation_id (p.reservations ++ r ∷ []) })
  unfolding reserve
  reserve_inv p q r h =
      let (ids, h1) = raise_if-ok _ _ _ h in
      let (actions, h2) = raise_if-ok _ _ _ h1 in
      let (ceiling, h3) = raise_if-ok _ _ _ h2 in
      let (left, e, h4) = >>=-eq-ok (remaining hash p) _ h3 in
      let (c, h5) = raise_if-ok _ _ _ h4 in
      (left, ids, actions, ceiling, e, Covers-of_any left.resources r.resources c, ground arith)

module _ {F : Type 0} (p q : BudgetProjection F) (id : ℕ) where
  pub settle_inv :
      (actual : ResourceVector)
      → settle p id actual ≡ ok q
      → (r : BudgetReservation) × (find (λ item. item.reservation_id == id) p.reservations ≡ some r)
        × Covers r.resources actual
        × (q ≡ record p {
          reservations = without id p.reservations;
          committed = add p.committed actual;
          usage_events = p.usage_events ++ actual ∷ [];
        })
  unfolding settle
  settle_inv actual h =
      elim (Option-cases (find (λ item. item.reservation_id == id) p.reservations)) [
        | inl e ↦ absurd (ground arith)
        | inr (r, e) ↦
            let (c, h') = raise_if-ok _ _ _ (rw (e, settle) at h) in
            (r, e, Covers-of_any r.resources actual c, ground arith)
      ]

  pub release_inv :
      release p id ≡ ok q
      → (any (λ item. item.reservation_id == id) p.reservations ≡ true)
        × (q ≡ record p { reservations = without id p.reservations })
  unfolding release
  release_inv h = elim (Bool-cases (any (λ item. item.reservation_id == id) p.reservations)) [
    | inl e ↦ (e, ground arith)
    | inr e ↦ absurd (ground arith)
  ]
