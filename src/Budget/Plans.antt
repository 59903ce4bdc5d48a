-- ===== src/Budget/Plans.antt =====
-- The plan that `allocate` of src/fre/modules/m02_budget.py returns, the default policy, and
-- `revise`.
use reasoning_engine.Prelude.{
  ℕ, ◌+◌, ◌≤◌, ◌≡◌, refl, sym, ap, ◌∙◌, subst, false, none, some, ltb, ok, >>=-eq-ok, ltb_false→le,
  FloatOps, Option-cases, inl, inr, arith,
}
use reasoning_engine.Budget.Types.{
  ReasoningTier, t0, t1, t2, t3, t4, t5, tier_order, getattr, limit_resources, BudgetLimits,
  BudgetPlan, DeploymentLimits, BudgetProjection, any_resource,
}
use reasoning_engine.Budget.Meter.{reserved}
use reasoning_engine.Budget.Allocator.{
  Ordinal4, SearchSpaceClass, ordinal, TaskSignature, TierPolicy, select_tier, clamp,
  search_fits_hard_limits, plan_for, allocate, allocate_at, revise, default_tier_policy,
  default_limits, default_search,
}
use reasoning_engine.Budget.Vectors.{getattr-reserved, held, any_resource-false}
use reasoning_engine.Budget.Bounds.{IsValid}
use reasoning_engine.Budget.Tiers.{IsFloor, select_tier-IsFloor, select_tier_total}

-- Every limit of `a` is at most that of `b`.
pub record IsWithin (a b : BudgetLimits) : Type 0 where
  pub iterations : a.max_iterations ≤ b.max_iterations
  pub llm_calls : a.max_llm_calls ≤ b.max_llm_calls
  pub tool_calls : a.max_tool_calls ≤ b.max_tool_calls
  pub input_tokens : a.max_input_tokens ≤ b.max_input_tokens
  pub output_tokens : a.max_output_tokens ≤ b.max_output_tokens
  pub candidates : a.max_candidates ≤ b.max_candidates
  pub concurrent_actions : a.max_concurrent_actions ≤ b.max_concurrent_actions
  pub runtime_seconds : a.max_runtime_seconds ≤ b.max_runtime_seconds

clamp-IsWithin :
    (limits ceilings : BudgetLimits)
    → IsWithin (clamp limits (some ceilings)) limits
      × IsWithin (clamp limits (some ceilings)) ceilings
unfolding clamp
clamp-IsWithin limits ceilings = (omega arith, omega arith)

-- What `allocate` promises of a plan.
pub record IsAllocated {F : Type 0} (signature : TaskSignature) (policy : TierPolicy F)
    (deployment : DeploymentLimits) (plan : BudgetPlan F) : Type 0 where
  pub floor : IsFloor signature policy plan.tier
  pub permitted : tier_order plan.tier ≤ tier_order deployment.maximum_tier
  pub ceilings : (c : BudgetLimits) → deployment.resource_ceilings ≡ some c → IsWithin plan.limits c
  pub candidates : plan.search.initial_candidate_count ≤ plan.limits.max_candidates
  pub branches : plan.search.independent_validation_branches ≤ plan.limits.max_llm_calls

plan_for-IsWithin :
    {F : Type 0} (policy : TierPolicy F) (deployment : DeploymentLimits) (tier : ReasoningTier)
    (c : BudgetLimits)
    → deployment.resource_ceilings ≡ some c
    → IsWithin (plan_for policy deployment tier).limits c
unfolding plan_for
plan_for-IsWithin policy deployment tier c e =
    rw e ((clamp-IsWithin (policy.tiers tier).limits c).1)

plan_for-tier :
    {F : Type 0} (policy : TierPolicy F) (deployment : DeploymentLimits) (tier : ReasoningTier)
    → (plan_for policy deployment tier).tier ≡ tier
unfolding plan_for
plan_for-tier policy deployment tier = refl

module _ {F : Type 0} (hash : TierPolicy F → DeploymentLimits → ℕ) where
  allocate_at_inv :
      (policy : TierPolicy F) (deployment : DeploymentLimits) (tier : ReasoningTier)
      (plan : BudgetPlan F) (n : ℕ)
      → allocate_at hash policy deployment tier ≡ ok (plan, n)
      → (plan_for policy deployment tier ≡ plan)
        × (tier_order tier ≤ tier_order deployment.maximum_tier)
        × (plan.search.initial_candidate_count ≤ plan.limits.max_candidates)
        × (plan.search.independent_validation_branches ≤ plan.limits.max_llm_calls)
  unfolding allocate_at
  allocate_at_inv policy deployment tier plan n h = ground arith

  -- A plan that is allocated keeps every floor of the policy for the task, has a tier that the
  -- deployment permits and limits within the deployment's ceilings, and its limits allow the candidates
  -- and the validation branches that its search policy demands.
  pub allocate-IsAllocated :
      (signature : TaskSignature) (policy : TierPolicy F) (deployment : DeploymentLimits)
      (plan : BudgetPlan F) (n : ℕ)
      → allocate hash signature policy deployment ≡ ok (plan, n)
      → IsAllocated signature policy deployment plan
  unfolding allocate
  allocate-IsAllocated signature policy deployment plan n h =
      let (tier, chosen, h1) = >>=-eq-ok (select_tier signature policy) _ h in
      let (same, permitted, candidates, branches) =
        allocate_at_inv policy deployment tier plan n h1 in
      let tiers : tier ≡ plan.tier =
        sym (plan_for-tier policy deployment tier) ∙ ap (λ (x : BudgetPlan F). x.tier) same in
      record {
        floor =
            subst (IsFloor signature policy) tiers
              (select_tier-IsFloor signature policy tier chosen);
        permitted = subst (λ t. tier_order t ≤ tier_order deployment.maximum_tier) tiers permitted;
        ceilings = λ c e.
            subst (λ (x : BudgetPlan F). IsWithin x.limits c) same
              (plan_for-IsWithin policy deployment tier c e);
        candidates = candidates;
        branches = branches;
      }

ordinal_total :
    (high critical : ReasoningTier) (d : Ordinal4)
    → (t : ReasoningTier) × (ordinal high critical d ≡ some t)
ordinal_total high critical Ordinal4.low = (t0, refl)
ordinal_total high critical Ordinal4.medium = (t1, refl)
ordinal_total high critical Ordinal4.high = (high, refl)
ordinal_total high critical Ordinal4.critical = (critical, refl)

space_floors_total :
    {F : Type 0} (float : FloatOps F) (d : SearchSpaceClass)
    → (t : ReasoningTier) × ((default_tier_policy float).search_space_floors d ≡ some t)
unfolding default_tier_policy
space_floors_total float SearchSpaceClass.closed = (t0, refl)
space_floors_total float SearchSpaceClass.bounded = (t1, refl)
space_floors_total float SearchSpaceClass.open_ended = (t3, refl)

-- The default policy has a floor for every dimension value, so the tier is never missing.
pub default_selects :
    {F : Type 0} (float : FloatOps F) (signature : TaskSignature)
    → (tier : ReasoningTier) × (select_tier signature (default_tier_policy float) ≡ ok tier)
unfolding default_tier_policy
default_selects float signature =
    let (a1, e1) = ordinal_total t3 t4 signature.consequence in
    let (a2, e2) = ordinal_total t2 t4 signature.irreversibility in
    let (a3, e3) = ordinal_total t2 t3 signature.ambiguity in
    let (a4, e4) = ordinal_total t2 t3 signature.evidence_scarcity in
    let (a5, e5) = space_floors_total float signature.search_space in
    select_tier_total signature (default_tier_policy float) a1 a2 a3 a4 a5 e1 e2 e3 e4 e5

abbrev pub unlimited : DeploymentLimits
unlimited = record { maximum_tier = t5; resource_ceilings = none }

-- Without ceilings each default tier meets its own obligations.
pub default_fits :
    {F : Type 0} (float : FloatOps F) (hash : TierPolicy F → DeploymentLimits → ℕ)
    (tier : ReasoningTier)
    → allocate_at hash (default_tier_policy float) unlimited tier
      ≡ ok (
        plan_for (default_tier_policy float) unlimited tier,
        hash (default_tier_policy float) unlimited,
      )
unfolding allocate_at plan_for default_tier_policy default_limits default_search
    search_fits_hard_limits clamp
default_fits float hash ReasoningTier.t0 = refl
default_fits float hash _ = refl

-- Under the default policy and a deployment without ceilings that permits every tier, every task is
-- given a plan.
pub default_allocates :
    {F : Type 0} (float : FloatOps F) (hash : TierPolicy F → DeploymentLimits → ℕ)
    (signature : TaskSignature)
    → (plan : BudgetPlan F) × (allocate hash signature (default_tier_policy float) unlimited
        ≡ ok (plan, hash (default_tier_policy float) unlimited))
unfolding allocate
default_allocates float hash signature =
    let (tier, e) = default_selects float signature in
    (
      plan_for (default_tier_policy float) unlimited tier,
      ground (arith, e, default_fits float hash tier),
    )

module _ {F : Type 0} (p q : BudgetProjection F) (plan : BudgetPlan F) (hash : ℕ) where
  revise_inv :
      (current : BudgetPlan F)
      → p.plan ≡ some current
      → revise p plan hash ≡ ok q
      → (any_resource (λ name.
            ltb
              (getattr (limit_resources plan.limits) name)
              (getattr p.committed name + getattr (reserved p) name))
          ≡ false)
        × (tier_order current.tier ≤ tier_order plan.tier)
        × (current.search.independent_validation_branches
            ≤ plan.search.independent_validation_branches)
        × (q ≡ record p { plan = some plan; policy_hash = some hash })
  unfolding revise
  revise_inv current e h = ground arith

  revised-IsValid :
      IsValid p
      → any_resource (λ name.
        ltb
          (getattr (limit_resources plan.limits) name)
          (getattr p.committed name + getattr (reserved p) name))
        ≡ false
      → IsValid (record p { plan = some plan; policy_hash = some hash })
  revised-IsValid v fine = record {
    fits = λ plan' e name.
        let same : plan ≡ plan' = ground arith in
        subst
          (λ (x : BudgetPlan F).
            getattr p.committed name + held name p.reservations
            ≤ getattr (limit_resources x.limits) name)
          same
          (omega (
            arith,
            getattr-reserved p name,
            ltb_false→le (getattr (limit_resources plan.limits) name)
                (getattr p.committed name + getattr (reserved p) name)
                (any_resource-false
                  (λ name.
                    ltb (getattr (limit_resources plan.limits) name)
                      (getattr p.committed name + getattr (reserved p) name))
                  fine name),
          ));
    accounted = v.accounted;
    ids_once = v.ids_once;
    actions_once = v.actions_once;
    sorted = v.sorted;
  }

  -- If a revision of a valid projection succeeds, there was a plan, the projection is valid under the
  -- new plan, and neither the tier nor the mandatory validation branches are lowered.
  pub revise-IsValid :
      IsValid p
      → revise p plan hash ≡ ok q
      → (current : BudgetPlan F) × (p.plan ≡ some current)
        × (q.plan ≡ some plan)
        × IsValid q
        × (tier_order current.tier ≤ tier_order plan.tier)
        × (current.search.independent_validation_branches
            ≤ plan.search.independent_validation_branches)
  unfolding revise
  revise-IsValid v h = elim (Option-cases p.plan) [
    | inl e ↦ absurd (ground arith)
    | inr (current, e) ↦
        let (fine, tiers, branches, same) = revise_inv current e h in
        (current, e, rw same, subst IsValid (sym same) (revised-IsValid v fine), tiers, branches)
  ]
