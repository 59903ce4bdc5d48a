-- ===== src/Tests/Plans.antt =====
-- The budget allocator of src/fre/modules/m02_budget.py on concrete tasks.
use reasoning_engine.Prelude.{
  ℕ, ◌≤◌, ◌≡◌, refl, some, ok, err, FloatOps, ltb, leb, ◌+◌, ◌-◌, ◌==◌, arith,
}
use reasoning_engine.Budget.Types.{
  t3, t5, tier_order, BudgetPlan, DeploymentLimits, deployment_policy_conflict,
}
use reasoning_engine.Budget.Allocator.{
  Ordinal4, SearchSpaceClass, TaskSignature, TierPolicy, max_tier, select_tier, clamp,
  search_fits_hard_limits, plan_for, allocate_at, allocate, limits_row, default_limits,
  default_search, default_tier_policy,
}
use reasoning_engine.Budget.Tiers.{IsBelow, IsMonotone, select_tier_monotone}
use reasoning_engine.Budget.Plans.{default_allocates, unlimited, IsAllocated, allocate-IsAllocated}

-- Numbers in hundredths, in place of floats.
abbrev pub whole : FloatOps ℕ
whole = record {
  hundredths = λ n. n;
  add = ◌+◌;
  sub = ◌-◌;
  div = λ m n. m;
  div_by = λ m x. m;
  lt = ltb;
  le = leb;
  is_zero = λ x. x == 0;
}

abbrev policy : TierPolicy ℕ
policy = default_tier_policy whole

abbrev policy_hash : TierPolicy ℕ → DeploymentLimits → ℕ
policy_hash _ _ = 11

abbrev task : TaskSignature
task = record {
  consequence = Ordinal4.high;
  irreversibility = Ordinal4.low;
  ambiguity = Ordinal4.medium;
  search_space = SearchSpaceClass.bounded;
  evidence_scarcity = Ordinal4.low;
}

abbrev harder : TaskSignature
harder = record task { consequence = Ordinal4.critical; irreversibility = Ordinal4.critical }

abbrev deployment : DeploymentLimits
deployment = record {
  maximum_tier = t3;
  resource_ceilings = some (limits_row 5 12 1 100000 32768 6 2 400);
}

task_tier : select_tier task policy ≡ ok t3
unfolding select_tier default_tier_policy max_tier
task_tier = refl

harder_tier : select_tier harder policy ≡ ok t5
unfolding select_tier default_tier_policy
harder_tier = refl

harder_refused : allocate policy_hash harder policy deployment ≡ err deployment_policy_conflict
unfolding allocate allocate_at select_tier default_tier_policy
harder_refused = refl

allocated_run : allocate policy_hash task policy deployment ≡ ok (plan_for policy deployment t3, 11)
unfolding allocate allocate_at select_tier default_tier_policy max_tier plan_for clamp
    default_limits default_search search_fits_hard_limits
allocated_run = refl

allocate-IsAllocated_example : IsAllocated task policy deployment (plan_for policy deployment t3)
allocate-IsAllocated_example =
    allocate-IsAllocated policy_hash task policy deployment (plan_for policy deployment t3) 11
      allocated_run

policy-IsMonotone : IsMonotone policy
unfolding default_tier_policy
policy-IsMonotone = record {
  consequence =
      λ d d' a b h e f. elim d [ Ordinal4.low ↦ ground (arith, h, e, f) | _ ↦ ground arith ];
  irreversibility = λ d d' a b h e f. ground arith;
  ambiguity = λ d d' a b h e f. ground arith;
  evidence = λ d d' a b h e f. ground arith;
  space = λ d d' a b h e f. ground arith;
}

task-IsBelow : IsBelow task harder
task-IsBelow = record {
  consequence = omega arith;
  irreversibility = omega arith;
  ambiguity = omega arith;
  evidence = omega arith;
  space = omega arith;
}

select_tier_monotone_example : tier_order t3 ≤ tier_order t5
select_tier_monotone_example =
    select_tier_monotone policy task harder t3 t5 policy-IsMonotone task-IsBelow task_tier
      harder_tier

default_allocates_example :
    (plan : BudgetPlan ℕ) × (allocate policy_hash harder policy unlimited
      ≡ ok (plan, policy_hash policy unlimited))
default_allocates_example = default_allocates whole policy_hash harder
