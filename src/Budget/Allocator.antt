-- ===== src/Budget/Allocator.antt =====
-- `BudgetAllocator` and the default policy of src/fre/modules/m02_budget.py, with the signature
-- dimensions that it reads from src/fre/domain/task.py.
use Prim.Native.String.{String}
use reasoning_engine.Prelude.{
  ℕ, ◌+◌, Bool, true, false, Option, none, some, ◌&&◌, ◌||◌, not, ltb, min, if◌then◌else◌, Result,
  ok, err, ◌>>=◌, ◌>>◌, raise_if, FloatOps,
}
use reasoning_engine.Budget.Types.{
  ReasoningTier, t0, t1, t2, t3, t4, t5, tier_order, getattr, any_resource, limit_resources,
  BudgetLimits, SearchPolicy, BudgetPlan, TierDefinition, DeploymentLimits, BudgetProjection,
  BudgetError, invalid_budget_revision, deployment_policy_conflict, key_error, validation_error,
}
use reasoning_engine.Budget.Meter.{reserved}

pub data Ordinal4 : Type 0 where
  low medium high critical : Ordinal4

pub data SearchSpaceClass : Type 0 where
  closed bounded open_ended : SearchSpaceClass

-- The dimensions of `TaskSignature` that `allocate` reads.
pub record TaskSignature : Type 0 where
  pub consequence : Ordinal4
  pub irreversibility : Ordinal4
  pub ambiguity : Ordinal4
  pub search_space : SearchSpaceClass
  pub evidence_scarcity : Ordinal4

-- A dictionary by dimension value is a function, with `none` for a missing key; `tiers` is total,
-- as the validator `all_tiers_present` demands.
pub record TierPolicy (F : Type 0) : Type 0 where
  pub policy_version : String
  pub tiers : ReasoningTier → TierDefinition F
  pub consequence_floors : Ordinal4 → Option ReasoningTier
  pub irreversibility_floors : Ordinal4 → Option ReasoningTier
  pub ambiguity_floors : Ordinal4 → Option ReasoningTier
  pub evidence_scarcity_floors : Ordinal4 → Option ReasoningTier
  pub search_space_floors : SearchSpaceClass → Option ReasoningTier

-- `dictionary[key]`
abbrev pub or_key_error : {A : Type 0} → Option A → Result BudgetError A
or_key_error none = err key_error
or_key_error (some a) = ok a

-- `max` of two tiers by `TIER_ORDER`: the first of two equal ones
unfoldable pub max_tier : ReasoningTier → ReasoningTier → ReasoningTier
max_tier a b = if ltb (tier_order a) (tier_order b) then b else a

abbrev pub is_critical : Ordinal4 → Bool
is_critical Ordinal4.critical = true
is_critical _ = false

-- the tier that `allocate` settles on, before the deployment's maximum is looked at
unfoldable pub select_tier :
    {F : Type 0} → TaskSignature → TierPolicy F → Result BudgetError ReasoningTier
unfolding max_tier
select_tier signature policy = do
  consequence ← or_key_error (policy.consequence_floors signature.consequence)
  irreversibility ← or_key_error (policy.irreversibility_floors signature.irreversibility)
  ambiguity ← or_key_error (policy.ambiguity_floors signature.ambiguity)
  evidence ← or_key_error (policy.evidence_scarcity_floors signature.evidence_scarcity)
  space ← or_key_error (policy.search_space_floors signature.search_space)
  ok (
      if is_critical signature.consequence && is_critical signature.irreversibility
      then t5
      else max_tier (max_tier (max_tier (max_tier consequence irreversibility) ambiguity) evidence)
          space)

-- `_clamp`
unfoldable pub clamp : BudgetLimits → Option BudgetLimits → BudgetLimits
clamp limits none = limits
clamp limits (some ceilings) = record {
  max_iterations = min limits.max_iterations ceilings.max_iterations;
  max_llm_calls = min limits.max_llm_calls ceilings.max_llm_calls;
  max_tool_calls = min limits.max_tool_calls ceilings.max_tool_calls;
  max_input_tokens = min limits.max_input_tokens ceilings.max_input_tokens;
  max_output_tokens = min limits.max_output_tokens ceilings.max_output_tokens;
  max_candidates = min limits.max_candidates ceilings.max_candidates;
  max_concurrent_actions = min limits.max_concurrent_actions ceilings.max_concurrent_actions;
  max_runtime_seconds = min limits.max_runtime_seconds ceilings.max_runtime_seconds;
}

-- `BudgetPlan.search_fits_hard_limits`
unfoldable pub search_fits_hard_limits : BudgetLimits → SearchPolicy → Bool
search_fits_hard_limits limits search =
    if ltb limits.max_candidates search.initial_candidate_count
      || ltb limits.max_llm_calls search.independent_validation_branches
    then false
    else true

-- the plan that `allocate` builds for a tier within the deployment's limits
unfoldable pub plan_for :
    {F : Type 0} → TierPolicy F → DeploymentLimits → ReasoningTier → BudgetPlan F
unfolding clamp
plan_for policy deployment tier = record {
  tier = tier;
  limits = clamp (policy.tiers tier).limits deployment.resource_ceilings;
  search = (policy.tiers tier).search;
  acquisition_threshold = (policy.tiers tier).acquisition_threshold;
  stop_threshold = (policy.tiers tier).stop_threshold;
  policy_version = policy.policy_version;
}

-- `allocate`; `policy_hash` is the hash of the policy and the deployment's limits.
module _ {F : Type 0} (policy_hash : TierPolicy F → DeploymentLimits → ℕ) where
  -- the part of `allocate` after the tier is known
  unfoldable pub allocate_at :
      TierPolicy F → DeploymentLimits → ReasoningTier → Result BudgetError (BudgetPlan F × ℕ)
  allocate_at policy deployment tier = do
    raise_if (ltb (tier_order deployment.maximum_tier) (tier_order tier)) deployment_policy_conflict
    let plan = plan_for policy deployment tier
    raise_if
        (ltb plan.limits.max_candidates plan.search.initial_candidate_count
          || ltb plan.limits.max_llm_calls plan.search.independent_validation_branches)
        deployment_policy_conflict
    raise_if (not (search_fits_hard_limits plan.limits plan.search)) validation_error
    ok (plan, policy_hash policy deployment)

  unfoldable pub allocate :
      TaskSignature → TierPolicy F → DeploymentLimits → Result BudgetError (BudgetPlan F × ℕ)
  unfolding allocate_at
  allocate signature policy deployment = do
    tier ← select_tier signature policy
    allocate_at policy deployment tier

unfoldable pub revise :
    {F : Type 0} → BudgetProjection F → BudgetPlan F → ℕ → Result BudgetError (BudgetProjection F)
revise projection plan policy_hash = elim projection.plan [
  | none ↦ err invalid_budget_revision
  | some current ↦ do
    raise_if
        (any_resource (λ name.
          ltb (getattr (limit_resources plan.limits) name)
            (getattr projection.committed name + getattr (reserved projection) name)))
        invalid_budget_revision
    raise_if (ltb (tier_order plan.tier) (tier_order current.tier)) invalid_budget_revision
    raise_if
        (ltb plan.search.independent_validation_branches
          current.search.independent_validation_branches)
        invalid_budget_revision
    ok (record projection { plan = some plan; policy_hash = some policy_hash })
]

-- `BudgetLimits(**dict(zip(names, row)))`
abbrev pub limits_row : ℕ → ℕ → ℕ → ℕ → ℕ → ℕ → ℕ → ℕ → BudgetLimits
limits_row iterations llm tools input output candidates concurrent runtime = record {
  max_iterations = iterations;
  max_llm_calls = llm;
  max_tool_calls = tools;
  max_input_tokens = input;
  max_output_tokens = output;
  max_candidates = candidates;
  max_concurrent_actions = concurrent;
  max_runtime_seconds = runtime;
}

-- `SearchPolicy(**dict(zip(names, row)))`
abbrev pub search_row : ℕ → ℕ → ℕ → ℕ → ℕ → ℕ → ℕ → SearchPolicy
search_row count depth views order falsifiers branches samples = record {
  initial_candidate_count = count;
  max_candidate_depth = depth;
  max_representation_views = views;
  synthesis_order_limit = order;
  falsifier_operator_limit = falsifiers;
  independent_validation_branches = branches;
  sensitivity_samples = samples;
}

-- The rows of `default_tier_policy`.
unfoldable pub default_limits : ReasoningTier → BudgetLimits
default_limits ReasoningTier.t0 = limits_row 1 1 0 8192 2048 1 1 60
default_limits ReasoningTier.t1 = limits_row 2 2 0 16384 4096 2 1 120
default_limits ReasoningTier.t2 = limits_row 4 6 1 65536 16384 4 2 300
default_limits ReasoningTier.t3 = limits_row 6 12 2 131072 32768 6 3 600
default_limits ReasoningTier.t4 = limits_row 10 24 5 262144 65536 10 4 1200
default_limits ReasoningTier.t5 = limits_row 14 48 10 524288 131072 24 4 1800

unfoldable pub default_search : ReasoningTier → SearchPolicy
default_search ReasoningTier.t0 = search_row 1 1 1 1 0 0 0
default_search ReasoningTier.t1 = search_row 2 1 1 1 1 0 0
default_search ReasoningTier.t2 = search_row 4 2 1 1 2 0 16
default_search ReasoningTier.t3 = search_row 6 3 2 2 4 0 32
default_search ReasoningTier.t4 = search_row 10 4 2 3 10 1 64
default_search ReasoningTier.t5 = search_row 24 4 2 3 10 2 128

-- `thresholds`, in hundredths
abbrev default_threshold : ReasoningTier → ℕ
default_threshold ReasoningTier.t0 = 100
default_threshold ReasoningTier.t1 = 100
default_threshold ReasoningTier.t2 = 75
default_threshold ReasoningTier.t3 = 50
default_threshold ReasoningTier.t4 = 35
default_threshold ReasoningTier.t5 = 25

-- `ordinal`, with the tiers of HIGH and CRITICAL that a floor overrides
abbrev pub ordinal : ReasoningTier → ReasoningTier → Ordinal4 → Option ReasoningTier
ordinal high_tier critical_tier Ordinal4.low = some t0
ordinal high_tier critical_tier Ordinal4.medium = some t1
ordinal high_tier critical_tier Ordinal4.high = some high_tier
ordinal high_tier critical_tier Ordinal4.critical = some critical_tier

abbrev space_floors : SearchSpaceClass → Option ReasoningTier
space_floors SearchSpaceClass.closed = some t0
space_floors SearchSpaceClass.bounded = some t1
space_floors SearchSpaceClass.open_ended = some t3

unfoldable pub default_tier_policy : {F : Type 0} → FloatOps F → TierPolicy F
default_tier_policy float = record {
  policy_version = "wave2-default/1.0";
  tiers = λ tier. record {
    limits = default_limits tier;
    search = default_search tier;
    acquisition_threshold = float.hundredths (default_threshold tier);
    stop_threshold = float.hundredths 0;
  };
  consequence_floors = ordinal t3 t4;
  irreversibility_floors = ordinal t2 t4;
  ambiguity_floors = ordinal t2 t3;
  evidence_scarcity_floors = ordinal t2 t3;
  search_space_floors = space_floors;
}
