-- ===== src/Budget/Types.antt =====
-- The contracts of src/fre/domain/budget.py. Python's `int` fields with `ge=0` are naturals, and an
-- identifier, which the code only compares and sorts by, is the number of its text in that order.
use Prim.Native.String.{String}
use reasoning_engine.Prelude.{ℕ, Bool, Option, none, List, [], ◌∷◌, any}

pub data ReasoningTier : Type 0 where
  t0 t1 t2 t3 t4 t5 : ReasoningTier

-- `TIER_ORDER`
abbrev pub tier_order : ReasoningTier → ℕ
tier_order ReasoningTier.t0 = 0
tier_order ReasoningTier.t1 = 1
tier_order ReasoningTier.t2 = 2
tier_order ReasoningTier.t3 = 3
tier_order ReasoningTier.t4 = 4
tier_order ReasoningTier.t5 = 5

-- The names in `RESOURCE_NAMES`.
pub data Resource : Type 0 where
  iterations llm_calls tool_calls input_tokens output_tokens candidates runtime_seconds : Resource

abbrev pub resource_names : List Resource
resource_names =
    iterations ∷ llm_calls ∷ tool_calls ∷ input_tokens ∷ output_tokens ∷ candidates
    ∷ runtime_seconds ∷ []

pub record ResourceVector : Type 0 where
  pub iterations : ℕ
  pub llm_calls : ℕ
  pub tool_calls : ℕ
  pub input_tokens : ℕ
  pub output_tokens : ℕ
  pub candidates : ℕ
  pub runtime_seconds : ℕ

-- `getattr(vector, name)`
unfoldable pub getattr : ResourceVector → Resource → ℕ
getattr v Resource.iterations = v.iterations
getattr v Resource.llm_calls = v.llm_calls
getattr v Resource.tool_calls = v.tool_calls
getattr v Resource.input_tokens = v.input_tokens
getattr v Resource.output_tokens = v.output_tokens
getattr v Resource.candidates = v.candidates
getattr v Resource.runtime_seconds = v.runtime_seconds

-- `ResourceVector(**{name: f(name) for name in RESOURCE_NAMES})`
unfoldable pub vector : (Resource → ℕ) → ResourceVector
vector f = record {
  iterations = f Resource.iterations;
  llm_calls = f Resource.llm_calls;
  tool_calls = f Resource.tool_calls;
  input_tokens = f Resource.input_tokens;
  output_tokens = f Resource.output_tokens;
  candidates = f Resource.candidates;
  runtime_seconds = f Resource.runtime_seconds;
}

-- `any(test(name) for name in RESOURCE_NAMES)`
unfoldable pub any_resource : (Resource → Bool) → Bool
any_resource test = any test resource_names

-- `ResourceVector()`
unfoldable pub no_resources : ResourceVector
unfolding vector
no_resources = vector (λ _. 0)

pub record BudgetLimits : Type 0 where
  pub max_iterations : ℕ
  pub max_llm_calls : ℕ
  pub max_tool_calls : ℕ
  pub max_input_tokens : ℕ
  pub max_output_tokens : ℕ
  pub max_candidates : ℕ
  pub max_concurrent_actions : ℕ
  pub max_runtime_seconds : ℕ

-- `BudgetLimits.resources`
unfoldable pub limit_resources : BudgetLimits → ResourceVector
limit_resources l = record {
  iterations = l.max_iterations;
  llm_calls = l.max_llm_calls;
  tool_calls = l.max_tool_calls;
  input_tokens = l.max_input_tokens;
  output_tokens = l.max_output_tokens;
  candidates = l.max_candidates;
  runtime_seconds = l.max_runtime_seconds;
}

pub record SearchPolicy : Type 0 where
  pub initial_candidate_count : ℕ
  pub max_candidate_depth : ℕ
  pub max_representation_views : ℕ
  pub synthesis_order_limit : ℕ
  pub falsifier_operator_limit : ℕ
  pub independent_validation_branches : ℕ
  pub sensitivity_samples : ℕ

pub record BudgetPlan (F : Type 0) : Type 0 where
  pub tier : ReasoningTier
  pub limits : BudgetLimits
  pub search : SearchPolicy
  pub acquisition_threshold : F
  pub stop_threshold : F
  pub policy_version : String

pub record TierDefinition (F : Type 0) : Type 0 where
  pub limits : BudgetLimits
  pub search : SearchPolicy
  pub acquisition_threshold : F
  pub stop_threshold : F

pub record DeploymentLimits : Type 0 where
  pub maximum_tier : ReasoningTier
  pub resource_ceilings : Option BudgetLimits

pub record BudgetReservation : Type 0 where
  pub reservation_id : ℕ
  pub action_id : ℕ
  pub resources : ResourceVector

pub record BudgetProjection (F : Type 0) : Type 0 where
  pub plan : Option (BudgetPlan F)
  pub policy_hash : Option ℕ
  pub committed : ResourceVector
  pub reservations : List BudgetReservation
  pub usage_events : List ResourceVector

unfoldable pub empty_projection : {F : Type 0} → BudgetProjection F
unfolding no_resources
empty_projection = record {
  plan = none;
  policy_hash = none;
  committed = no_resources;
  reservations = [];
  usage_events = [];
}

pub record BudgetRemaining : Type 0 where
  pub resources : ResourceVector
  pub active_concurrent_actions : ℕ
  pub projection_hash : ℕ

-- The exceptions; `validation_error` is pydantic's, raised where a value breaks a field's bound,
-- and `key_error` is that of a missing dictionary key.
pub data BudgetError : Type 0 where
  budget_exceeded invalid_budget_revision reservation_conflict : BudgetError
  invalid_reservation_settlement deployment_policy_conflict : BudgetError
  validation_error key_error : BudgetError
