-- ===== src/Budget/Burn.antt =====
-- `BudgetMeter.burn_rate` of src/fre/runtime/budget_meter.py, with its contracts.
use reasoning_engine.Prelude.{
  ℕ, ◌+◌, ◌-◌, ◌*◌, Bool, false, Option, none, some, List, sum_by, length, take, drop, ltb, ◌==◌,
  if◌then◌else◌, Result, ok, err, ◌>>=◌, FloatOps,
}
use reasoning_engine.Budget.Types.{
  Resource, ResourceVector, getattr, limit_resources, BudgetPlan, BudgetProjection, BudgetError,
  budget_exceeded,
}
use reasoning_engine.Budget.Meter.{remaining}

pub data RateAvailability : Type 0 where
  available insufficient_data zero_rate : RateAvailability

pub data BurnTrend : Type 0 where
  increasing stable decreasing insufficient_data : BurnTrend

pub record ResourceBurnRate (F : Type 0) : Type 0 where
  pub availability : RateAvailability
  pub committed : ℕ
  pub remaining : ℕ
  pub consumption_per_usage_event : Option F
  pub consumption_per_iteration : Option F
  pub previous_window_rate : Option F
  pub trend : BurnTrend
  pub projected_iterations_to_exhaustion : Option F
  pub ceiling_proximity : F

pub record BudgetBurnRate (F : Type 0) : Type 0 where
  pub window_size : ℕ
  pub resources : Resource → ResourceBurnRate F
  pub source_event_hash : ℕ
  pub source_event_range : Option (ℕ × ℕ)
  pub projection_hash : ℕ

-- The position that a Python slice bound `-k` stands for in a list of `n` items: `-0` is 0.
abbrev pub from_end : ℕ → ℕ → ℕ
from_end n k = if k == 0 then 0 else n - k

-- `events[-window_size:]`
unfoldable pub current_events : ℕ → List ResourceVector → List ResourceVector
current_events window events = drop (from_end (length events) window) events

-- `events[-2 * window_size : -window_size]`
unfoldable pub previous_events : ℕ → List ResourceVector → List ResourceVector
previous_events window events =
    let start = from_end (length events) (2 * window) in
    take (from_end (length events) window - start) (drop start events)

-- `(len(events) - len(current) + 1, len(events))` where there is an event
unfoldable pub source_range : ℕ → List ResourceVector → Option (ℕ × ℕ)
unfolding current_events
source_range window events =
    let current = current_events window events in
    if length current == 0 then none else some (length events - length current + 1, length events)

module _ {F : Type 0} (float : FloatOps F) where
  -- `total / count if count else None`
  unfoldable pub rate : ℕ → ℕ → Option F
  rate total count = if count == 0 then none else some (float.div total count)

  abbrev pub rate_is_zero : Option F → Bool
  rate_is_zero none = false
  rate_is_zero (some r) = float.is_zero r

  -- the trend of two rates of which the current one is available
  unfoldable pub trend_of : Option F → Option F → BurnTrend
  trend_of current none = BurnTrend.insufficient_data
  trend_of none (some previous) = BurnTrend.stable
  trend_of (some current) (some previous) =
      if float.lt previous current
      then increasing
      else if float.lt current previous
      then decreasing
      else stable

  -- the two fields that the chain of tests on the window sets
  unfoldable pub classify : ℕ → Option F → Option F → RateAvailability × BurnTrend
  unfolding trend_of
  classify count current previous =
      if ltb count 2
      then (RateAvailability.insufficient_data, BurnTrend.insufficient_data)
      else if rate_is_zero current
      then (zero_rate, stable)
      else (available, trend_of current previous)

  unfoldable pub projected : ℕ → Option F → Option F
  projected left none = none
  projected left (some r) =
      if float.lt (float.hundredths 0) r then some (float.div_by left r) else none

  -- one entry of the report
  unfoldable pub resource_rate :
      ℕ → BudgetProjection F → BudgetPlan F → ResourceVector → Resource → ResourceBurnRate F
  unfolding classify rate projected current_events previous_events
  resource_rate window projection plan left name =
      let current = current_events window projection.usage_events in
      let previous = previous_events window projection.usage_events in
      let total = sum_by (λ item. getattr item name) current in
      let current_rate = rate total (length current) in
      let previous_rate = rate (sum_by (λ item. getattr item name) previous) (length previous) in
      let iteration_rate = rate total (sum_by (λ item. getattr item Resource.iterations) current) in
      let allocated = getattr (limit_resources plan.limits) name in
      record {
        availability = (classify (length current) current_rate previous_rate).0;
        committed = getattr projection.committed name;
        remaining = getattr left name;
        consumption_per_usage_event = current_rate;
        consumption_per_iteration = iteration_rate;
        previous_window_rate = previous_rate;
        trend = (classify (length current) current_rate previous_rate).1;
        projected_iterations_to_exhaustion = projected (getattr left name) iteration_rate;
        ceiling_proximity =
            if allocated == 0
            then float.hundredths 0
            else float.div (getattr projection.committed name) allocated;
      }

  -- The hashes of the projection, of the usage events and of the report are parameters.
  unfoldable pub burn_rate :
      (BudgetProjection F → ℕ)
      → (List ResourceVector → ℕ)
      → (ℕ → (Resource → ResourceBurnRate F) → ℕ → Option (ℕ × ℕ) → ℕ)
      → BudgetProjection F
      → ℕ
      → Result BudgetError (BudgetBurnRate F)
  unfolding resource_rate source_range
  burn_rate projection_hash event_hash report_hash projection window = do
    left ← remaining projection_hash projection
    elim projection.plan [
      | none ↦ err budget_exceeded
      | some plan ↦
          let rates = resource_rate window projection plan left.resources in
          let source_hash = event_hash projection.usage_events in
          let range = source_range window projection.usage_events in
          ok (record {
            window_size = window;
            resources = rates;
            source_event_hash = source_hash;
            source_event_range = range;
            projection_hash = report_hash window rates source_hash range;
          })
    ]
