-- ===== src/Classifier/Canonical.antt =====
-- `TaskClassifier.canonical_events` and `provenance_events` of src/fre/modules/m01_classifier.py. A
-- ledger node of `provenance_events` is its content, the name and the entry of a dimension: `make_node`
-- adds fresh identifiers and the time.
use Prim.Native.String.{String}
use reasoning_engine.Prelude.{
  ℕ, Bool, true, false, Option, none, some, List, [], ◌∷◌, ◌++◌, keep, map, leb, sort_by, Result,
  ok, err, ◌>>=◌, ◌>>◌, raise_if, FloatOps,
}
use reasoning_engine.Budget.Types.{
  BudgetPlan, BudgetProjection, BudgetError, DeploymentLimits, empty_projection,
}
use reasoning_engine.Budget.Allocator.{TaskSignature, TierPolicy, allocate, revise}
use reasoning_engine.Reducer.{Allotment}
use reasoning_engine.Classifier.{
  Axis, SourceAnchor, TaskEnvelope, ClassificationPolicy, ClassificationError,
}
use reasoning_engine.Classifier.Dimensions.{
  Basis, explicit_input, model, policy_fallback, deterministic, ClassificationDimensionResult,
}
use reasoning_engine.Classifier.Record.{axis_rank, ClassificationOutput, ClassificationRecord}
use reasoning_engine.Classifier.Classify.{bootstrap_signature, classify}

-- The payloads of the batch.
pub data ClassificationEvent (F : Type 0) : Type 0 where
  task_preliminarily_classified : TaskSignature → ClassificationEvent F
  budget_allocated budget_revised : Allotment F → ClassificationEvent F
  ledger_node_added : Axis → ClassificationDimensionResult F → ClassificationEvent F
  task_classified : TaskSignature → ClassificationRecord F → ClassificationEvent F

pub data CanonicalError : Type 0 where
  not_fresh : CanonicalError
  not_classified : ClassificationError → CanonicalError
  no_budget : BudgetError → CanonicalError

abbrev pub of_classifier : {A : Type 0} → Result ClassificationError A → Result CanonicalError A
of_classifier (err e) = err (not_classified e)
of_classifier (ok a) = ok a

abbrev pub of_budget : {A : Type 0} → Result BudgetError A → Result CanonicalError A
of_budget (err e) = err (no_budget e)
of_budget (ok a) = ok a

abbrev pub is_model : Basis → Bool
is_model explicit_input = false
is_model model = true
is_model policy_fallback = false
is_model deterministic = false

module _ {F : Type 0} where
  -- `sorted(record.dimensions)`
  abbrev pub axis_le :
      Axis × ClassificationDimensionResult F → Axis × ClassificationDimensionResult F → Bool
  axis_le a b = leb (axis_rank a.0) (axis_rank b.0)

  unfoldable pub provenance_events : ClassificationRecord F → List (ClassificationEvent F)
  provenance_events r =
      map (λ item. ledger_node_added item.0 item.1)
        (keep (λ item. is_model item.1.basis) (sort_by axis_le r.dimensions))

  -- `current_projection is not None and current_projection.plan is not None`
  abbrev pub has_plan : Option (BudgetProjection F) → Bool
  has_plan none = false
  has_plan (some projection) = elim projection.plan [ none ↦ false | some _ ↦ true ]

module _ {F : Type 0} where
  -- the list of the events
  abbrev pub batch :
      TaskSignature
      → BudgetPlan F
      → ℕ
      → TaskSignature
      → ClassificationRecord F
      → BudgetPlan F
      → ℕ
      → List (ClassificationEvent F)
  batch preliminary bootstrap_plan bootstrap_hash signature result final_plan final_hash =
      task_preliminarily_classified preliminary
        ∷ budget_allocated (record {
          plan = bootstrap_plan;
          policy_version = bootstrap_plan.policy_version;
          policy_hash = bootstrap_hash;
        })
        ∷ provenance_events result
      ++ task_classified signature result
        ∷ budget_revised (record {
          plan = final_plan;
          policy_version = final_plan.policy_version;
          policy_hash = final_hash;
        })
        ∷ []

-- The parameters of Classifier/Classify, and the hash of a tier policy and a deployment.
module _ {F : Type 0} (float : FloatOps F) (is_blank : String → Bool)
    (accepts : Axis → SourceAnchor → Bool) (normalized : String → String)
    (policy : ClassificationPolicy F) (policy_hash : ℕ)
    (tier_hash : TierPolicy F → DeploymentLimits → ℕ) where
  unfoldable pub canonical_events :
      TaskEnvelope
      → Option (ClassificationOutput F)
      → TierPolicy F
      → DeploymentLimits
      → Option ℕ
      → Option (BudgetProjection F)
      → Result CanonicalError (List (ClassificationEvent F))
  canonical_events envelope proposal tier_policy deployment model_call_key current_projection = do
    raise_if (has_plan current_projection) not_fresh
    (bootstrap_plan, bootstrap_hash) ←
        of_budget (allocate tier_hash (bootstrap_signature envelope) tier_policy deployment)
    (signature, result) ← of_classifier (
        classify float is_blank accepts normalized policy policy_hash envelope proposal
          model_call_key)
    (final_plan, final_hash) ← of_budget (allocate tier_hash signature tier_policy deployment)
    checked ← of_budget (
        revise
          (record empty_projection {
            plan = some bootstrap_plan;
            policy_hash = some bootstrap_hash;
          })
          final_plan final_hash)
    ok (
        batch (bootstrap_signature envelope) bootstrap_plan bootstrap_hash signature result
          final_plan final_hash)
