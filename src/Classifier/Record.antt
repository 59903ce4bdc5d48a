-- ===== src/Classifier/Record.antt =====
-- `ClassificationRecord` of src/fre/domain/task.py with its validator, and the proposal of the model,
-- `ClassificationOutput` of src/fre/prompts/schemas.py.
use Prim.Native.String.{String}
use reasoning_engine.Prelude.{
  ℕ, Bool, false, Option, none, some, List, [], ◌∷◌, ◌&&◌, not, any, map, keep, ◌==◌, if◌then◌else◌,
  is_subset, nat_eq,
}
use reasoning_engine.Budget.Allocator.{SearchSpaceClass}
use reasoning_engine.Budget.Tiers.{ordinal_order, space_order}
use reasoning_engine.Classifier.{
  TaskType, HorizonClass, OutputForm, Axis, consequence, irreversibility, ambiguity,
  evidence_scarcity, task_type, search_space, horizon, output_form, analysis, decision, design,
  diagnosis, research, immediate, short, long, text, structured, artifact,
}
use reasoning_engine.Classifier.Dimensions.{
  Value, ordinal_value, space_value, type_value, horizon_value, form_value, Stage,
  DimensionProposal, CategoricalProposal, ClassificationDimensionResult, FloorOverrideRecord,
}

-- The numbers of the values of the enums, which tell them apart.
abbrev pub axis_rank : Axis → ℕ
axis_rank ambiguity = 0
axis_rank consequence = 1
axis_rank evidence_scarcity = 2
axis_rank horizon = 3
axis_rank irreversibility = 4
axis_rank output_form = 5
axis_rank search_space = 6
axis_rank task_type = 7

abbrev pub type_rank : TaskType → ℕ
type_rank analysis = 0
type_rank decision = 1
type_rank design = 2
type_rank diagnosis = 3
type_rank research = 4

abbrev pub horizon_rank : HorizonClass → ℕ
horizon_rank immediate = 0
horizon_rank short = 1
horizon_rank long = 2

abbrev pub form_rank : OutputForm → ℕ
form_rank text = 0
form_rank structured = 1
form_rank artifact = 2

abbrev pub same_value : Value → Value → Bool
same_value (ordinal_value a) (ordinal_value b) = ordinal_order a == ordinal_order b
same_value (space_value a) (space_value b) = space_order a == space_order b
same_value (type_value a) (type_value b) = type_rank a == type_rank b
same_value (horizon_value a) (horizon_value b) = horizon_rank a == horizon_rank b
same_value (form_value a) (form_value b) = form_rank a == form_rank b
same_value _ _ = false

pub record ClassificationOutput (F : Type 0) : Type 0 where
  pub task_type : CategoricalProposal F TaskType
  pub consequence : DimensionProposal F
  pub reversibility : DimensionProposal F
  pub ambiguity : DimensionProposal F
  pub evidence_scarcity : DimensionProposal F
  pub search_space : CategoricalProposal F SearchSpaceClass
  pub horizon : CategoricalProposal F HorizonClass

pub data Mode : Type 0 where
  hybrid deterministic_fallback : Mode

pub record ClassificationRecord (F : Type 0) : Type 0 where
  pub policy_version : String
  pub policy_hash : ℕ
  pub mode : Mode
  pub fallback_used : Bool
  pub dimensions : List (Axis × ClassificationDimensionResult F)
  pub model_call_key : Option ℕ
  pub diagnostics : List (Axis × List Stage)
  pub floor_overrides : List FloorOverrideRecord

-- `by_axis.get(name)`: the last record of an axis
unfoldable pub by_axis : Axis → List FloorOverrideRecord → Option FloorOverrideRecord
by_axis name [] = none
by_axis name (override ∷ overrides) = elim (by_axis name overrides) [
  | some later ↦ some later
  | none ↦ if axis_rank override.axis == axis_rank name then some override else none
]

module _ {F : Type 0} where
  -- `dimension.effective != dimension.estimated`
  abbrev pub deviates : Axis × ClassificationDimensionResult F → Bool
  deviates item = not (same_value item.1.effective item.1.estimated)

  -- the body of the loop over the deviated dimensions
  unfoldable pub matches : List FloorOverrideRecord → Axis × ClassificationDimensionResult F → Bool
  unfolding by_axis
  matches overrides item = elim (by_axis item.0 overrides) [
    | none ↦ false
    | some override ↦
        same_value override.previous_floor item.1.estimated
        && same_value override.new_floor item.1.effective
  ]

  -- `_floor_overrides_are_exhaustive`: whether the record passes
  unfoldable pub is_exhaustive : ClassificationRecord F → Bool
  unfolding matches
  is_exhaustive r =
      let deviated = keep deviates r.dimensions in
      let names = map (λ item. axis_rank item.0) deviated in
      let audited = map (λ override. axis_rank override.axis) r.floor_overrides in
      (is_subset names audited && is_subset audited names)
      && not (any (λ item. not (matches r.floor_overrides item)) deviated)
