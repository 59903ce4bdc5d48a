-- ===== src/Classifier/Dimensions.antt =====
-- `dimension` and `categorical_dimension`, the two functions inside `TaskClassifier.classify` of
-- src/fre/modules/m01_classifier.py. The dictionary and the list that they add to are in a `Trace`.
-- The parameters stand for `str.strip` leaving nothing, and for `validate_source_anchor` with
-- `validate_anchor_relevance` of src/fre/modules/source_anchors.py, which accept or refuse an anchor.
use Prim.Native.String.{String}
use reasoning_engine.Prelude.{
  ℕ, Bool, true, false, Option, none, some, List, [], ◌∷◌, ◌++◌, not, ◌==◌, if◌then◌else◌, Result,
  ok, ◌>>◌, raise_if, FloatOps,
}
use reasoning_engine.Budget.Allocator.{Ordinal4, SearchSpaceClass}
use reasoning_engine.Budget.Tiers.{ordinal_order}
use reasoning_engine.Classifier.{
  TaskType, HorizonClass, OutputForm, Axis, SourceAnchor, ClassificationPolicy, ClassificationError,
  harder, is_empty, rationale_missing, support_missing, anchor_refused,
}

-- the value of a dimension
pub data Value : Type 0 where
  ordinal_value : Ordinal4 → Value
  space_value : SearchSpaceClass → Value
  type_value : TaskType → Value
  horizon_value : HorizonClass → Value
  form_value : OutputForm → Value

-- the texts of `basis`
pub data Basis : Type 0 where
  explicit_input model policy_fallback deterministic : Basis

-- The labels of the stages; the text that joins them is their list, and `None` the empty one.
pub data Stage : Type 0 where
  permission_floor low_confidence_escalation no_proposal_fallback : Stage

-- `ClassificationDimensionProposal`
pub record DimensionProposal (F : Type 0) : Type 0 where
  pub estimate : Ordinal4
  pub confidence : F
  pub conservative_upper : Ordinal4
  pub anchors : List SourceAnchor
  pub rationale : String

-- `TaskTypeProposal`, `SearchSpaceProposal` and `HorizonProposal`
pub record CategoricalProposal (F E : Type 0) : Type 0 where
  pub estimate : E
  pub confidence : F
  pub anchors : List SourceAnchor
  pub rationale : String

pub record ClassificationDimensionResult (F : Type 0) : Type 0 where
  pub estimated : Value
  pub effective : Value
  pub confidence : Option F
  pub conservative_upper : Option Ordinal4
  pub source_anchors : List SourceAnchor
  pub basis : Basis
  pub rationale : Option String
  pub override_basis : List Stage
  pub policy_version : String

pub record FloorOverrideRecord : Type 0 where
  pub axis : Axis
  pub reason : List Stage
  pub policy_version : String
  pub policy_hash : ℕ
  pub previous_floor : Value
  pub new_floor : Value
  pub approving_rule : List Stage

-- the dictionary `dimensions`, in the order of insertion, and the list `floor_overrides`
pub record Trace (F : Type 0) : Type 0 where
  pub dimensions : List (Axis × ClassificationDimensionResult F)
  pub floor_overrides : List FloorOverrideRecord

-- `confidence is not None and confidence < policy.confidence_threshold`
abbrev pub is_unsure : {F : Type 0} → FloatOps F → ClassificationPolicy F → Option F → Bool
is_unsure float policy none = false
is_unsure float policy (some confidence) = float.lt confidence policy.confidence_threshold

-- `value or default`
abbrev pub or_default : Option Ordinal4 → Ordinal4 → Ordinal4
or_default none default = default
or_default (some value) default = value

abbrev pub is_given : {A : Type 0} → Option A → Bool
is_given none = false
is_given (some _) = true

-- `a != b`
abbrev pub differs : Ordinal4 → Ordinal4 → Bool
differs a b = not (ordinal_order a == ordinal_order b)

-- The three stages: the value that goes on, and the labels of those that changed it.
unfoldable pub escalate :
    Ordinal4 → Ordinal4 → Bool → Ordinal4 → Bool → Ordinal4 → Ordinal4 × List Stage
escalate estimate floor low_confidence_applies bound fallback_applies fallback =
    let after_floor = harder estimate floor in
    let after_low_confidence =
      if low_confidence_applies then harder after_floor bound else after_floor in
    let after_fallback =
      if fallback_applies then harder after_low_confidence fallback else after_low_confidence in
    (
      after_fallback,
      (if differs after_floor estimate then permission_floor ∷ [] else [])
          ++ (if differs after_low_confidence after_floor
              then low_confidence_escalation ∷ []
              else [])
          ++ (if differs after_fallback after_low_confidence
              then no_proposal_fallback ∷ []
              else []),
    )

module _ {F : Type 0} (policy : ClassificationPolicy F) (policy_hash : ℕ) where
  -- `dimensions[name] = ...`, and `record_override` where a label is there
  unfoldable pub note : Axis → ClassificationDimensionResult F → Trace F → Trace F
  note name result trace = record {
    dimensions = trace.dimensions ++ (name, result) ∷ [];
    floor_overrides =
        if is_empty result.override_basis
        then trace.floor_overrides
        else trace.floor_overrides
          ++ record {
            axis = name;
            reason = result.override_basis;
            policy_version = policy.version;
            policy_hash = policy_hash;
            previous_floor = result.estimated;
            new_floor = result.effective;
            approving_rule = result.override_basis;
          }
            ∷ [];
  }

module _ (is_blank : String → Bool) where
  -- `not rationale or not rationale.strip()`
  abbrev pub lacks_rationale : Option String → Bool
  lacks_rationale none = true
  lacks_rationale (some rationale) = is_blank rationale

  -- `_require_model_rationale_and_support`
  unfoldable pub require_rationale_and_support :
      Option String → List SourceAnchor → Result ClassificationError (Unit {0})
  require_rationale_and_support rationale anchors =
      raise_if (lacks_rationale rationale) rationale_missing
      >> raise_if (is_empty anchors) support_missing

module _ (accepts : Axis → SourceAnchor → Bool) where
  -- the loops over the proposed anchors
  unfoldable pub check_anchors : Axis → List SourceAnchor → Result ClassificationError (Unit {0})
  check_anchors name [] = ok tt
  check_anchors name (anchor ∷ anchors) =
      raise_if (not (accepts name anchor)) anchor_refused >> check_anchors name anchors
