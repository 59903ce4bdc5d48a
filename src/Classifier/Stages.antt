-- ===== src/Classifier/Stages.antt =====
-- The bodies of `dimension` and `categorical_dimension` in `TaskClassifier.classify` of
-- src/fre/modules/m01_classifier.py.
use Prim.Native.String.{String}
use reasoning_engine.Prelude.{
  ℕ, Bool, Option, none, some, List, [], ◌∷◌, ◌++◌, ◌&&◌, not, if◌then◌else◌, nat_eq, Result, ok,
  ◌>>◌, FloatOps,
}
use reasoning_engine.Budget.Allocator.{Ordinal4}
use reasoning_engine.Classifier.{
  Axis, SourceAnchor, ClassificationPolicy, ClassificationError, reversibility_to_irreversibility,
  validate_ordinal_bound, is_ascending, harder,
}
use reasoning_engine.Classifier.Dimensions.{
  Value, ordinal_value, Basis, explicit_input, model, policy_fallback, Stage,
  low_confidence_escalation, DimensionProposal, CategoricalProposal, ClassificationDimensionResult,
  Trace, is_unsure, or_default, is_given, escalate, note, require_rationale_and_support,
  check_anchors,
}
use reasoning_engine.Classifier.Record.{same_value}

-- the arguments of `dimension` that come from the proposal
pub record Claim (F : Type 0) : Type 0 where
  pub proposed : Option Ordinal4
  pub confidence : Option F
  pub upper : Option Ordinal4
  pub rationale : Option String
  pub anchors : List SourceAnchor

abbrev pub claim_of : {F : Type 0} → Option (DimensionProposal F) → Claim F
claim_of none = record {
  proposed = none;
  confidence = none;
  upper = none;
  rationale = none;
  anchors = [];
}
claim_of (some p) = record {
  proposed = some p.estimate;
  confidence = some p.confidence;
  upper = some p.conservative_upper;
  rationale = some p.rationale;
  anchors = p.anchors;
}

-- what `classify` makes of the proposal on reversibility
unfoldable pub irreversibility_claim : {F : Type 0} → Option (DimensionProposal F) → Claim F
irreversibility_claim none = claim_of none
irreversibility_claim (some p) = record (claim_of (some p)) {
  proposed = some (reversibility_to_irreversibility p.estimate);
  upper = some (reversibility_to_irreversibility p.conservative_upper);
}

-- The parameters of Classifier/Dimensions, with `policy_hash` for the hash of the policy.
module _ {F : Type 0} (float : FloatOps F) (is_blank : String → Bool)
    (accepts : Axis → SourceAnchor → Bool) (policy : ClassificationPolicy F) (policy_hash : ℕ) where
  -- the value that `dimension` starts from
  abbrev pub estimate_of : Option Ordinal4 → Claim F → Ordinal4
  estimate_of explicit claim =
      or_default explicit (or_default claim.proposed policy.fallback_ordinal)

  -- the test of a proposal that counts
  unfoldable pub check_claim : Axis → Bool → Bool → Claim F → Result ClassificationError (Unit {0})
  check_claim name has_proposal is_explicit claim = elim claim.proposed [
    | none ↦ ok tt
    | some proposed ↦
        if has_proposal && not is_explicit
        then require_rationale_and_support is_blank claim.rationale claim.anchors
          >> elim claim.upper [
            | none ↦ ok tt
            | some upper ↦ validate_ordinal_bound proposed upper (is_ascending name)
          ]
        else ok tt
  ]

  -- the last two stages and the floor on the estimate
  abbrev pub staged : Bool → Option Ordinal4 → Claim F → Ordinal4 → Ordinal4 × List Stage
  staged has_proposal explicit claim floor =
      escalate (estimate_of explicit claim) floor
        (not (is_given explicit) && is_unsure float policy claim.confidence)
        (harder (or_default claim.upper (estimate_of explicit claim)) policy.low_confidence_floor)
        (not has_proposal && not (is_given explicit)) policy.fallback_ordinal

  -- the entry of `dimensions` that `dimension` makes
  abbrev pub dimension_result :
      Bool
      → Option Ordinal4
      → Claim F
      → Ordinal4
      → List SourceAnchor
      → ClassificationDimensionResult F
  dimension_result has_proposal explicit claim floor anchors = record {
    estimated = ordinal_value (estimate_of explicit claim);
    effective = ordinal_value (staged has_proposal explicit claim floor).0;
    confidence = if is_given explicit then none else claim.confidence;
    conservative_upper = if is_given explicit then none else claim.upper;
    source_anchors = anchors ++ claim.anchors;
    basis =
        if is_given explicit
        then explicit_input
        else if has_proposal
        then model
        else policy_fallback;
    rationale = if is_given explicit then none else claim.rationale;
    override_basis = (staged has_proposal explicit claim floor).1;
    policy_version = policy.version;
  }

  unfoldable pub dimension :
      Axis
      → Bool
      → Option Ordinal4
      → Claim F
      → Ordinal4
      → List SourceAnchor
      → Trace F
      → Result ClassificationError (Ordinal4 × Trace F)
  dimension name has_proposal explicit claim floor anchors trace = do
    check_anchors accepts name claim.anchors
    check_claim name has_proposal (is_given explicit) claim
    ok (
      (staged has_proposal explicit claim floor).0,
      note policy policy_hash name (dimension_result has_proposal explicit claim floor anchors)
          trace,
    )

  module _ {E : Type 0} (value : E → Value) where
    -- the value and the label of `categorical_dimension`
    unfoldable pub categorical_stage : E → Option F → Option E → E × List Stage
    categorical_stage estimate confidence none = (estimate, [])
    categorical_stage estimate confidence (some escalate_to) =
        if is_unsure float policy confidence
          && not (same_value (value estimate) (value escalate_to))
        then (escalate_to, low_confidence_escalation ∷ [])
        else (estimate, [])

    -- the entry that it makes
    abbrev pub categorical_result :
        E
        → Option F
        → List SourceAnchor
        → Basis
        → Option String
        → Option E
        → ClassificationDimensionResult F
    categorical_result estimate confidence anchors basis rationale escalate_to = record {
      estimated = value estimate;
      effective = value (categorical_stage estimate confidence escalate_to).0;
      confidence = confidence;
      conservative_upper = none;
      source_anchors = anchors;
      basis = basis;
      rationale = rationale;
      override_basis = (categorical_stage estimate confidence escalate_to).1;
      policy_version = policy.version;
    }

    unfoldable pub categorical_dimension :
        Axis
        → Option (CategoricalProposal F E)
        → E
        → Option E
        → Trace F
        → Result ClassificationError (E × Trace F)
    categorical_dimension name none default escalate_to trace = ok (
      (categorical_stage default none escalate_to).0,
      note policy policy_hash name
          (categorical_result default none [] policy_fallback none escalate_to) trace,
    )
    categorical_dimension name (some p) default escalate_to trace = do
      check_anchors accepts name p.anchors
      require_rationale_and_support is_blank (some p.rationale) p.anchors
      ok (
        (categorical_stage p.estimate (some p.confidence) escalate_to).0,
        note policy policy_hash name
            (categorical_result p.estimate (some p.confidence) p.anchors model (some p.rationale)
              escalate_to)
            trace,
      )
