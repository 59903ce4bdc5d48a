-- ===== src/Tests/Classifier.antt =====
-- The classifier of src/fre/modules/m01_classifier.py on a task that may write outside, with and
-- without a proposal.
use package.text.Mathlib.Text.{◌==◌ as same_text}
use Prim.Native.String.{String}
use reasoning_engine.Prelude.{
  ℕ, ◌≤◌, ◌≡◌, refl, Bool, true, false, none, some, List, [], ◌∷◌, Result, ok, err, ◌>>=◌,
}
use reasoning_engine.Budget.Types.{DeploymentLimits}
use reasoning_engine.Budget.Allocator.{
  low, medium, high, critical, closed, open_ended, TaskSignature, TierPolicy, default_tier_policy,
}
use reasoning_engine.Budget.Tiers.{ordinal_order, IsBelow}
use reasoning_engine.Budget.Plans.{unlimited}
use reasoning_engine.Classifier.{
  Axis, SourceAnchor, TaskEnvelope, ClassificationError, default_policy, text_value, field_anchor,
  analysis, short, floor_consequence, floor_irreversibility, floor_ambiguity,
  floor_evidence_scarcity, explicit_ordinals, explicit_value, metadata_get, ordinal_of,
  normalise_output_form, validate_ordinal_bound, is_ascending, reversibility_to_irreversibility,
}
use reasoning_engine.Classifier.Dimensions.{
  DimensionProposal, escalate, note, require_rationale_and_support, check_anchors,
}
use reasoning_engine.Classifier.Record.{
  ClassificationOutput, ClassificationRecord, hybrid, by_axis, matches, is_exhaustive,
}
use reasoning_engine.Classifier.Stages.{
  check_claim, irreversibility_claim, dimension, categorical_stage, categorical_dimension,
}
use reasoning_engine.Classifier.Classify.{
  bootstrap_signature, check_reversibility, consequence_anchors, irreversibility_anchors,
  ambiguity_anchors, scarcity_anchors, assess, final_record, classify,
}
use reasoning_engine.Classifier.Canonical.{ClassificationEvent, canonical_events}
use reasoning_engine.Classifier.Bounds.{classify-IsBelow, classify-validated}
use reasoning_engine.Classifier.Handoff.{canonical_events-classify}
use reasoning_engine.Tests.Plans.{whole}

abbrev is_blank : String → Bool
is_blank rationale = same_text rationale ""

abbrev accepts : Axis → SourceAnchor → Bool
accepts name anchor = true

abbrev normalized : String → String
normalized value = value

abbrev tier_hash : TierPolicy ℕ → DeploymentLimits → ℕ
tier_hash policy deployment = 4

abbrev envelope : TaskEnvelope
envelope = record {
  task_id = 1;
  attachments = [];
  explicit_constraints = "no downtime" ∷ [];
  requested_form = "json";
  user_metadata = ("ambiguity", text_value "HIGH") ∷ [];
  execution_permissions = record {
    capabilities = [];
    allow_network = false;
    allow_external_writes = true;
    allowed_paths = [];
  };
}

abbrev anchor : SourceAnchor
anchor = field_anchor envelope "/explicit_constraints/0"

abbrev sure : DimensionProposal ℕ
sure = record {
  estimate = low;
  confidence = 90;
  conservative_upper = low;
  anchors = anchor ∷ [];
  rationale = "stated";
}

-- The model finds the task harmless, and is not sure of the scarcity of evidence.
abbrev proposal : ClassificationOutput ℕ
proposal = record {
  task_type = record {
    estimate = analysis;
    confidence = 90;
    anchors = anchor ∷ [];
    rationale = "r";
  };
  consequence = sure;
  reversibility = record sure { estimate = critical; conservative_upper = high };
  ambiguity = sure;
  evidence_scarcity = record sure { confidence = 50; conservative_upper = medium };
  search_space = record {
    estimate = closed;
    confidence = 60;
    anchors = anchor ∷ [];
    rationale = "r";
  };
  horizon = record { estimate = short; confidence = 90; anchors = anchor ∷ []; rationale = "r" };
}

abbrev signature : TaskSignature
signature = record {
  consequence = high;
  irreversibility = high;
  ambiguity = high;
  search_space = open_ended;
  evidence_scarcity = high;
}

abbrev run : Result ClassificationError (TaskSignature × ClassificationRecord ℕ)
run =
    classify whole is_blank accepts normalized (default_policy whole) 5 envelope (some proposal)
      none

abbrev blank_record : ClassificationRecord ℕ
blank_record = record {
  policy_version = "";
  policy_hash = 0;
  mode = hybrid;
  fallback_used = false;
  dimensions = [];
  model_call_key = none;
  diagnostics = [];
  floor_overrides = [];
}

abbrev record_in :
    Result ClassificationError (TaskSignature × ClassificationRecord ℕ) → ClassificationRecord ℕ
record_in (ok outcome) = outcome.1
record_in (err _) = blank_record

classify_run : run ≡ ok (signature, record_in run)
unfolding classify assess dimension check_claim check_anchors require_rationale_and_support
    validate_ordinal_bound is_ascending escalate note categorical_dimension categorical_stage
    is_exhaustive matches by_axis explicit_ordinals explicit_value metadata_get ordinal_of
    floor_consequence floor_irreversibility floor_ambiguity floor_evidence_scarcity
    irreversibility_claim reversibility_to_irreversibility check_reversibility consequence_anchors
    irreversibility_anchors ambiguity_anchors scarcity_anchors normalise_output_form
classify_run = refl

classify-IsBelow_example :
    IsBelow (bootstrap_signature envelope) signature
    × (ordinal_order (floor_consequence envelope) ≤ 2)
    × (ordinal_order (floor_irreversibility envelope) ≤ 2)
    × (ordinal_order (floor_ambiguity envelope) ≤ 2)
    × (ordinal_order (floor_evidence_scarcity envelope) ≤ 2)
classify-IsBelow_example =
    classify-IsBelow whole is_blank accepts normalized (default_policy whole) 5 envelope
      (some proposal) none signature (record_in run) classify_run

classify-validated_example : run ≡ (
    assess whole is_blank accepts normalized (default_policy whole) 5 envelope (some proposal)
    >>= λ assessed. ok (
      assessed.0,
      final_record whole is_blank accepts normalized
          (default_policy whole)
          5
          envelope
          (some proposal)
          none
          assessed.1,
    ))
classify-validated_example =
    classify-validated whole is_blank accepts normalized (default_policy whole) 5 envelope
      (some proposal) none

canonical_events-classify_example :
    (events : List (ClassificationEvent ℕ)) × (canonical_events whole is_blank accepts normalized
        (default_policy whole)
        5
        tier_hash
        envelope
        (some proposal)
        (default_tier_policy whole)
        unlimited
        none
        none
      ≡ ok events)
canonical_events-classify_example =
    canonical_events-classify whole is_blank accepts normalized (default_policy whole) 5 tier_hash
      envelope (some proposal) none signature (record_in run) classify_run
