-- ===== src/Classifier/Classify.antt =====
-- `TaskClassifier.bootstrap_signature` and `classify` of src/fre/modules/m01_classifier.py. Of the
-- signature the dimensions that the allocator reads are modelled.
use Prim.Native.String.{String}
use reasoning_engine.Prelude.{
  option_map, ℕ, Bool, false, Option, none, some, List, [], ◌∷◌, not, map, if◌then◌else◌, nat_eq,
  Result, ok, ◌>>=◌, ◌>>◌, raise_if, FloatOps,
}
use reasoning_engine.Budget.Allocator.{Ordinal4, low, closed, open_ended, TaskSignature}
use reasoning_engine.Classifier.{
  Axis, TaskEnvelope, SourceAnchor, field_anchor, ClassificationPolicy, ClassificationError,
  consequence, irreversibility, ambiguity, evidence_scarcity, task_type, search_space, horizon,
  output_form, floor_consequence, floor_irreversibility, floor_ambiguity, floor_evidence_scarcity,
  explicit_ordinals, normalise_output_form, validate_ordinal_bound, override_unaudited, analysis,
}
use reasoning_engine.Classifier.Dimensions.{
  space_value, type_value, horizon_value, form_value, deterministic, DimensionProposal,
  ClassificationDimensionResult, Trace, or_default, is_given, differs, note,
}
use reasoning_engine.Classifier.Record.{
  ClassificationOutput, hybrid, deterministic_fallback, ClassificationRecord, is_exhaustive,
}
use reasoning_engine.Classifier.Stages.{
  claim_of, irreversibility_claim, dimension, categorical_dimension,
}

-- `bootstrap_signature`
unfoldable pub bootstrap_signature : TaskEnvelope → TaskSignature
bootstrap_signature envelope = record {
  consequence = or_default (explicit_ordinals envelope consequence) (floor_consequence envelope);
  irreversibility =
      or_default (explicit_ordinals envelope irreversibility) (floor_irreversibility envelope);
  ambiguity = or_default (explicit_ordinals envelope ambiguity) low;
  search_space = closed;
  evidence_scarcity = or_default (explicit_ordinals envelope evidence_scarcity) low;
}

-- The deterministic anchors of a dimension: that of the explicit value, or those of the floor.
abbrev anchors_for : TaskEnvelope → Option Ordinal4 → String → List SourceAnchor → List SourceAnchor
anchors_for envelope none selector floor_anchors = floor_anchors
anchors_for envelope (some _) selector floor_anchors = field_anchor envelope selector ∷ []

abbrev network_anchor : TaskEnvelope → SourceAnchor
network_anchor envelope = field_anchor envelope "/execution_permissions/allow_network"

abbrev writes_anchor : TaskEnvelope → SourceAnchor
writes_anchor envelope = field_anchor envelope "/execution_permissions/allow_external_writes"

unfoldable pub consequence_anchors : TaskEnvelope → List SourceAnchor
consequence_anchors envelope =
    anchors_for envelope (explicit_ordinals envelope consequence) "/user_metadata/consequence" (
      if envelope.execution_permissions.allow_external_writes
      then writes_anchor envelope ∷ []
      else [])

unfoldable pub irreversibility_anchors : TaskEnvelope → List SourceAnchor
irreversibility_anchors envelope =
    anchors_for envelope (explicit_ordinals envelope irreversibility)
      "/user_metadata/irreversibility"
      (if envelope.execution_permissions.allow_external_writes
        then writes_anchor envelope ∷ []
        else if envelope.execution_permissions.allow_network
        then network_anchor envelope ∷ []
        else [])

unfoldable pub ambiguity_anchors : TaskEnvelope → List SourceAnchor
ambiguity_anchors envelope =
    anchors_for envelope (explicit_ordinals envelope ambiguity) "/user_metadata/ambiguity" (
      if differs (floor_ambiguity envelope) low
      then field_anchor envelope "/execution_permissions" ∷ []
      else [])

unfoldable pub scarcity_anchors : TaskEnvelope → List SourceAnchor
scarcity_anchors envelope =
    anchors_for envelope (explicit_ordinals envelope evidence_scarcity)
      "/user_metadata/evidence_scarcity"
      (if differs (floor_evidence_scarcity envelope) low then network_anchor envelope ∷ [] else [])

module _ {F : Type 0} where
  -- the check of the proposal on reversibility, before it is turned round
  unfoldable pub check_reversibility :
      TaskEnvelope → Option (DimensionProposal F) → Result ClassificationError (Unit {0})
  check_reversibility envelope none = ok tt
  check_reversibility envelope (some p) =
      if is_given (explicit_ordinals envelope irreversibility)
      then ok tt
      else validate_ordinal_bound p.estimate p.conservative_upper false

-- The parameters of Classifier/Dimensions and Classifier/Stages, with the text that
-- `normalise_output_form` looks up.
module _ {F : Type 0} (float : FloatOps F) (is_blank : String → Bool)
    (accepts : Axis → SourceAnchor → Bool) (normalized : String → String)
    (policy : ClassificationPolicy F) (policy_hash : ℕ) where
  -- the entry of `output_form`
  abbrev pub form_result : TaskEnvelope → ClassificationDimensionResult F
  form_result envelope = record {
    estimated = form_value (normalise_output_form normalized envelope.requested_form);
    effective = form_value (normalise_output_form normalized envelope.requested_form);
    confidence = some (float.hundredths 100);
    conservative_upper = none;
    source_anchors = field_anchor envelope "/requested_output" ∷ [];
    basis = deterministic;
    rationale = some "Derived deterministically from the task's requested_output.form contract.";
    override_basis = [];
    policy_version = policy.version;
  }

  -- the record of a trace
  abbrev pub record_of : Bool → Option ℕ → Trace F → ClassificationRecord F
  record_of has_proposal model_call_key trace = record {
    policy_version = policy.version;
    policy_hash = policy_hash;
    mode = if has_proposal then hybrid else deterministic_fallback;
    fallback_used = not has_proposal;
    dimensions = trace.dimensions;
    model_call_key = model_call_key;
    diagnostics = map (λ override. (override.axis, override.reason)) trace.floor_overrides;
    floor_overrides = trace.floor_overrides;
  }

  -- `classify` up to its last call of `categorical_dimension`
  unfoldable pub assess :
      TaskEnvelope
      → Option (ClassificationOutput F)
      → Result ClassificationError (TaskSignature × Trace F)
  assess envelope proposal = do
    let given = is_given proposal
    check_reversibility envelope (option_map (λ p. p.reversibility) proposal)
    (c, t1) ←
        dimension float is_blank accepts policy policy_hash consequence given
          (explicit_ordinals envelope consequence)
          (claim_of (option_map (λ p. p.consequence) proposal)) (floor_consequence envelope)
          (consequence_anchors envelope) (record { dimensions = []; floor_overrides = [] })
    (i, t2) ←
        dimension float is_blank accepts policy policy_hash irreversibility given
          (explicit_ordinals envelope irreversibility)
          (irreversibility_claim (option_map (λ p. p.reversibility) proposal))
          (floor_irreversibility envelope) (irreversibility_anchors envelope) t1
    (a, t3) ←
        dimension float is_blank accepts policy policy_hash ambiguity given
          (explicit_ordinals envelope ambiguity) (claim_of (option_map (λ p. p.ambiguity) proposal))
          (floor_ambiguity envelope) (ambiguity_anchors envelope) t2
    (e, t4) ←
        dimension float is_blank accepts policy policy_hash evidence_scarcity given
          (explicit_ordinals envelope evidence_scarcity)
          (claim_of (option_map (λ p. p.evidence_scarcity) proposal))
          (floor_evidence_scarcity envelope) (scarcity_anchors envelope) t3
    (k, t5) ←
        categorical_dimension float is_blank accepts policy policy_hash type_value task_type
          (option_map (λ p. p.task_type) proposal) analysis none t4
    (s, t6) ←
        categorical_dimension float is_blank accepts policy policy_hash space_value search_space
          (option_map (λ p. p.search_space) proposal) policy.fallback_search_space (some open_ended)
          t5
    (h, t7) ←
        categorical_dimension float is_blank accepts policy policy_hash horizon_value horizon
          (option_map (λ p. p.horizon) proposal) policy.fallback_horizon
          (some policy.low_confidence_horizon_fallback) t6
    ok (
      record {
        consequence = c;
        irreversibility = i;
        ambiguity = a;
        search_space = s;
        evidence_scarcity = e;
      },
      t7,
    )

  -- the record that `classify` builds at the end; its validator may raise
  abbrev pub final_record :
      TaskEnvelope → Option (ClassificationOutput F) → Option ℕ → Trace F → ClassificationRecord F
  final_record envelope proposal model_call_key trace =
      record_of (is_given proposal) model_call_key
        (note policy policy_hash output_form (form_result envelope) trace)

  unfoldable pub classify :
      TaskEnvelope
      → Option (ClassificationOutput F)
      → Option ℕ
      → Result ClassificationError (TaskSignature × ClassificationRecord F)
  classify envelope proposal model_call_key = do
    (signature, trace) ← assess envelope proposal
    let result = final_record envelope proposal model_call_key trace
    raise_if (not (is_exhaustive result)) override_unaudited
    ok (signature, result)
