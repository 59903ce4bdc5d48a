-- ===== src/Classifier.antt =====
-- The task classifier of src/fre/modules/m01_classifier.py: its policy, its floors and the helpers of
-- `classify`, with what they read of src/fre/domain/task.py, semantic.py, common.py and
-- src/fre/prompts/schemas.py. The value of an enum in a record is the enum's constructor.
pub mod Dimensions
pub mod Record
pub mod Stages
pub mod Classify
pub mod Floors
pub mod Audit
pub mod Assess
pub mod Bounds
pub mod Canonical
pub mod Handoff
use package.text.Mathlib.Text.{◌==◌ as same_text}
use Prim.Native.String.{String}
use reasoning_engine.Prelude.{
  ℕ, ◌+◌, ◌-◌, Bool, true, false, Option, none, some, List, [], ◌∷◌, ◌&&◌, ◌||◌, not, any, length,
  ltb, leb, if◌then◌else◌, Result, ok, err, ◌>>=◌, ◌>>◌, raise_if, FloatOps,
}
use reasoning_engine.Budget.Allocator.{
  Ordinal4, low, medium, high, critical, SearchSpaceClass, open_ended,
}
use reasoning_engine.Budget.Tiers.{ordinal_order}

pub data TaskType : Type 0 where
  analysis decision design diagnosis research : TaskType

pub data HorizonClass : Type 0 where
  immediate short long : HorizonClass

pub data OutputForm : Type 0 where
  text structured artifact : OutputForm

-- The names of the dimensions.
pub data Axis : Type 0 where
  task_type consequence irreversibility ambiguity : Axis
  search_space evidence_scarcity horizon output_form : Axis

-- a value of `user_metadata`
pub data MetadataValue : Type 0 where
  text_value : String → MetadataValue
  other_value : MetadataValue

pub record PermissionSet : Type 0 where
  pub capabilities : List String
  pub allow_network : Bool
  pub allow_external_writes : Bool
  pub allowed_paths : List String

-- `attachments` holds the hashes of the artifacts, `requested_form` is `requested_output.form`.
pub record TaskEnvelope : Type 0 where
  pub task_id : ℕ
  pub attachments : List ℕ
  pub explicit_constraints : List String
  pub requested_form : String
  pub user_metadata : List (String × MetadataValue)
  pub execution_permissions : PermissionSet

pub data SourceKind : Type 0 where
  task_text task_field artifact_source : SourceKind

-- `ObjectRef` by its identifier, `ArtifactRef` by its hash
pub data SourceRef : Type 0 where
  object_ref artifact_ref : ℕ → SourceRef

pub record SourceAnchor : Type 0 where
  pub source_kind : SourceKind
  pub source_ref : SourceRef
  pub selector : String
  pub char_start : Option ℕ
  pub char_end : Option ℕ
  pub excerpt_hash : Option ℕ

-- `_field_anchor`
abbrev pub field_anchor : TaskEnvelope → String → SourceAnchor
field_anchor envelope selector = record {
  source_kind = task_field;
  source_ref = object_ref envelope.task_id;
  selector = selector;
  char_start = none;
  char_end = none;
  excerpt_hash = none;
}

pub record ClassificationPolicy (F : Type 0) : Type 0 where
  pub version : String
  pub confidence_threshold : F
  pub low_confidence_floor : Ordinal4
  pub fallback_ordinal : Ordinal4
  pub fallback_search_space : SearchSpaceClass
  pub fallback_horizon : HorizonClass
  pub low_confidence_horizon_fallback : HorizonClass

-- the defaults of the fields
abbrev pub default_policy : {F : Type 0} → FloatOps F → ClassificationPolicy F
default_policy float = record {
  version = "wave3-m01/1.1";
  confidence_threshold = float.hundredths 70;
  low_confidence_floor = high;
  fallback_ordinal = critical;
  fallback_search_space = open_ended;
  fallback_horizon = long;
  low_confidence_horizon_fallback = long;
}

-- `max((left, right), key=ORDINAL.index)`: the first of two equal ones
abbrev pub harder : Ordinal4 → Ordinal4 → Ordinal4
harder left right = if ltb (ordinal_order left) (ordinal_order right) then right else left

-- `ORDINAL[n]`
abbrev ordinal_at : ℕ → Ordinal4
ordinal_at n =
    if leb n 0 then low else if leb n 1 then medium else if leb n 2 then high else critical

unfoldable pub reversibility_to_irreversibility : Ordinal4 → Ordinal4
reversibility_to_irreversibility value = ordinal_at (3 - ordinal_order value)

unfoldable pub floor_consequence : TaskEnvelope → Ordinal4
floor_consequence envelope =
    if envelope.execution_permissions.allow_external_writes then high else low

unfoldable pub floor_irreversibility : TaskEnvelope → Ordinal4
floor_irreversibility envelope =
    if envelope.execution_permissions.allow_external_writes
    then high
    else if envelope.execution_permissions.allow_network
    then medium
    else low

abbrev pub is_empty : {A : Type 0} → List A → Bool
is_empty [] = true
is_empty (_ ∷ _) = false

unfoldable pub floor_evidence_scarcity : TaskEnvelope → Ordinal4
floor_evidence_scarcity envelope =
    if not (not (is_empty envelope.attachments) || not (is_empty envelope.explicit_constraints))
      && not envelope.execution_permissions.allow_network
    then medium
    else low

abbrev counted : Bool → ℕ
counted flag = if flag then 1 else 0

unfoldable pub floor_ambiguity : TaskEnvelope → Ordinal4
floor_ambiguity envelope =
    if leb 2 (
      length envelope.execution_permissions.capabilities
      + counted envelope.execution_permissions.allow_network
      + counted envelope.execution_permissions.allow_external_writes)
    then medium
    else low

-- `metadata.get(key)`
unfoldable pub metadata_get : String → List (String × MetadataValue) → Option MetadataValue
metadata_get key [] = none
metadata_get key ((name, value) ∷ items) =
    if same_text name key then some value else metadata_get key items

-- `Ordinal4(value)` where it is one
unfoldable pub ordinal_of : String → Option Ordinal4
ordinal_of value =
    if same_text value "LOW"
    then some low
    else if same_text value "MEDIUM"
    then some medium
    else if same_text value "HIGH"
    then some high
    else if same_text value "CRITICAL"
    then some critical
    else none

unfoldable pub explicit_value : Option MetadataValue → Option Ordinal4
unfolding ordinal_of
explicit_value (some (text_value value)) = ordinal_of value
explicit_value (some other_value) = none
explicit_value none = none

-- `_explicit_ordinals`
unfoldable pub explicit_ordinals : TaskEnvelope → Axis → Option Ordinal4
unfolding explicit_value metadata_get
explicit_ordinals envelope consequence =
    explicit_value (metadata_get "consequence" envelope.user_metadata)
explicit_ordinals envelope irreversibility =
    explicit_value (metadata_get "irreversibility" envelope.user_metadata)
explicit_ordinals envelope ambiguity =
    explicit_value (metadata_get "ambiguity" envelope.user_metadata)
explicit_ordinals envelope evidence_scarcity =
    explicit_value (metadata_get "evidence_scarcity" envelope.user_metadata)
explicit_ordinals envelope _ = none

-- `_OUTPUT_ALIASES`, in its order
abbrev text_aliases : List String
text_aliases = "text" ∷ "plain_text" ∷ "prose" ∷ "markdown" ∷ "md" ∷ "report" ∷ []

abbrev structured_aliases : List String
structured_aliases =
    "structured" ∷ "json" ∷ "yaml" ∷ "yml" ∷ "table" ∷ "tabular" ∷ "schema" ∷ "schema_bound" ∷ []

-- `normalise_output_form`; the parameter stands for the calls of `strip`, `lower` and `replace`. The
-- third set of aliases is of the form that is returned for every other text.
unfoldable pub normalise_output_form : (String → String) → String → OutputForm
normalise_output_form normalized value =
    if any (λ alias. same_text (normalized value) alias) text_aliases
    then text
    else if any (λ alias. same_text (normalized value) alias) structured_aliases
    then structured
    else artifact

pub data ClassificationError : Type 0 where
  rationale_missing support_missing bound_inverted : ClassificationError
  anchor_refused override_unaudited : ClassificationError

-- `_validate_ordinal_bound`
unfoldable pub validate_ordinal_bound :
    Ordinal4 → Ordinal4 → Bool → Result ClassificationError (Unit {0})
validate_ordinal_bound estimate upper ascending =
    raise_if (ascending && ltb (ordinal_order upper) (ordinal_order estimate)) bound_inverted
    >> raise_if (not ascending && ltb (ordinal_order estimate) (ordinal_order upper)) bound_inverted

-- `name in _ASCENDING_AXES or name == "irreversibility"`
unfoldable pub is_ascending : Axis → Bool
is_ascending consequence = true
is_ascending ambiguity = true
is_ascending evidence_scarcity = true
is_ascending irreversibility = true
is_ascending _ = false
