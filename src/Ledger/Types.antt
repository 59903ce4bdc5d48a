-- ===== src/Ledger/Types.antt =====
-- The contracts of src/fre/domain/ledger.py. `F` is the type of floats and `J` that of JSON values.
-- A UUID, a hash and the name of an independence group are numbers, in the order of their texts (a
-- UUID and a hash are hexadecimal texts of one length, so that this is the order of their values),
-- and an instant is the number of its UTC value.
use mathlib.Core.Logic.{◌↔◌}
use Prim.Native.String.{String}
use reasoning_engine.Prelude.{
  ◌≡◌, arith, ℕ, Bool, true, Option, List, ◌&&◌, ltb, leb, ◌==◌, if◌then◌else◌, Eq,
}

pub data LedgerNodeType : Type 0 where
  fact observation inference assumption_node hypothesis proposal decision unknown : LedgerNodeType
  challenge evidence artifact contested_node : LedgerNodeType

pub data EpistemicStatus : Type 0 where
  supported provisional contested refuted unresolved stale : EpistemicStatus

pub data LedgerRelation : Type 0 where
  supports depends_on derived_from contradicts supersedes falsifies resolves : LedgerRelation
  observed_in evaluates selects rejects : LedgerRelation

pub data ContradictionState : Type 0 where
  open_state resolved_state : ContradictionState

pub record LedgerNodeRef : Type 0 where
  pub node_id : ℕ
  pub revision : ℕ

pub record ArtifactRef : Type 0 where
  pub artifact_id : ℕ
  pub sha256 : ℕ

pub record ConfidenceAssessment (F : Type 0) : Type 0 where
  pub score : Option F
  pub level : Option String
  pub method : String
  pub calibration_group : Option String
  pub evidence_independence_groups : List ℕ
  pub explanation : String

-- The fields of `LedgerNode` but for its hash: what `revision_preimage` dumps.
pub record RevisionPreimage (F J : Type 0) : Type 0 where
  pub node_id : ℕ
  pub revision : ℕ
  pub node_type : LedgerNodeType
  pub content : J
  pub epistemic_status : EpistemicStatus
  pub confidence : Option (ConfidenceAssessment F)
  pub source_refs : List ArtifactRef
  pub schema_version : String
  pub created_at : ℕ
  pub created_by_action : ℕ
  pub producing_module : String
  pub provenance_refs : List String
  pub predecessor_revision_hash : Option ℕ

pub record LedgerNode (F J : Type 0) : Type 0 where
  pub preimage : RevisionPreimage F J
  pub open preimage use *
  pub revision_hash : ℕ

-- `LedgerNode.ref`
abbrev pub ref : {F J : Type 0} → LedgerNode F J → LedgerNodeRef
ref n = record { node_id = n.preimage.node_id; revision = n.preimage.revision }

pub record LedgerEdge (J : Type 0) : Type 0 where
  pub edge_id : ℕ
  pub source : LedgerNodeRef
  pub target : LedgerNodeRef
  pub relation : LedgerRelation
  pub independence_group : Option ℕ
  pub metadata : List (String × J)

pub record DependencyConfidenceEnvelope (F : Type 0) : Type 0 where
  pub affected_node_ref : LedgerNodeRef
  pub changed_dependency_refs : List LedgerNodeRef
  pub maximum_dependency_depth : ℕ
  pub previous_confidence_range : Option (F × F)
  pub current_confidence_range : Option (F × F)
  pub confidence_delta_interval : Option (F × F)
  pub direct_dependencies_changed : ℕ
  pub direct_dependency_fraction : F
  pub independence_groups : List ℕ
  pub source_event_refs : List ℕ

pub record ContradictionResolution : Type 0 where
  pub contradiction_edge_ids : List ℕ
  pub resolver_ref : LedgerNodeRef
  pub affected_refs : List LedgerNodeRef
  pub status_transitions : List (LedgerNodeRef × EpistemicStatus)
  pub outcome : String
  pub action_id : ℕ
  pub module_id : String

pub record LedgerProjection (F J : Type 0) : Type 0 where
  pub nodes : List (LedgerNode F J)
  pub edges : List (LedgerEdge J)
  pub status_overlays : List (LedgerNodeRef × EpistemicStatus)
  pub stale_envelopes : List (DependencyConfidenceEnvelope F)
  pub resolved_contradiction_edges : List ℕ

pub data GraphError : Type 0 where
  dangling_error cycle_error : GraphError

pub record GraphValidationResult : Type 0 where
  pub valid : Bool
  pub errors : List GraphError

-- The exceptions; `validation_error` is pydantic's.
pub data LedgerError : Type 0 where
  ledger_cycle dangling_ledger_reference invalid_revision invalid_ledger_relation : LedgerError
  invalid_status_transition invalid_contradiction_resolution : LedgerError
  revision_hash_mismatch validation_error : LedgerError

-- Two references are equal.
abbrev pub ref_eq : LedgerNodeRef → LedgerNodeRef → Bool
ref_eq a b = (a.node_id == b.node_id) && (a.revision == b.revision)

-- the order of `_ref_key`
abbrev pub ref_le : LedgerNodeRef → LedgerNodeRef → Bool
ref_le a b =
    if ltb a.node_id b.node_id
    then true
    else ((a.node_id == b.node_id) && leb a.revision b.revision)

pub ref_eq_iff : (a b : LedgerNodeRef) → (ref_eq a b ≡ true) ↔ (a ≡ b)
ref_eq_iff a b = ground arith

instance abbrev pub ref_has_eq : Eq LedgerNodeRef
ref_has_eq = record { beq = ref_eq; beq_iff = ref_eq_iff }
