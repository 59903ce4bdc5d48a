-- ===== src/Stop/Types.antt =====
-- The contracts of src/fre/domain/stop.py, and the texts of src/fre/modules/m13_stop.py. `F` is the
-- type of floats; a source reference is the number of its text in the order of texts.
use Prim.Native.String.{String}
use reasoning_engine.Prelude.{
  true, false, ◌&&◌, if◌then◌else◌, ◌==◌, FloatOps, none, some, ℕ, Bool, Option, List,
}
use reasoning_engine.Budget.Types.{BudgetRemaining}
use reasoning_engine.Budget.Burn.{BudgetBurnRate}
use reasoning_engine.Ledger.Types.{LedgerNodeRef, ConfidenceAssessment}

pub data StopDisposition : Type 0 where
  continue complete partial_budget blocked failed_invariant cancelled : StopDisposition

pub data StopReasonCode : Type 0 where
  cancelled_reason invariant_failure hard_budget_exhausted unresolvable_blocker : StopReasonCode
  mandatory_action mandatory_validation resolvable_unknown acceptance_failed : StopReasonCode
  acceptance_complete optional_work_valuable optional_work_uncertain : StopReasonCode
  optional_work_not_valuable no_executable_work : StopReasonCode

-- the place of a code's text among the thirteen texts in alphabetical order
abbrev pub code_rank : StopReasonCode → ℕ
code_rank acceptance_complete = 0
code_rank acceptance_failed = 1
code_rank cancelled_reason = 2
code_rank hard_budget_exhausted = 3
code_rank invariant_failure = 4
code_rank mandatory_action = 5
code_rank mandatory_validation = 6
code_rank no_executable_work = 7
code_rank optional_work_not_valuable = 8
code_rank optional_work_uncertain = 9
code_rank optional_work_valuable = 10
code_rank resolvable_unknown = 11
code_rank unresolvable_blocker = 12

-- `REASON_TEXT`
unfoldable pub reason_text : StopReasonCode → String
reason_text cancelled_reason = "Cancellation was explicitly requested."
reason_text invariant_failure = "An unrecoverable invariant failed."
reason_text hard_budget_exhausted = "A hard budget ceiling prevents required continuation."
reason_text unresolvable_blocker = "A required blocker has no permitted resolution."
reason_text mandatory_action = "A mandatory action remains."
reason_text mandatory_validation = "Mandatory validation remains incomplete."
reason_text resolvable_unknown = "A required unknown has an executable resolution."
reason_text acceptance_failed = "A required acceptance criterion is not satisfied."
reason_text acceptance_complete = "Acceptance and validation are complete."
reason_text optional_work_valuable = "The next optional action is definitely valuable."
reason_text optional_work_uncertain = "The next action's value and cost intervals overlap."
reason_text optional_work_not_valuable = "The next optional action is definitely not valuable."
reason_text no_executable_work = "No executable work remains."

pub data AcceptanceStatus : Type 0 where
  satisfied failed pending : AcceptanceStatus

pub data ValidationStatus : Type 0 where
  complete required not_applicable : ValidationStatus

pub record IntervalEstimate (F : Type 0) : Type 0 where
  pub lower : F
  pub point : Option F
  pub upper : F
  pub method_version : String
  pub source_refs : List ℕ

pub record MarginalValueEstimate (F : Type 0) : Type 0 where
  pub estimate : IntervalEstimate F
  pub open estimate use *
  pub confidence : ConfidenceAssessment F
  pub ledger_refs : List LedgerNodeRef

pub record StopPolicy (F : Type 0) : Type 0 where
  pub version : String
  pub stop_threshold : F
  pub continue_on_overlap : Bool
  pub stability_window : ℕ

pub record StopInputs (F : Type 0) : Type 0 where
  pub budget : BudgetRemaining
  pub acceptance : AcceptanceStatus
  pub validation : ValidationStatus
  pub cancelled : Bool
  pub invariant_failure : Bool
  pub required_work : Bool
  pub executable_work : Bool
  pub blocker_required : Bool
  pub blocker_resolvable : Bool
  pub mandatory_action : Bool
  pub stable : Bool
  pub value : Option (MarginalValueEstimate F)
  pub cost : Option (IntervalEstimate F)
  pub burn_rate : Option (BudgetBurnRate F)
  pub epistemic_trigger_refs : List LedgerNodeRef

pub data CompilerProfile : Type 0 where
  full standard handoff : CompilerProfile

pub record ContextCompilationRequest : Type 0 where
  pub profile : CompilerProfile
  pub size_target : ℕ
  pub terminal : Bool

pub record StopDecision : Type 0 where
  pub disposition : StopDisposition
  pub policy_version : String
  pub reason_codes : List StopReasonCode
  pub reasons : List String
  pub ledger_trigger_refs : List LedgerNodeRef
  pub budget_projection_hash : ℕ
  pub burn_rate_projection_hash : Option ℕ
  pub marginal_value_method : Option String
  pub marginal_value_source_refs : List ℕ
  pub marginal_value_ledger_refs : List LedgerNodeRef
  pub cost_method : Option String
  pub cost_source_refs : List ℕ
  pub context_request : Option ContextCompilationRequest

-- `IntervalEstimate.ordered`
unfoldable pub is_ordered : {F : Type 0} → FloatOps F → IntervalEstimate F → Bool
is_ordered float estimate =
    if float.lt estimate.upper estimate.lower then false else elim estimate.point [
      | none ↦ true
      | some point ↦ float.le estimate.lower point && float.le point estimate.upper
    ]

pub record StopDecisionRecord : Type 0 where
  pub decision : StopDecision
  pub evaluated_state_version : ℕ
  pub evaluated_state_hash : ℕ
  pub budget_projection_hash : ℕ

-- `StopDecisionRecord.consistent_budget_binding`
unfoldable pub consistent_budget_binding : StopDecisionRecord → Bool
consistent_budget_binding entry =
    entry.budget_projection_hash == entry.decision.budget_projection_hash

-- `validation_error` is pydantic's.
pub data StopError : Type 0 where
  missing_required_context validation_error : StopError
