-- ===== src/Reducer.antt =====
-- The budget of a run in `RunReducer.apply` and `RunReducer.reduce` of src/fre/runtime/reducer.py:
-- the guard on the order of the events, the branches that change the budget, those of the four
-- model-call events with their guards, and the registration of an artifact. A payload of another kind
-- leaves this part of the state alone, save TaskClassified, which sets the signature. Of the guards on
-- these, that of RunCreated is modelled.
pub mod Replay
pub mod LedgerEvents
pub mod Graphs
pub mod Staleness
pub mod Marking
use text.Mathlib.Text.{◌==◌ as same_text}
use Prim.Native.String.{String}
use reasoning_engine.Prelude.{
  ℕ, suc, ◌+◌, ◌++◌, Bool, true, false, Option, none, some, List, [], ◌∷◌, ◌||◌, not, ◌==◌,
  if◌then◌else◌, Result, ok, err, ◌>>=◌, ◌>>◌, raise_if,
}
use reasoning_engine.Budget.Types.{
  ResourceVector, BudgetPlan, BudgetReservation, BudgetProjection, BudgetError, empty_projection,
}
use reasoning_engine.Budget.Meter.{consume, reserve, settle, release}
use reasoning_engine.Budget.Allocator.{TaskSignature, revise}
use reasoning_engine.Settlement.{SemanticCall, same_usage}
use reasoning_engine.Semantic.{CallIdentity, CallRecord}
use reasoning_engine.Semantic.Guards.{
  CallGuardError, validate_common, validate_success, validate_failure, validate_proposal,
}

-- `BudgetAllocated`, and `BudgetRevised`, which extends it
pub record Allotment (F : Type 0) : Type 0 where
  pub plan : BudgetPlan F
  pub policy_version : String
  pub policy_hash : ℕ

pub data RunPayload (F : Type 0) : Type 0 where
  budget_revised budget_allocated : Allotment F → RunPayload F
  budget_consumed : ResourceVector → RunPayload F
  budget_reserved : BudgetReservation → RunPayload F
  budget_reservation_settled : ℕ → ResourceVector → RunPayload F
  budget_reservation_released : ℕ → RunPayload F
  model_call_recorded model_call_failed : CallIdentity → RunPayload F
  model_call_recorded_v2 model_call_failed_v2 : CallRecord → RunPayload F
  artifact_registered : ℕ → RunPayload F
  task_classified : TaskSignature → RunPayload F
  run_created : ℕ → RunPayload F
  other_payload : RunPayload F

pub record StoredEvent (F : Type 0) : Type 0 where
  pub run_id : ℕ
  pub sequence : ℕ
  pub payload : RunPayload F

-- The fields of `RunState` that these branches read and write.
pub record RunState (F : Type 0) : Type 0 where
  pub run_id : ℕ
  pub version : ℕ
  pub budget : BudgetProjection F
  pub task_signature : Option TaskSignature
  pub pending_semantic_settlements : ℕ → Option ResourceVector
  pub model_calls : List CallIdentity
  pub artifacts : List ℕ

-- The texts of the `ValueError`, and what the meter and the allocator raise.
pub data RunError : Type 0 where
  not_contiguous not_first policy_version_mismatch not_classified already_allocated : RunError
  settlement_missing settlement_mismatch : RunError
  budget_error : BudgetError → RunError
  call_error : CallGuardError → RunError

-- `changes["budget"]` is what the call returns; the call may raise.
abbrev pub with_budget :
    {F : Type 0}
    → RunState F
    → Result BudgetError (BudgetProjection F)
    → Result RunError (RunState F)
with_budget state (ok budget) = ok (record state { budget = budget })
with_budget state (err e) = err (budget_error e)

abbrev pub guarded : Result CallGuardError (Unit {0}) → Result RunError (Unit {0})
guarded (ok passed) = ok passed
guarded (err e) = err (call_error e)

-- what the settlement of a record is matched with
abbrev pub call_in : CallRecord → SemanticCall
call_in r = record { reservation_id = r.reservation_id; charged_usage = r.charged_usage }

-- What a reducer is given: `canonical_hash`, and whether the stored proposal of a record validates
-- against its schema, which is so for a reducer without a reader of artifacts.
pub record RunReducer (F : Type 0) : Type 0 where
  pub canonical_hash : BudgetProjection F → ℕ
  pub proposal_validates : CallRecord → Bool

abbrev pub is_some : {A : Type 0} → Option A → Bool
is_some none = false
is_some (some _) = true

module _ {F : Type 0} where
  -- `{**pending, reservation_id: actual_usage}`
  unfoldable pub note_settlement : ℕ → ResourceVector → RunState F → RunState F
  note_settlement id actual state = record state {
    pending_semantic_settlements =
        λ key. if id == key then some actual else state.pending_semantic_settlements key;
  }

  -- the tests on the settlement of a model call, and its removal
  unfoldable pub use_settlement : RunState F → SemanticCall → Result RunError (RunState F)
  use_settlement state call = elim (state.pending_semantic_settlements call.reservation_id) [
    | none ↦ err settlement_missing
    | some usage ↦
        if not (same_usage usage call.charged_usage)
        then err settlement_mismatch
        else ok (record state {
          pending_semantic_settlements = λ key.
              if call.reservation_id == key then none else state.pending_semantic_settlements key;
        })
  ]

  -- `(*state.model_calls, payload.record)`
  abbrev pub note_call : CallIdentity → RunState F → RunState F
  note_call identity state = record state { model_calls = state.model_calls ++ identity ∷ [] }

  -- the plan that BudgetAllocated puts in force
  abbrev pub allotted : Allotment F → BudgetProjection F
  allotted a = record empty_projection { plan = some a.plan; policy_hash = some a.policy_hash }

  unfoldable pub initial : ℕ → RunState F
  initial run_id = record {
    run_id = run_id;
    version = 0;
    budget = empty_projection;
    task_signature = none;
    pending_semantic_settlements = λ _. none;
    model_calls = [];
    artifacts = [];
  }

module _ {F : Type 0} (reducer : RunReducer F) where
  -- the part of the branches that the second versions of the two model-call events share
  unfoldable pub settle_call : RunState F → CallRecord → Result RunError (RunState F)
  unfolding use_settlement
  settle_call state r = use_settlement state (call_in r) >>= λ changed.
      guarded (validate_proposal reducer.proposal_validates r) >> ok (note_call r.identity changed)

  -- the chain of `isinstance` tests on the payload
  unfoldable pub apply_payload : RunState F → RunPayload F → Result RunError (RunState F)
  unfolding note_settlement settle_call
  apply_payload state (budget_revised a) = do
    raise_if (not (same_text a.policy_version a.plan.policy_version)) policy_version_mismatch
    raise_if (not (is_some state.task_signature)) not_classified
    with_budget state (revise state.budget a.plan a.policy_hash)
  apply_payload state (budget_allocated a) = do
    raise_if (is_some state.budget.plan) already_allocated
    raise_if (not (same_text a.policy_version a.plan.policy_version)) policy_version_mismatch
    ok (record state { budget = allotted a })
  apply_payload state (budget_consumed usage) =
      with_budget state (consume reducer.canonical_hash state.budget usage)
  apply_payload state (budget_reserved reservation) =
      with_budget state (reserve reducer.canonical_hash state.budget reservation)
  apply_payload state (budget_reservation_settled id actual) =
      with_budget (note_settlement id actual state) (settle state.budget id actual)
  apply_payload state (budget_reservation_released id) = with_budget state (release state.budget id)
  apply_payload state (model_call_recorded identity) = do
    guarded (validate_common true state.model_calls state.artifacts identity)
    ok (note_call identity state)
  apply_payload state (model_call_failed identity) = do
    guarded (validate_common false state.model_calls state.artifacts identity)
    ok (note_call identity state)
  apply_payload state (model_call_recorded_v2 r) = do
    guarded (validate_common true state.model_calls state.artifacts r.identity)
    guarded (validate_success r)
    settle_call state r
  apply_payload state (model_call_failed_v2 r) = do
    guarded (validate_common false state.model_calls state.artifacts r.identity)
    guarded (validate_failure r)
    settle_call state r
  apply_payload state (artifact_registered digest) =
      ok (record state { artifacts = state.artifacts ++ digest ∷ [] })
  apply_payload state (task_classified signature) =
      ok (record state { task_signature = some signature })
  apply_payload state (run_created config_hash) = do
    raise_if (not (state.version == 0)) not_first
    ok state
  apply_payload state other_payload = ok state

  unfoldable pub apply : RunState F → StoredEvent F → Result RunError (RunState F)
  unfolding apply_payload
  apply state event = do
    raise_if (not (event.run_id == state.run_id) || not (event.sequence == state.version + 1))
        not_contiguous
    changed ← apply_payload state event.payload
    ok (record changed { version = event.sequence })

  -- the loop of `reduce`
  unfoldable pub apply_all : RunState F → List (StoredEvent F) → Result RunError (RunState F)
  unfolding apply
  apply_all state [] = ok state
  apply_all state (event ∷ events) = apply state event >>= λ next. apply_all next events

  unfoldable pub reduce : ℕ → List (StoredEvent F) → Result RunError (RunState F)
  unfolding apply_all initial
  reduce run_id events = apply_all (initial run_id) events
