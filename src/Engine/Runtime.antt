-- ===== src/Engine/Runtime.antt =====
-- The reducer and the admission check that `FrontierReasoningEngine` of src/fre/engine.py works with,
-- as far as Reducer and Settlement model them.
use reasoning_engine.Prelude.{
  ℕ, Option, none, some, List, map, any, ◌>>◌, raise_if, Result, ok, err,
}
use reasoning_engine.Settlement.{
  Payload, AdmissionError, validate_semantic_reservation_admission, model_call_recorded_v2,
  model_call_failed_v2,
}
use reasoning_engine.Settlement.{
  budget_reservation_settled as settled_payload, budget_reservation_released as released_payload,
  other_payload as passed_over,
}
use reasoning_engine.Reducer.{
  RunPayload, budget_revised, budget_allocated, budget_consumed, budget_reserved,
  budget_reservation_settled, budget_reservation_released, model_call_recorded, model_call_failed,
  artifact_registered, call_in, RunReducer, task_classified, run_created, other_payload, RunState,
  RunError,
}
use reasoning_engine.Reducer.{
  model_call_recorded_v2 as run_recorded, model_call_failed_v2 as run_failed,
}
use reasoning_engine.Reducer.{initial as initial_state, apply as apply_event}
use reasoning_engine.Store.{EventRow, is_missing}
use reasoning_engine.Store.Fold.{Reducer}

pub data CallError : Type 0 where
  payload_invalid : CallError
  not_applied : RunError → CallError
  not_admitted : AdmissionError → CallError

abbrev pub admitted : Result AdmissionError (Unit {0}) → Result CallError (Unit {0})
admitted (err e) = err (not_admitted e)
admitted (ok _) = ok tt

module _ {F : Type 0} where
  -- `isinstance(payload, RunCreated)`
  unfoldable pub config_of : RunPayload F → Option ℕ
  config_of (run_created config_hash) = some config_hash
  config_of (budget_revised _) = none
  config_of (budget_allocated _) = none
  config_of (budget_consumed _) = none
  config_of (budget_reserved _) = none
  config_of (budget_reservation_settled _ _) = none
  config_of (budget_reservation_released _) = none
  config_of (model_call_recorded _) = none
  config_of (model_call_failed _) = none
  config_of (run_recorded _) = none
  config_of (run_failed _) = none
  config_of (artifact_registered _) = none
  config_of (task_classified _) = none
  config_of other_payload = none

  -- what the admission check sees of a payload
  unfoldable pub admission_payload : Option (RunPayload F) → Payload
  admission_payload (some (budget_reservation_settled id actual)) = settled_payload id actual
  admission_payload (some (budget_reservation_released id)) = released_payload id
  admission_payload (some (run_recorded r)) = model_call_recorded_v2 (call_in r)
  admission_payload (some (run_failed r)) = model_call_failed_v2 (call_in r)
  admission_payload (some (model_call_recorded _)) = passed_over
  admission_payload (some (model_call_failed _)) = passed_over
  admission_payload (some (artifact_registered _)) = passed_over
  admission_payload (some (budget_revised _)) = passed_over
  admission_payload (some (budget_allocated _)) = passed_over
  admission_payload (some (budget_consumed _)) = passed_over
  admission_payload (some (budget_reserved _)) = passed_over
  admission_payload (some (task_classified _)) = passed_over
  admission_payload (some (run_created _)) = passed_over
  admission_payload (some other_payload) = passed_over
  admission_payload none = passed_over

  -- the first pass raises at a payload that is not valid
  unfoldable pub admit_batch : List (EventRow (RunPayload F)) → Result CallError (Unit {0})
  admit_batch rows = do
    raise_if (any (λ row. is_missing row.event.payload) rows) payload_invalid
    admitted (
        validate_semantic_reservation_admission
          (map (λ (row : EventRow (RunPayload F)). admission_payload row.event.payload) rows))

  abbrev pub applied : Result RunError (RunState F) → Result CallError (RunState F)
  applied (err e) = err (not_applied e)
  applied (ok state) = ok state

module _ {F : Type 0} (reducer : RunReducer F) where
  -- `validated_payload` raises before the branches of `apply` are reached
  unfoldable pub apply_stored : RunState F → EventRow (RunPayload F) → Result CallError (RunState F)
  apply_stored state row = elim row.event.payload [
    | none ↦ err payload_invalid
    | some payload ↦ applied (
        apply_event reducer state
          (record { run_id = row.event.run_id; sequence = row.sequence; payload = payload }))
  ]

  abbrev pub run_reducer : Reducer (RunPayload F) (RunState F) CallError
  run_reducer = record {
    initial = initial_state;
    apply = apply_stored;
    run_of = λ state. state.run_id;
    version_of = λ state. state.version;
  }
