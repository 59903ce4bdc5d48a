-- ===== src/Tests/Reducer.antt =====
-- The replay of a small log by src/fre/runtime/reducer.py.
use reasoning_engine.Prelude.{
  if◌then◌else◌, ◌==◌, ℕ, ◌≡◌, refl, true, some, none, List, [], ◌∷◌, length, sort_by, ok,
}
use reasoning_engine.Budget.Types.{
  empty_projection, getattr, vector, any_resource, limit_resources, no_resources,
}
use reasoning_engine.Budget.Meter.{
  add, reserved, difference, overdrawn, remaining_under, remaining, at_ceiling, reserve, without,
  settle,
}
use reasoning_engine.Budget.Bounds.{IsValid}
use reasoning_engine.Reducer.{
  RunPayload, budget_allocated, budget_reserved, budget_reservation_settled, StoredEvent, RunState,
  RunReducer, initial, note_settlement, apply_payload, apply, apply_all, reduce,
}
use reasoning_engine.Reducer.Replay.{reduce-IsValid}
use reasoning_engine.Tests.Budget.{amount, hash, plan}

abbrev pub reducer : RunReducer ℕ
reducer = record { canonical_hash = hash; proposal_validates = λ r. true }

abbrev event : ℕ → RunPayload ℕ → StoredEvent ℕ
event n payload = record { run_id = 1; sequence = n; payload = payload }

abbrev log : List (StoredEvent ℕ)
log =
    event 1
      (budget_allocated (record { plan = plan; policy_version = "test/1.0"; policy_hash = 3 }))
    ∷ event 2
        (budget_reserved (record { reservation_id = 5; action_id = 9; resources = amount 2 1000 }))
    ∷ event 3 (budget_reservation_settled 5 (amount 1 800))
    ∷ []

abbrev ended : RunState ℕ
ended = record {
  run_id = 1;
  version = 3;
  budget = record {
    plan = some plan;
    policy_hash = some 3;
    committed = amount 1 800;
    reservations = [];
    usage_events = amount 1 800 ∷ [];
  };
  task_signature = none;
  pending_semantic_settlements = λ key. if 5 == key then some (amount 1 800) else none;
  model_calls = [];
  artifacts = [];
}

log_run : reduce reducer 1 log ≡ ok ended
unfolding reduce initial apply_all apply apply_payload note_settlement empty_projection reserve
    at_ceiling remaining remaining_under overdrawn any_resource getattr limit_resources reserved
    difference settle sort_by add vector no_resources without
log_run = refl

reduce-IsValid_example : IsValid ended.budget × (ended.version ≡ length log)
reduce-IsValid_example = reduce-IsValid reducer 1 log ended log_run
