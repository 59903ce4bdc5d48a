-- ===== src/Tests/Run.antt =====
-- A run that src/fre/engine.py creates, fills, and takes a snapshot of, event by event.
use reasoning_engine.Prelude.{ℕ, ◌≡◌, refl, none, some, List, [], ◌∷◌, ◌==◌, sort_by, ok}
use reasoning_engine.Budget.Types.{
  ResourceVector, empty_projection, getattr, vector, any_resource, limit_resources, no_resources,
}
use reasoning_engine.Semantic.{success, reported_usage, SemanticCallUsage, CallRecord}
use reasoning_engine.Semantic.Guards.{
  validate_common, validate_success, validate_proposal, is_recorded,
}
use reasoning_engine.Budget.Meter.{
  add, reserved, difference, overdrawn, remaining_under, remaining, at_ceiling, reserve, without,
  settle,
}
use reasoning_engine.Settlement.{
  validate_semantic_reservation_admission, match_calls, gather, call_of, evidence_of, push_evidence,
  take_evidence, same_usage,
}
use reasoning_engine.Reducer.{
  RunPayload, budget_allocated, budget_reserved, budget_reservation_settled, artifact_registered,
  model_call_recorded_v2, settle_call, run_created, RunState, note_settlement, use_settlement,
  apply_payload,
}
use reasoning_engine.Reducer.{initial as initial_state, apply as apply_event}
use reasoning_engine.Store.{
  UncommittedEvent, EventRow, SnapshotRow, Tables, set_version, stored_from, load, insert_event,
  insert_all, check_events, append_found, create_found,
}
use reasoning_engine.Store.{append as store_append, create_run as store_create_run}
use reasoning_engine.Store.Fold.{apply_all}
use reasoning_engine.Store.Snapshots.{Codec, save_snapshot}
use reasoning_engine.Engine.{append_from, append, create_run, snapshot}
use reasoning_engine.Engine.Runtime.{
  CallError, config_of, admission_payload, admit_batch, apply_stored, run_reducer,
}
use reasoning_engine.Tests.Budget.{amount, plan}
use reasoning_engine.Tests.Reducer.{reducer}

abbrev pub Event : Type 0
Event = UncommittedEvent (RunPayload ℕ)

abbrev pub event : ℕ → RunPayload ℕ → Event
event id payload = record {
  event_id = id;
  run_id = 1;
  action_id = 20;
  module_id = 2;
  module_version = 1;
  input_hash = 30;
  created_at = 40;
  payload = some payload;
}

abbrev pub codec : Codec (RunState ℕ) (RunState ℕ) CallError
codec = record {
  snapshot_payload = λ s. record s { pending_semantic_settlements = λ _. none };
  canonical_hash = λ s. s.version;
  model_validate = ok;
  accepts_snapshot_version = λ v. v == 2;
  version = 2;
}

abbrev Store : Type 0
Store = Tables (RunPayload ℕ) (RunState ℕ)

abbrev pub empty : Store
empty = record { runs = []; events = []; snapshots = [] }

abbrev pub first_event : Event
first_event = event 10 (run_created 77)

abbrev pub allocation : Event
allocation =
    event 11
      (budget_allocated (record { plan = plan; policy_version = "test/1.0"; policy_hash = 3 }))

abbrev reported : ResourceVector → SemanticCallUsage
reported usage = record {
  input_tokens = some usage.input_tokens;
  output_tokens = some usage.output_tokens;
  duration_ms = none;
}

abbrev pub sample_call : ResourceVector → CallRecord
sample_call usage = record {
  identity = record { idempotency_key = 9; raw_artifact = some 60; proposal_artifact = some 61 };
  status = success;
  usage = reported usage;
  policy_charge = record {
    llm_calls = 1;
    input_tokens = usage.input_tokens;
    output_tokens = usage.output_tokens;
    basis = reported_usage;
  };
  accounting_condition = none;
  validation_diagnostics = [];
  reservation_id = 5;
  reported_usage = reported usage;
  charged_usage = usage;
  charge_basis = reported_usage;
}

abbrev pub call_batch : List Event
call_batch =
    event 12
      (budget_reserved (record { reservation_id = 5; action_id = 9; resources = amount 2 1000 }))
    ∷ event 13 (budget_reservation_settled 5 (amount 1 800))
    ∷ event 14 (artifact_registered 60)
    ∷ event 15 (artifact_registered 61)
    ∷ event 16 (model_call_recorded_v2 (sample_call (amount 1 800)))
    ∷ []

abbrev pub row : ℕ → Event → EventRow (RunPayload ℕ)
row n e = record { event = e; sequence = n }

abbrev pub created_store : Store
created_store = record {
  runs = record { run_id = 1; config_hash = 77; current_version = 1 } ∷ [];
  events = row 1 first_event ∷ [];
  snapshots = [];
}

pub create_run_run :
    create_run {X = CallError} config_of empty first_event
    ≡ ok (created_store, row 1 first_event ∷ [])
unfolding store_create_run create_found append_found insert_all insert_event set_version stored_from
    config_of
create_run_run = refl

abbrev pub allocated_store : Store
allocated_store = record {
  runs = record { run_id = 1; config_hash = 77; current_version = 2 } ∷ [];
  events = row 1 first_event ∷ row 2 allocation ∷ [];
  snapshots = [];
}

pub allocation_run :
    append (run_reducer reducer) admit_batch created_store 1 1 (allocation ∷ [])
    ≡ ok (allocated_store, row 2 allocation ∷ [])
unfolding append append_from store_append check_events append_found insert_all insert_event
    set_version stored_from load sort_by apply_all apply_stored apply_event apply_payload
    initial_state admit_batch admission_payload validate_semantic_reservation_admission match_calls
    gather call_of evidence_of empty_projection
allocation_run = refl

abbrev pub allocated : RunState ℕ
allocated = record {
  run_id = 1;
  version = 2;
  budget = record empty_projection { plan = some plan; policy_hash = some 3 };
  task_signature = none;
  pending_semantic_settlements = λ _. none;
  model_calls = [];
  artifacts = [];
}

abbrev pub saved : SnapshotRow (RunState ℕ)
saved = record {
  run_id = 1;
  sequence = 2;
  state_json = allocated;
  state_hash = 2;
  reducer_version = 2;
}

abbrev pub saved_store : Store
saved_store = record allocated_store { snapshots = saved ∷ [] }

pub snapshot_run : snapshot (run_reducer reducer) codec allocated_store 1 ≡ ok (saved_store, 2)
unfolding snapshot save_snapshot load sort_by apply_all apply_stored apply_event apply_payload
    initial_state empty_projection
snapshot_run = refl

abbrev pub called_store : Store
called_store = record saved_store {
  runs = record { run_id = 1; config_hash = 77; current_version = 7 } ∷ [];
  events = row 1 first_event ∷ row 2 allocation ∷ stored_from 2 call_batch;
}

pub call_run :
    append (run_reducer reducer) admit_batch saved_store 1 2 call_batch
    ≡ ok (called_store, stored_from 2 call_batch)
unfolding append append_from store_append check_events append_found insert_all insert_event
    set_version stored_from load sort_by apply_all apply_stored apply_event apply_payload
    initial_state admit_batch admission_payload validate_semantic_reservation_admission match_calls
    gather call_of evidence_of empty_projection push_evidence take_evidence same_usage
    note_settlement settle_call use_settlement validate_common validate_success validate_proposal
    is_recorded reserve at_ceiling remaining remaining_under overdrawn any_resource getattr
    limit_resources reserved difference settle add vector no_resources without
call_run = refl
