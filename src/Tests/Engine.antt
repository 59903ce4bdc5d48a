-- ===== src/Tests/Engine.antt =====
-- What holds of the run of Tests/Run.antt, and of the engine of src/fre/engine.py on it.
use reasoning_engine.Prelude.{
  ℕ, ◌≡◌, ◌≢◌, refl, Bool, true, false, none, some, List, [], ◌∷◌, sort_by, take, sym, ◌∙◌, ◌>>=◌,
  Result, ok, err, arith,
}
use reasoning_engine.Budget.Types.{
  empty_projection, getattr, vector, any_resource, limit_resources, no_resources,
}
use reasoning_engine.Semantic.Guards.{
  validate_common, validate_success, validate_proposal, is_recorded,
}
use reasoning_engine.Budget.Meter.{
  add, reserved, difference, overdrawn, remaining_under, remaining, at_ceiling, reserve, without,
  settle,
}
use reasoning_engine.Budget.Bounds.{IsValid}
use reasoning_engine.Settlement.{
  validate_semantic_reservation_admission, match_calls, gather, call_of, evidence_of, push_evidence,
  take_evidence, same_usage,
}
use reasoning_engine.Reducer.{
  budget_reserved, budget_reservation_settled, budget_reservation_released, artifact_registered,
  model_call_recorded_v2, settle_call, RunState, note_settlement, use_settlement, apply_payload,
}
use reasoning_engine.Reducer.{initial as initial_state, apply as apply_event}
use reasoning_engine.Store.{
  StoreError, concurrent_append, set_version, stored_from, load, insert_event, insert_all,
  check_events, append_found,
}
use reasoning_engine.Store.{append as store_append}
use reasoning_engine.Store.Log.{IsConsistent}
use reasoning_engine.Store.Runs.{extend_log, append-refines_log}
use reasoning_engine.Store.Creation.{create_run-starts_log}
use reasoning_engine.Store.Race.{append-loses_race}
use reasoning_engine.Store.Fold.{apply_all, reduce}
use reasoning_engine.Store.Snapshots.{
  save_snapshot, latest_snapshot, load_found, replay_from_snapshot, raised_by,
}
use reasoning_engine.Engine.Admission.{append-inspect, append-stale_refused}
use reasoning_engine.Engine.Runs.{IsReachable, start, created, appended, snapshotted}
use reasoning_engine.Engine.Snapshots.{IsSound, IsReachable-IsSound}
use reasoning_engine.Engine.Restore.{replay_from_snapshot-inspect}
use reasoning_engine.Engine.Budgets.{run_reducer-IsLawful, begins, stored_budget-IsValid}
use reasoning_engine.Engine.{inspect, append_from, append, snapshot}
use reasoning_engine.Engine.Runtime.{
  CallError, config_of, admission_payload, admit_batch, apply_stored, run_reducer,
}
use reasoning_engine.Tests.Budget.{amount}
use reasoning_engine.Tests.Reducer.{reducer}
use reasoning_engine.Tests.Run.{
  sample_call, Event, event, codec, empty, first_event, allocation, call_batch, row, created_store,
  create_run_run, allocated_store, allocation_run, allocated, saved, saved_store, snapshot_run,
  called_store, call_run,
}

empty-IsConsistent : IsConsistent empty
empty-IsConsistent = record { numbered = λ r. tt; counted = λ r. refl }

created-IsConsistent : IsConsistent created_store
created-IsConsistent =
    (create_run-starts_log {E = CallError} config_of empty created_store first_event
      (row 1 first_event ∷ []) empty-IsConsistent create_run_run).0

stored_allocation :
    store_append {E = CallError} created_store 1 1 (allocation ∷ [])
    ≡ ok (allocated_store, row 2 allocation ∷ [])
unfolding store_append check_events append_found insert_all insert_event set_version stored_from
stored_allocation = refl

append-refines_log_example :
    IsConsistent allocated_store
    × (row 2 allocation ∷ [] ≡ stored_from 1 (allocation ∷ []))
    × ((other : ℕ)
        → load allocated_store other 0
          ≡ extend_log (λ r. load created_store r 0) 1 (row 2 allocation ∷ []) other)
append-refines_log_example =
    append-refines_log {E = CallError} created_store allocated_store 1 1 (allocation ∷ [])
      (row 2 allocation ∷ []) created-IsConsistent stored_allocation

abbrev rival : Event
rival = event 15 (budget_reservation_released 5)

rival_checked : check_events {E = CallError} 1 (rival ∷ []) ≡ ok tt
unfolding check_events
rival_checked = refl

append-loses_race_example :
    store_append {E = CallError} allocated_store 1 1 (rival ∷ []) ≡ err concurrent_append
append-loses_race_example =
    append-loses_race created_store allocated_store 1 1 allocation rival [] []
      (row 2 allocation ∷ []) stored_allocation rival_checked

abbrev begun : RunState ℕ
begun = record {
  run_id = 1;
  version = 1;
  budget = empty_projection;
  task_signature = none;
  pending_semantic_settlements = λ _. none;
  model_calls = [];
  artifacts = [];
}

begun_run : inspect (run_reducer reducer) created_store 1 ≡ ok begun
unfolding load sort_by apply_all apply_stored apply_event apply_payload initial_state
begun_run = refl

append-inspect_example :
    (admit_batch (row 2 allocation ∷ []) ≡ ok tt)
    × (final : RunState ℕ) × (apply_all (run_reducer reducer) begun (row 2 allocation ∷ [])
        ≡ ok final)
    × (inspect (run_reducer reducer) allocated_store 1 ≡ ok final)
append-inspect_example =
    append-inspect (run_reducer reducer) (run_reducer-IsLawful reducer) admit_batch created_store
      allocated_store 1 1 allocation [] (row 2 allocation ∷ []) begun created-IsConsistent begun_run
      allocation_run

one-ne-zero : ◌≢◌ {A = ℕ} 1 0
one-ne-zero h = omega (arith, h)

append-stale_refused_example : ¬ (
    append (run_reducer reducer) admit_batch created_store 1 0 (allocation ∷ [])
    ≡ ok (allocated_store, row 1 allocation ∷ []))
append-stale_refused_example =
    append-stale_refused (run_reducer reducer) (run_reducer-IsLawful reducer) admit_batch
      created_store 1 0 allocation [] begun (allocated_store, row 1 allocation ∷ [])
      created-IsConsistent begun_run one-ne-zero

called-IsReachable : IsReachable (run_reducer reducer) admit_batch config_of codec called_store
called-IsReachable =
    appended saved_store called_store 1 2 call_batch (stored_from 2 call_batch)
      (snapshotted allocated_store saved_store 1 2
        (appended created_store allocated_store 1 1 (allocation ∷ []) (row 2 allocation ∷ [])
          (created empty created_store first_event (row 1 first_event ∷ []) start create_run_run)
          allocation_run)
        snapshot_run)
      call_run

IsReachable-IsSound_example : IsSound (run_reducer reducer) codec called_store
IsReachable-IsSound_example =
    IsReachable-IsSound (run_reducer reducer) (run_reducer-IsLawful reducer) codec admit_batch
      config_of (begins reducer) called_store called-IsReachable

called-IsSound : IsSound (run_reducer reducer) codec called_store
called-IsSound =
    IsReachable-IsSound (run_reducer reducer) (run_reducer-IsLawful reducer) codec admit_batch
      config_of (begins reducer) called_store called-IsReachable

stored_budget-IsValid_example :
    (s : RunState ℕ) × (inspect (run_reducer reducer) called_store 1 ≡ ok s)
    × (s.version ≡ 7)
    × IsValid s.budget
stored_budget-IsValid_example =
    stored_budget-IsValid reducer codec called_store 1 called-IsReachable

saved_latest : latest_snapshot called_store 1 ≡ some saved
unfolding sort_by
saved_latest = refl

prefix_run : reduce (run_reducer reducer) 1 (take 2 (load called_store 1 0)) ≡ ok allocated
unfolding load sort_by apply_all apply_stored apply_event apply_payload initial_state stored_from
    empty_projection
prefix_run = refl

restores :
    (s : RunState ℕ)
    → reduce (run_reducer reducer) 1 (take 2 (load called_store 1 0)) ≡ ok s
    → codec.model_validate saved.state_json ≡ ok s
restores s h = sym prefix_run ∙ h

replay_from_snapshot-inspect_example :
    replay_from_snapshot (run_reducer reducer) codec called_store 1
    ≡ raised_by (inspect (run_reducer reducer) called_store 1)
replay_from_snapshot-inspect_example =
    replay_from_snapshot-inspect (run_reducer reducer) codec called_store 1 saved called-IsSound
      refl saved_latest restores

-- A settlement without a model call, in a snapshot.
abbrev settled_batch : List Event
settled_batch =
    event 12
      (budget_reserved (record { reservation_id = 5; action_id = 9; resources = amount 2 1000 }))
    ∷ event 13 (budget_reservation_settled 5 (amount 1 80))
    ∷ []

-- The same reservation once more, with the record of its call before the settlement.
abbrev late_batch : List Event
late_batch =
    event 14
      (budget_reserved (record { reservation_id = 5; action_id = 9; resources = amount 2 1000 }))
    ∷ event 15 (artifact_registered 60)
    ∷ event 16 (artifact_registered 61)
    ∷ event 17 (model_call_recorded_v2 (sample_call (amount 1 80)))
    ∷ event 18 (budget_reservation_settled 5 (amount 1 80))
    ∷ []

abbrev kept_call : Result CallError (RunState ℕ) → Bool
kept_call (ok _) = true
kept_call (err _) = false

abbrev outcome : Result (StoreError CallError) (RunState ℕ) → Bool
outcome (ok _) = true
outcome (err _) = false

abbrev divergence : Result (StoreError CallError) (Bool × Bool)
divergence = do
  (made, _) ← append (run_reducer reducer) admit_batch allocated_store 1 2 settled_batch
  (shot, _) ← snapshot (run_reducer reducer) codec made 1
  (late, _) ← append (run_reducer reducer) admit_batch shot 1 4 late_batch
  ok (
    kept_call (inspect (run_reducer reducer) late 1),
    outcome (replay_from_snapshot (run_reducer reducer) codec late 1),
  )

-- The engine stores both batches and the log replays, but not from the snapshot, which has lost the
-- pending settlement.
divergence_run : divergence ≡ ok (true, false)
unfolding append append_from store_append check_events append_found insert_all insert_event
    set_version stored_from load sort_by apply_all apply_stored apply_event apply_payload
    initial_state admit_batch admission_payload validate_semantic_reservation_admission match_calls
    gather call_of evidence_of empty_projection push_evidence take_evidence same_usage
    note_settlement settle_call use_settlement validate_common validate_success validate_proposal
    is_recorded reserve at_ceiling remaining remaining_under overdrawn any_resource getattr
    limit_resources reserved difference settle add vector no_resources without snapshot
    save_snapshot load_found
divergence_run = refl
