-- ===== src/Engine/Budgets.antt =====
-- The budget of the runs that `FrontierReasoningEngine` of src/fre/engine.py stores.
use reasoning_engine.Prelude.{
  ℕ, ◌≡◌, refl, subst, Option, none, some, ==-refl, List, [], ◌∷◌, Result, ok, err, >>=-eq-ok,
}
use reasoning_engine.Budget.Bounds.{IsValid, empty_projection-IsValid}
use reasoning_engine.Reducer.{
  RunPayload, budget_revised, budget_allocated, budget_consumed, budget_reserved,
  budget_reservation_settled, budget_reservation_released, model_call_recorded, model_call_failed,
  model_call_recorded_v2, model_call_failed_v2, artifact_registered, RunReducer, task_classified,
  run_created, other_payload, RunState, apply_payload,
}
use reasoning_engine.Reducer.{initial as initial_state, apply as apply_event}
use reasoning_engine.Reducer.Replay.{apply-IsValid, apply-run_id}
use reasoning_engine.Store.{UncommittedEvent, EventRow, Tables}
use reasoning_engine.Store.Log.{version_in}
use reasoning_engine.Store.Fold.{IsLawful, apply_all}
use reasoning_engine.Store.Snapshots.{Codec}
use reasoning_engine.Engine.{inspect}
use reasoning_engine.Engine.Replays.{inspect-version}
use reasoning_engine.Engine.Runs.{IsReachable}
use reasoning_engine.Engine.Snapshots.{IsReachable-IsSound}
use reasoning_engine.Engine.Runtime.{
  CallError, config_of, admit_batch, applied, apply_stored, run_reducer,
}

module _ {F : Type 0} (reducer : RunReducer F) where
  -- What was applied where the call returns.
  apply_stored-ok :
      (s t : RunState F) (row : EventRow (RunPayload F))
      → apply_stored reducer s row ≡ ok t
      → (payload : RunPayload F) × (apply_event reducer s
            (record { run_id = row.event.run_id; sequence = row.sequence; payload = payload })
          ≡ ok t)
  unfolding apply_stored
  apply_stored-ok s t row h = go row.event.payload h
    where
      returned : (r : Result _ (RunState F)) → applied r ≡ ok t → r ≡ ok t
      returned (err e) k = absurd (cc k)
      returned (ok u) k = cc k

      go :
          (payload : Option (RunPayload F))
          → apply_stored reducer s (record row { event = record row.event { payload = payload } })
            ≡ ok t
          → (payload : RunPayload F) × (apply_event reducer s
                (record { run_id = row.event.run_id; sequence = row.sequence; payload = payload })
              ≡ ok t)
      go none k = absurd (cc k)
      go (some payload) k = (payload, returned _ k)

  pub run_reducer-IsLawful : IsLawful (run_reducer reducer)
  unfolding initial_state
  run_reducer-IsLawful = record {
    initial_version = λ r. refl;
    initial_run = λ r. refl;
    apply_version = λ s t row h.
        let (payload, did) = apply_stored-ok s t row h in (apply-run_id reducer s t _ did).1;
    apply_run = λ s t row h.
        let (payload, did) = apply_stored-ok s t row h in (apply-run_id reducer s t _ did).0;
  }

  apply_all-budget-IsValid :
      (s t : RunState F) (rows : List (EventRow (RunPayload F)))
      → IsValid s.budget
      → apply_all (run_reducer reducer) s rows ≡ ok t
      → IsValid t.budget
  unfolding apply_all
  apply_all-budget-IsValid s t [] v h =
      let same : s ≡ t = cc h in subst (λ (x : RunState F). IsValid x.budget) same v
  apply_all-budget-IsValid s t (row ∷ rows) v h =
      let (next, first, rest) = >>=-eq-ok (apply_stored reducer s row) _ h in
      let (payload, did) = apply_stored-ok s next row first in
      apply_all-budget-IsValid next t rows (apply-IsValid reducer s next _ v did).0 rest

  -- The reducer takes the first event of a run.
  pub begins :
      (event : UncommittedEvent (RunPayload F)) (payload : RunPayload F) (config_hash : ℕ)
      → event.payload ≡ some payload
      → config_of payload ≡ some config_hash
      → (s : RunState F) × (apply_stored reducer
            (initial_state event.run_id)
            (record { event = event; sequence = 1 })
          ≡ ok s)
  unfolding config_of apply_stored apply_event apply_payload initial_state
  begins event (run_created h) config_hash given config = (
    record (initial_state event.run_id) { version = 1 },
    rw given (rw (==-refl event.run_id) refl),
  )
  begins event (budget_revised _) config_hash given config = absurd (cc config)
  begins event (budget_allocated _) config_hash given config = absurd (cc config)
  begins event (budget_consumed _) config_hash given config = absurd (cc config)
  begins event (budget_reserved _) config_hash given config = absurd (cc config)
  begins event (budget_reservation_settled _ _) config_hash given config = absurd (cc config)
  begins event (budget_reservation_released _) config_hash given config = absurd (cc config)
  begins event (model_call_recorded _) config_hash given config = absurd (cc config)
  begins event (model_call_failed _) config_hash given config = absurd (cc config)
  begins event (model_call_recorded_v2 _) config_hash given config = absurd (cc config)
  begins event (model_call_failed_v2 _) config_hash given config = absurd (cc config)
  begins event (artifact_registered _) config_hash given config = absurd (cc config)
  begins event (task_classified _) config_hash given config = absurd (cc config)
  begins event other_payload config_hash given config = absurd (cc config)

  -- In a store that calls of the engine lead to, every run replays, and the state has the version in
  -- the run's row and a valid budget: what is committed and reserved fits the plan in force, what is
  -- committed is the sum of the recorded usage, and no reservation or action is there twice.
  pub stored_budget-IsValid :
      {J : Type 0} (codec : Codec (RunState F) J CallError) (store : Tables (RunPayload F) J)
      (run_id : ℕ)
      → IsReachable (run_reducer reducer) admit_batch config_of codec store
      → (s : RunState F) × (inspect (run_reducer reducer) store run_id ≡ ok s)
        × (s.version ≡ version_in run_id store.runs)
        × IsValid s.budget
  unfolding initial_state
  stored_budget-IsValid codec store run_id reachable =
      let sound =
        IsReachable-IsSound (run_reducer reducer) run_reducer-IsLawful codec admit_batch config_of
          begins store reachable in
      let (s, seen) = sound.replays.state run_id in
      (
        s,
        seen,
        inspect-version (run_reducer reducer) run_reducer-IsLawful store run_id s
            sound.replays.consistent seen,
        apply_all-budget-IsValid (initial_state run_id) s _ empty_projection-IsValid seen,
      )
