-- ===== src/Engine.antt =====
-- `FrontierReasoningEngine` of src/fre/engine.py: the operations on runs, over the store and a
-- reducer. The parameter `admit` stands for `validate_semantic_reservation_admission`, which
-- Settlement models. The artifact calls and `_event`, which makes an event out of a payload, the clock
-- and fresh identifiers, are not modelled: an event is an argument.
pub mod Replays
pub mod Admission
pub mod Runs
pub mod Snapshots
pub mod Restore
pub mod Runtime
pub mod Budgets
use reasoning_engine.Prelude.{
  ℕ, Bool, true, false, Option, none, some, List, [], ◌∷◌, not, ◌==◌, if◌then◌else◌, Result, ok,
  err, ◌>>=◌, ◌>>◌,
}
use reasoning_engine.Store.{
  UncommittedEvent, EventRow, Tables, StoreError, called, stored_from, load,
}
use reasoning_engine.Store.{append as store_append, create_run as store_create_run}
use reasoning_engine.Store.Fold.{Reducer, apply_all, reduce}
use reasoning_engine.Store.Snapshots.{Codec, save_snapshot, raised_by as passed_on}

module _ {P S X J : Type 0} (reducer : Reducer P S X) where
  -- `inspect`, and `replay`
  abbrev pub inspect : Tables P J → ℕ → Result X S
  inspect store run_id = reduce reducer run_id (load store run_id 0)

module _ {P S X J : Type 0} (reducer : Reducer P S X)
    (admit : List (EventRow P) → Result X (Unit {0})) where
  -- the rest of `append`, on the state that `inspect` returns
  unfoldable pub append_from :
      Tables P J
      → ℕ
      → ℕ
      → List (UncommittedEvent P)
      → S
      → Result (StoreError X) (Tables P J × List (EventRow P))
  append_from store run_id expected_version events preview =
      if not (reducer.version_of preview == expected_version)
      then store_append store run_id expected_version events
      else do
        passed_on (admit (stored_from expected_version events))
        final ← passed_on (apply_all reducer preview (stored_from expected_version events))
        store_append store run_id expected_version events

  unfoldable pub append :
      Tables P J
      → ℕ
      → ℕ
      → List (UncommittedEvent P)
      → Result (StoreError X) (Tables P J × List (EventRow P))
  append store run_id expected_version events =
      passed_on (inspect reducer store run_id) >>= append_from store run_id expected_version events

module _ {P X J : Type 0} where
  -- `create_run`, on the event that it makes
  abbrev pub create_run :
      (P → Option ℕ)
      → Tables P J
      → UncommittedEvent P
      → Result (StoreError X) (Tables P J × List (EventRow P))
  create_run config_of store event = store_create_run config_of store event

module _ {P S X J : Type 0} (reducer : Reducer P S X) (codec : Codec S J X) where
  unfoldable pub snapshot : Tables P J → ℕ → Result (StoreError X) (Tables P J × ℕ)
  snapshot store run_id = passed_on (inspect reducer store run_id) >>= λ state.
      save_snapshot reducer codec store state codec.version
