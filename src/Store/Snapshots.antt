-- ===== src/Store/Snapshots.antt =====
-- The snapshots of src/fre/adapters/storage_sqlite/store.py.
use reasoning_engine.Prelude.{
  ℕ, Bool, Option, none, some, List, [], ◌∷◌, ◌++◌, ◌&&◌, ◌||◌, not, any, keep, leb, ◌==◌, Result,
  ok, err, ◌>>=◌, ◌>>◌, raise_if, sort_by,
}
use reasoning_engine.Store.{
  SnapshotRow, Tables, StoreError, integrity_error, no_snapshot, snapshot_integrity, called, load,
}
use reasoning_engine.Store.Fold.{Reducer, apply_all, reduce}

-- What the snapshots use of `RunState` and of the reducer: `snapshot_payload` and its canonical
-- JSON, `canonical_hash`, `model_validate`, `accepts_snapshot_version` and `version`.
pub record Codec (S J X : Type 0) : Type 0 where
  pub snapshot_payload : S → J
  pub canonical_hash : J → ℕ
  pub model_validate : J → Result X S
  pub accepts_snapshot_version : ℕ → Bool
  pub version : ℕ

abbrev pub newest_first : {J : Type 0} → SnapshotRow J → SnapshotRow J → Bool
newest_first a b = leb b.sequence a.sequence

abbrev pub first : {A : Type 0} → List A → Option A
first [] = none
first (a ∷ _) = some a

-- An exception of the reducer or of `model_validate`.
abbrev pub raised_by : {X A : Type 0} → Result X A → Result (StoreError X) A
raised_by (err e) = err (called e)
raised_by (ok a) = ok a

module _ {S J X : Type 0} (codec : Codec S J X) where
  -- `state.state_hash`
  abbrev pub state_hash : S → ℕ
  state_hash state = codec.canonical_hash (codec.snapshot_payload state)

module _ {P J : Type 0} where
  -- `SELECT ... WHERE run_id = ? ORDER BY sequence DESC LIMIT 1`
  abbrev pub latest_snapshot : Tables P J → ℕ → Option (SnapshotRow J)
  latest_snapshot store run_id =
      first (sort_by newest_first (keep (λ row. row.run_id == run_id) store.snapshots))

module _ {P S J X : Type 0} (reducer : Reducer P S X) (codec : Codec S J X) where
  -- the row that `save_snapshot` writes
  abbrev pub snapshot_row : S → ℕ → SnapshotRow J
  snapshot_row state reducer_version = record {
    run_id = reducer.run_of state;
    sequence = reducer.version_of state;
    state_json = codec.snapshot_payload state;
    state_hash = state_hash codec state;
    reducer_version = reducer_version;
  }

  -- the tables after `INSERT OR REPLACE`, which takes out the row of the same run and sequence
  abbrev pub with_snapshot : Tables P J → S → ℕ → Tables P J
  with_snapshot store state reducer_version = record store {
    snapshots =
        keep
          (λ row.
            not
              ((row.run_id == reducer.run_of state) && (row.sequence == reducer.version_of state)))
          store.snapshots
        ++ snapshot_row state reducer_version ∷ [];
  }

  -- `save_snapshot`; the run of a snapshot must be in `runs`, by the foreign key
  unfoldable pub save_snapshot : Tables P J → S → ℕ → Result (StoreError X) (Tables P J × ℕ)
  save_snapshot store state reducer_version = do
    raise_if (not (any (λ row. row.run_id == reducer.run_of state) store.runs)) integrity_error
    ok (with_snapshot store state reducer_version, state_hash codec state)

  -- `verify_snapshot`, on the row that its query finds
  unfoldable pub verify_found : Tables P J → ℕ → Option (SnapshotRow J) → Result (StoreError X) S
  verify_found store run_id none = err no_snapshot
  verify_found store run_id (some row) = do
    raise_if (not (codec.accepts_snapshot_version row.reducer_version)) snapshot_integrity
    raise_if (not (codec.canonical_hash row.state_json == row.state_hash)) snapshot_integrity
    rebuilt ← raised_by (
        reduce reducer run_id
          (keep (λ event. leb event.sequence row.sequence) (load store run_id 0)))
    raise_if
        (not (reducer.version_of rebuilt == row.sequence)
          || not (state_hash codec rebuilt == row.state_hash))
        snapshot_integrity
    ok rebuilt

  abbrev pub verify_snapshot : Tables P J → ℕ → Result (StoreError X) S
  verify_snapshot store run_id = verify_found store run_id (latest_snapshot store run_id)

  -- `load_snapshot`, on the row that its query finds
  unfoldable pub load_found : ℕ → Option (SnapshotRow J) → Result (StoreError X) S
  load_found run_id none = err no_snapshot
  load_found run_id (some row) = do
    raise_if (not (codec.accepts_snapshot_version row.reducer_version)) snapshot_integrity
    raise_if (not (codec.canonical_hash row.state_json == row.state_hash)) snapshot_integrity
    state ← raised_by (codec.model_validate row.state_json)
    raise_if
        (not (reducer.run_of state == run_id)
          || (not (reducer.version_of state == row.sequence)
              || not (state_hash codec state == row.state_hash)))
        snapshot_integrity
    ok state

  abbrev pub load_snapshot : Tables P J → ℕ → Result (StoreError X) S
  load_snapshot store run_id = load_found run_id (latest_snapshot store run_id)

  abbrev pub replay_from_snapshot : Tables P J → ℕ → Result (StoreError X) S
  replay_from_snapshot store run_id = load_snapshot store run_id >>= λ state.
      raised_by (apply_all reducer state (load store run_id (reducer.version_of state)))
