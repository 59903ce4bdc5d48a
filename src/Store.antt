-- ===== src/Store.antt =====
-- `SQLiteStore` of src/fre/adapters/storage_sqlite/store.py: its tables are the state, a statement that
-- breaks a primary key raises, and a transaction that raises leaves the state as it was, so a call that
-- raises returns no state. The texts of the rows are numbers, and the clock columns are left out.
pub mod Numbered
pub mod Log
pub mod Append
pub mod Runs
pub mod Fold
pub mod Snapshots
pub mod Creation
pub mod Race
use reasoning_engine.Prelude.{
  ℕ, suc, ◌+◌, Bool, true, false, Option, none, some, List, [], ◌∷◌, ◌++◌, ◌&&◌, ◌||◌, not, any,
  keep, find, length, ltb, leb, ◌==◌, if◌then◌else◌, Result, ok, err, ◌>>=◌, ◌>>◌, raise_if,
  sort_by,
}

-- `UncommittedEvent`; `payload` is what `validated_payload` returns, `none` where it raises
pub record UncommittedEvent (P : Type 0) : Type 0 where
  pub event_id : ℕ
  pub run_id : ℕ
  pub action_id : ℕ
  pub module_id : ℕ
  pub module_version : ℕ
  pub input_hash : ℕ
  pub created_at : ℕ
  pub payload : Option P

-- `StoredEvent`, and a row of `events`
pub record EventRow (P : Type 0) : Type 0 where
  pub event : UncommittedEvent P
  pub sequence : ℕ

-- a row of `runs`
pub record RunRow : Type 0 where
  pub run_id : ℕ
  pub config_hash : ℕ
  pub current_version : ℕ

-- a row of `snapshots`
pub record SnapshotRow (J : Type 0) : Type 0 where
  pub run_id : ℕ
  pub sequence : ℕ
  pub state_json : J
  pub state_hash : ℕ
  pub reducer_version : ℕ

pub record Tables (P J : Type 0) : Type 0 where
  pub runs : List RunRow
  pub events : List (EventRow P)
  pub snapshots : List (SnapshotRow J)

-- The exceptions of the store, and those of what it calls.
pub data StoreError (E : Type 0) : Type 0 where
  not_run_created foreign_event invalid_payload integrity_error : StoreError E
  unknown_run concurrent_append no_snapshot snapshot_integrity : StoreError E
  called : E → StoreError E

abbrev pub seq_le : {P : Type 0} → EventRow P → EventRow P → Bool
seq_le a b = leb a.sequence b.sequence

abbrev pub is_of : {P : Type 0} → ℕ → EventRow P → Bool
is_of run_id row = row.event.run_id == run_id

-- `SELECT current_version FROM runs WHERE run_id = ?`
abbrev pub find_run : ℕ → List RunRow → Option RunRow
find_run run_id runs = find (λ row. row.run_id == run_id) runs

-- `UPDATE runs SET current_version = ? WHERE run_id = ?`
unfoldable pub set_version : ℕ → ℕ → List RunRow → List RunRow
set_version run_id version [] = []
set_version run_id version (row ∷ rows) =
    (if row.run_id == run_id then record row { current_version = version } else row)
    ∷ set_version run_id version rows

abbrev pub is_missing : {A : Type 0} → Option A → Bool
is_missing none = true
is_missing (some _) = false

module _ {P : Type 0} where
  -- the rows that `_append_locked` returns
  unfoldable pub stored_from : ℕ → List (UncommittedEvent P) → List (EventRow P)
  stored_from version [] = []
  stored_from version (event ∷ events) =
      record { event = event; sequence = suc version } ∷ stored_from (suc version) events

  -- `load`: `WHERE run_id = ? AND sequence > ? ORDER BY sequence`
  unfoldable pub load : {J : Type 0} → Tables P J → ℕ → ℕ → List (EventRow P)
  load store run_id after_sequence =
      sort_by seq_le
        (keep (λ row. is_of run_id row && ltb after_sequence row.sequence) store.events)

module _ {P E : Type 0} where
  -- `INSERT INTO events VALUES (...)`: `event_id` is the key, `(run_id, sequence)` is unique
  unfoldable pub insert_event :
      EventRow P → List (EventRow P) → Result (StoreError E) (List (EventRow P))
  insert_event row rows = do
    raise_if
        (any
          (λ (old : EventRow P).
            (old.event.event_id == row.event.event_id)
            || ((old.event.run_id == row.event.run_id) && (old.sequence == row.sequence)))
          rows)
        integrity_error
    ok (rows ++ row ∷ [])

  -- the loop of `_append_locked`, from the number before that of the first event
  unfoldable pub insert_all :
      ℕ → List (UncommittedEvent P) → List (EventRow P) → Result (StoreError E) (List (EventRow P))
  insert_all version [] rows = ok rows
  insert_all version (event ∷ events) rows =
      insert_event (record { event = event; sequence = suc version }) rows >>= λ more.
      insert_all (suc version) events more

  -- the loop of `append` over the events
  unfoldable pub check_events : ℕ → List (UncommittedEvent P) → Result (StoreError E) (Unit {0})
  check_events run_id [] = ok tt
  check_events run_id (event ∷ events) =
      raise_if (not (event.run_id == run_id)) foreign_event
      >> (raise_if (is_missing event.payload) invalid_payload >> check_events run_id events)

module _ {P J E : Type 0} where
  -- `_append_locked`, on the row of the run that its query finds
  unfoldable pub append_found :
      Tables P J
      → ℕ
      → ℕ
      → List (UncommittedEvent P)
      → Option RunRow
      → Result (StoreError E) (Tables P J × List (EventRow P))
  append_found store run_id expected_version events none = err unknown_run
  append_found store run_id expected_version events (some row) = do
    raise_if (not (row.current_version == expected_version)) concurrent_append
    rows ← insert_all expected_version events store.events
    ok (
      record store {
        runs = set_version run_id (expected_version + length events) store.runs;
        events = rows;
      },
      stored_from expected_version events,
    )

  abbrev pub append_locked :
      Tables P J
      → ℕ
      → ℕ
      → List (UncommittedEvent P)
      → Result (StoreError E) (Tables P J × List (EventRow P))
  append_locked store run_id expected_version events =
      append_found store run_id expected_version events (find_run run_id store.runs)

  -- `append`; an empty batch touches nothing
  unfoldable pub append :
      Tables P J
      → ℕ
      → ℕ
      → List (UncommittedEvent P)
      → Result (StoreError E) (Tables P J × List (EventRow P))
  append store run_id expected_version [] = ok (store, [])
  append store run_id expected_version (event ∷ events) =
      check_events run_id (event ∷ events)
      >> append_locked store run_id expected_version (event ∷ events)

  -- `create_run`; the parameter tells a RunCreated payload and gives its configuration's hash
  unfoldable pub create_found :
      Tables P J
      → UncommittedEvent P
      → Option ℕ
      → Result (StoreError E) (Tables P J × List (EventRow P))
  create_found store event none = err not_run_created
  create_found store event (some config_hash) = do
    raise_if (any (λ row. row.run_id == event.run_id) store.runs) integrity_error
    append_locked
        (record store {
          runs =
              store.runs
              ++ record { run_id = event.run_id; config_hash = config_hash; current_version = 0 }
                ∷ [];
        })
        event.run_id 0 (event ∷ [])

  unfoldable pub create_run :
      (P → Option ℕ)
      → Tables P J
      → UncommittedEvent P
      → Result (StoreError E) (Tables P J × List (EventRow P))
  create_run config_of store event = elim event.payload [
    | none ↦ err invalid_payload
    | some payload ↦ create_found store event (config_of payload)
  ]
