-- ===== src/Engine/Snapshots.antt =====
-- Every snapshot is the state of a prefix of its run's log, whatever the calls of `append`,
-- `create_run` and `snapshot` of src/fre/engine.py.
use reasoning_engine.Prelude.{
  ℕ, sort_by, ◌+◌, ◌≤◌, ◌≡◌, refl, sym, subst, ap, ◌∙◌, length, take, take-append, take-all, In,
  In-keep, In-append, Option, some, List, [], ◌∷◌, ◌++◌, ◌==◌, if◌then◌else◌, Bool-cases, inl, inr,
  Result, ok, >>=-eq-ok, raise_if-ok, length-append, arith,
}
use reasoning_engine.Store.{integrity_error, UncommittedEvent, EventRow, SnapshotRow, Tables, load}
use reasoning_engine.Store.Numbered.{Numbered}
use reasoning_engine.Store.Log.{IsConsistent, load-rows_of}
use reasoning_engine.Store.Runs.{extend_log, append-refines_log, append-snapshots}
use reasoning_engine.Store.Creation.{create_run-starts_log, create_run-snapshots}
use reasoning_engine.Store.Fold.{Reducer, IsLawful, apply_all, reduce}
use reasoning_engine.Store.Snapshots.{
  Codec, snapshot_row, with_snapshot, save_snapshot, state_hash, raised_by as passed_on,
}
use reasoning_engine.Engine.{inspect, snapshot}
use reasoning_engine.Engine.Replays.{Replays, passed_on-ok, apply_all-run, apply_all-version}
use reasoning_engine.Engine.Runs.{
  IsReachable, start, created, appended, snapshotted, append-stored, append-Replays,
  create_run-Replays,
}

module _ {P S X J : Type 0} (reducer : Reducer P S X) (codec : Codec S J X) where
  -- The row holds the state of the log up to its number.
  abbrev pub IsSnapshot : Tables P J → SnapshotRow J → Type 0
  IsSnapshot store row =
      (s : S) × (reduce reducer row.run_id (take row.sequence (load store row.run_id 0)) ≡ ok s)
      × (snapshot_row reducer codec s codec.version ≡ row)
      × (row.sequence ≤ length (load store row.run_id 0))

  -- The invariant of a store that the engine fills.
  pub record IsSound (store : Tables P J) : Type 0 where
    pub replays : Replays reducer store
    pub snapshots : (row : SnapshotRow J) → In row store.snapshots → IsSnapshot store row

  -- Logs only grow, so a snapshot stays one.
  extend-IsSnapshot :
      (store after : Tables P J) (run_id : ℕ) (stored : List (EventRow P)) (row : SnapshotRow J)
      → ((other : ℕ) → load after other 0 ≡ extend_log (λ r. load store r 0) run_id stored other)
      → IsSnapshot store row
      → IsSnapshot after row
  extend-IsSnapshot store after run_id stored row logs (s, reduced, same, within) =
      let old = load store row.run_id 0 in
      elim (Bool-cases (run_id == row.run_id)) [
        | inl own ↦
            let grown : load after row.run_id 0 ≡ old ++ stored =
              logs row.run_id ∙ ap (λ b. if b then old ++ stored else old) own in
            (
              s,
              ap (λ l. reduce reducer row.run_id (take row.sequence l)) grown
                  ∙ (ap (reduce reducer row.run_id) (take-append row.sequence old stored within)
                      ∙ reduced),
              same,
              subst (λ l. row.sequence ≤ length l) (sym grown)
                  (omega (arith, length-append old stored, within)),
            )
        | inr apart ↦
            let kept : load after row.run_id 0 ≡ old =
              logs row.run_id ∙ ap (λ b. if b then old ++ stored else old) apart in
            (
              s,
              ap (λ l. reduce reducer row.run_id (take row.sequence l)) kept ∙ reduced,
              same,
              subst (λ l. row.sequence ≤ length l) (sym kept) within,
            )
      ]

  extend-snapshots :
      (store after : Tables P J) (run_id : ℕ) (stored : List (EventRow P))
      → store.snapshots ≡ after.snapshots
      → ((other : ℕ) → load after other 0 ≡ extend_log (λ r. load store r 0) run_id stored other)
      → IsSound store
      → (row : SnapshotRow J) → In row after.snapshots
      → IsSnapshot after row
  extend-snapshots store after run_id stored same logs sound row m =
      extend-IsSnapshot store after run_id stored row logs
        (sound.snapshots row (subst (λ rows. In row rows) (sym same) m))

module _ {P S X J : Type 0} (reducer : Reducer P S X) (lawful : IsLawful reducer)
    (codec : Codec S J X) where
  -- A new snapshot is the state of the whole log.
  snapshot_row-IsSnapshot :
      (store : Tables P J) (run_id : ℕ) (s : S)
      → IsConsistent store
      → inspect reducer store run_id ≡ ok s
      → IsSnapshot reducer codec store (snapshot_row reducer codec s codec.version)
  snapshot_row-IsSnapshot store run_id s c seen =
      let log = load store run_id 0 in
      let own : run_id ≡ reducer.run_of s = sym (
        apply_all-run reducer lawful (reducer.initial run_id) s log seen
        ∙ lawful.initial_run run_id) in
      let whole : reducer.version_of s ≡ length log =
        apply_all-version reducer lawful 0 (reducer.initial run_id) s log
          (lawful.initial_version run_id)
          (subst (Numbered 0) (sym (load-rows_of store run_id c)) (c.numbered run_id)) seen
        ∙ (let zero_add : 0 + length log ≡ length log = omega arith in zero_add) in
      let replayed : reduce reducer run_id (take (reducer.version_of s) log) ≡ ok s =
        ap (λ k. reduce reducer run_id (take k log)) whole
        ∙ (ap (reduce reducer run_id) (take-all log) ∙ seen) in
      (
        s,
        subst (λ r. reduce reducer r (take (reducer.version_of s) (load store r 0)) ≡ ok s) own
            replayed,
        refl,
        subst (λ r. reducer.version_of s ≤ length (load store r 0)) own (omega (arith, whole)),
      )

  snapshot-IsSound :
      (store after : Tables P J) (run_id hash : ℕ)
      → IsSound reducer codec store
      → snapshot reducer codec store run_id ≡ ok (after, hash)
      → IsSound reducer codec after
  unfolding snapshot save_snapshot load
  snapshot-IsSound store after run_id hash sound h =
      let (s, seen, saved) = >>=-eq-ok (passed_on (inspect reducer store run_id)) _ h in
      let replayed : inspect reducer store run_id ≡ ok s =
        passed_on-ok (inspect reducer store run_id) seen in
      let new : Tables P J = with_snapshot reducer codec store s codec.version in
      let (known, made) = raise_if-ok _ integrity_error (ok (new, state_hash codec s)) saved in
      let same : new ≡ after = cc made in
      let c = sound.replays.consistent in
      subst (IsSound reducer codec) same (record {
        replays = record {
          consistent = record { numbered = c.numbered; counted = c.counted };
          state = sound.replays.state;
        };
        snapshots = λ row m.
            elim (In-append row _ (snapshot_row reducer codec s codec.version ∷ []) m) [
              | inl old ↦ sound.snapshots row (In-keep _ row store.snapshots old).0
              | inr (inl e) ↦
                  subst (IsSnapshot reducer codec new) (sym e)
                    (snapshot_row-IsSnapshot store run_id s c replayed)
              | inr (inr n) ↦ absurd n
            ];
      })

  module _ (admit : List (EventRow P) → Result X (Unit {0})) (config_of : P → Option ℕ)
      (begins : (event : UncommittedEvent P) (payload : P) (config_hash : ℕ)
        → event.payload ≡ some payload
        → config_of payload ≡ some config_hash
        → (s : S) × (reducer.apply
              (reducer.initial event.run_id)
              (record { event = event; sequence = 1 })
            ≡ ok s)) where
    -- In a store that calls of the engine lead to, by a reducer that accepts the first event of every
    -- run, the rows of each run are numbered from 1 to the version in its row, every log replays, and
    -- every snapshot is the state that the log up to the snapshot's number replays to.
    pub IsReachable-IsSound :
        (store : Tables P J)
        → IsReachable reducer admit config_of codec store
        → IsSound reducer codec store
    unfolding load apply_all sort_by
    IsReachable-IsSound store start = record {
      replays = record {
        consistent = record { numbered = λ r. tt; counted = λ r. refl };
        state = λ r. (reducer.initial r, refl);
      };
      snapshots = λ row m. absurd m;
    }
    IsReachable-IsSound after (created store _ event stored from h) =
        let sound = IsReachable-IsSound store from in
        let (next, fresh, nothing, batch, logs) =
          create_run-starts_log {E = X} config_of store after event stored sound.replays.consistent
            h in
        record {
          replays =
              create_run-Replays reducer lawful config_of begins store after event stored
                sound.replays h;
          snapshots =
              extend-snapshots reducer codec store after event.run_id stored
                (create_run-snapshots config_of store after event stored h) logs sound;
        }
    IsReachable-IsSound after (appended store _ run_id n events stored from h) =
        let sound = IsReachable-IsSound store from in
        let saved = append-stored reducer admit store run_id n events (after, stored) h in
        let (next, batch, logs) =
          append-refines_log store after run_id n events stored sound.replays.consistent saved in
        record {
          replays =
              append-Replays reducer lawful admit store after run_id n events stored sound.replays
                h;
          snapshots =
              extend-snapshots reducer codec store after run_id stored
                (append-snapshots store after run_id n events stored saved) logs sound;
        }
    IsReachable-IsSound after (snapshotted store _ run_id hash from h) =
        snapshot-IsSound store after run_id hash (IsReachable-IsSound store from) h
