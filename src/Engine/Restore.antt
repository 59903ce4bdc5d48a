-- ===== src/Engine/Restore.antt =====
-- `verify` and `replay_from_snapshot` of src/fre/engine.py, on a store that the engine filled.
use reasoning_engine.Prelude.{
  ℕ, ◌+◌, ◌≡◌, refl, sym, subst, ap, ◌∙◌, true, keep, leb, take, drop, take-drop, In, In-keep,
  In-sort_by, some, List, [], ◌∷◌, ◌==◌, ==→eq, ==-refl, sort_by, inl, Result, ok, ◌>>=◌, arith,
}
use reasoning_engine.Store.{EventRow, SnapshotRow, Tables, load}
use reasoning_engine.Store.Numbered.{Numbered, keep-below-take}
use reasoning_engine.Store.Log.{IsConsistent, load-rows_of, load-drop}
use reasoning_engine.Store.Fold.{Reducer, apply_all, reduce, apply_all-append}
use reasoning_engine.Store.Snapshots.{
  Codec, first, latest_snapshot, newest_first, snapshot_row, state_hash, verify_found,
  verify_snapshot, load_found, load_snapshot, replay_from_snapshot, raised_by,
}
use reasoning_engine.Engine.{inspect}
use reasoning_engine.Engine.Snapshots.{IsSound}

first-In : {A : Type 0} (a : A) (xs : List A) → first xs ≡ some a → In a xs
first-In a [] h = absurd (cc h)
first-In a (x ∷ xs) h = inl (cc h)

module _ {P J : Type 0} where
  latest_snapshot-In :
      (store : Tables P J) (run_id : ℕ) (row : SnapshotRow J)
      → latest_snapshot store run_id ≡ some row
      → In row store.snapshots × (row.run_id ≡ run_id)
  latest_snapshot-In store run_id row h =
      let of_run = keep (λ (r : SnapshotRow J). r.run_id == run_id) store.snapshots in
      let found : In row of_run =
        In-sort_by newest_first row of_run (first-In row (sort_by newest_first of_run) h) in
      let (m, own) =
        In-keep (λ (r : SnapshotRow J). r.run_id == run_id) row store.snapshots found in
      (m, ==→eq row.run_id run_id own)

module _ {P S X J : Type 0} (reducer : Reducer P S X) (codec : Codec S J X) where
  -- A row that holds a state passes the checks.
  verify_found-snapshot_row :
      (store : Tables P J) (run_id : ℕ) (s : S)
      → codec.accepts_snapshot_version codec.version ≡ true
      → reduce reducer run_id
          (keep (λ event. leb event.sequence (reducer.version_of s)) (load store run_id 0))
        ≡ ok s
      → verify_found reducer codec store run_id (some (snapshot_row reducer codec s codec.version))
        ≡ ok s
  unfolding verify_found
  verify_found-snapshot_row store run_id s accepted reduced = rw accepted (
      rw (==-refl (state_hash codec s))
        (rw reduced (rw (==-refl (reducer.version_of s)) (rw (==-refl (state_hash codec s)) refl))))

  load_found-snapshot_row :
      (run_id : ℕ) (s : S)
      → codec.accepts_snapshot_version codec.version ≡ true
      → reducer.run_of s ≡ run_id
      → codec.model_validate (codec.snapshot_payload s) ≡ ok s
      → load_found reducer codec run_id (some (snapshot_row reducer codec s codec.version)) ≡ ok s
  unfolding load_found
  load_found-snapshot_row run_id s accepted own restored = rw accepted (
      rw (==-refl (state_hash codec s)) (
        rw restored (
          rw own (
            rw (==-refl run_id)
              (rw (==-refl (reducer.version_of s)) (rw (==-refl (state_hash codec s)) refl))))))

  prefix-take :
      (store : Tables P J) (run_id k : ℕ)
      → IsConsistent store
      → keep (λ event. leb event.sequence k) (load store run_id 0) ≡ take k (load store run_id 0)
  prefix-take store run_id k c =
      let zero_add : 0 + k ≡ k = omega arith in
      subst
        (λ n.
          keep (λ (event : EventRow P). leb event.sequence n) (load store run_id 0)
          ≡ take k (load store run_id 0))
        zero_add
        (keep-below-take 0 k (load store run_id 0)
          (subst (Numbered 0) (sym (load-rows_of store run_id c)) (c.numbered run_id)))

  -- On a sound store the latest snapshot of a run verifies, and the state that comes out is the one
  -- that the log up to the snapshot's number replays to, if the reducer accepts its own version.
  verify_snapshot-replays :
      (store : Tables P J) (run_id : ℕ) (row : SnapshotRow J)
      → IsSound reducer codec store
      → codec.accepts_snapshot_version codec.version ≡ true
      → latest_snapshot store run_id ≡ some row
      → (s : S) × (reduce reducer run_id (take row.sequence (load store run_id 0)) ≡ ok s)
        × (verify_snapshot reducer codec store run_id ≡ ok s)
  verify_snapshot-replays store run_id row sound accepted latest =
      let (m, own) = latest_snapshot-In store run_id row latest in
      let (s, reduced, same, within) = sound.snapshots row m in
      let replayed : reduce reducer run_id (take row.sequence (load store run_id 0)) ≡ ok s =
        subst (λ r. reduce reducer r (take row.sequence (load store r 0)) ≡ ok s) own reduced in
      let version : reducer.version_of s ≡ row.sequence =
        ap (λ (r : SnapshotRow J). r.sequence) same in
      let prefix : keep (λ event. leb event.sequence (reducer.version_of s)) (load store run_id 0)
          ≡ take row.sequence (load store run_id 0) =
        prefix-take store run_id (reducer.version_of s) sound.replays.consistent
        ∙ ap (λ k. take k (load store run_id 0)) version in
      (
        s,
        replayed,
        ap (verify_found reducer codec store run_id) (latest ∙ ap some (sym same))
            ∙ verify_found-snapshot_row store run_id s accepted
                (ap (reduce reducer run_id) prefix ∙ replayed),
      )

  -- On a sound store, replay from the latest snapshot is replay from the first event, if the reducer
  -- accepts its own version and `model_validate` restores the snapshot: it decodes the row's JSON to
  -- the state that the log up to the row's number replays to.
  pub replay_from_snapshot-inspect :
      (store : Tables P J) (run_id : ℕ) (row : SnapshotRow J)
      → IsSound reducer codec store
      → codec.accepts_snapshot_version codec.version ≡ true
      → latest_snapshot store run_id ≡ some row
      → ((s : S)
          → reduce reducer run_id (take row.sequence (load store run_id 0)) ≡ ok s
          → codec.model_validate row.state_json ≡ ok s)
      → replay_from_snapshot reducer codec store run_id ≡ raised_by (inspect reducer store run_id)
  replay_from_snapshot-inspect store run_id row sound accepted latest restores =
      let (m, own) = latest_snapshot-In store run_id row latest in
      let (s, reduced, same, within) = sound.snapshots row m in
      let log = load store run_id 0 in
      let c = sound.replays.consistent in
      let replayed : reduce reducer run_id (take row.sequence log) ≡ ok s =
        subst (λ r. reduce reducer r (take row.sequence (load store r 0)) ≡ ok s) own reduced in
      let run : reducer.run_of s ≡ run_id = ap (λ (r : SnapshotRow J). r.run_id) same ∙ own in
      let json : codec.snapshot_payload s ≡ row.state_json =
        ap (λ (r : SnapshotRow J). r.state_json) same in
      let version : reducer.version_of s ≡ row.sequence =
        ap (λ (r : SnapshotRow J). r.sequence) same in
      let loaded : load_snapshot reducer codec store run_id ≡ ok s =
        ap (load_found reducer codec run_id) (latest ∙ ap some (sym same))
        ∙ load_found-snapshot_row run_id s accepted run
            (ap codec.model_validate json ∙ restores s replayed) in
      let rest : load store run_id (reducer.version_of s) ≡ drop row.sequence log =
        ap (load store run_id) version
        ∙ (load-drop store run_id row.sequence c
            ∙ ap (drop row.sequence) (sym (load-rows_of store run_id c))) in
      let whole : inspect reducer store run_id ≡ apply_all reducer s (drop row.sequence log) =
        ap (reduce reducer run_id) (sym (take-drop row.sequence log))
        ∙ (apply_all-append reducer (reducer.initial run_id) (take row.sequence log)
              (drop row.sequence log)
            ∙ ap (λ (r : Result X S). r >>= λ t. apply_all reducer t (drop row.sequence log))
                replayed) in
      rw loaded (ap (λ rows. raised_by (apply_all reducer s rows)) rest ∙ ap raised_by (sym whole))
