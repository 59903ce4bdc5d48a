-- ===== src/Store/Creation.antt =====
-- `create_run` of src/fre/adapters/storage_sqlite/store.py: the first row of a log.
use reasoning_engine.Prelude.{
  ℕ, ◌≡◌, refl, sym, subst, ap, ◌∙◌, false, Option, none, some, List, [], ◌∷◌, ◌++◌, any, length,
  ◌==◌, if◌then◌else◌, All, Bool-cases, Option-cases, inl, inr, Result, ok, err, raise_if-ok, arith,
}
use reasoning_engine.Store.{
  UncommittedEvent, EventRow, RunRow, Tables, StoreError, integrity_error, invalid_payload,
  find_run, stored_from, create_found, create_run, load,
}
use reasoning_engine.Store.Log.{version_in, rows_of, IsConsistent, load-rows_of}
use reasoning_engine.Store.Append.{extended, extended-IsConsistent, append_found-ok}
use reasoning_engine.Store.Runs.{extend_log, extended-extend_log}

length_zero : {A : Type 0} (xs : List A) → length xs ≡ 0 → xs ≡ []
length_zero [] h = refl
length_zero (x ∷ xs) h = absurd (omega (arith, h))

any-version_in :
    (run_id : ℕ) (runs : List RunRow)
    → any (λ row. row.run_id == run_id) runs ≡ false
    → version_in run_id runs ≡ 0
any-version_in run_id [] h = refl
any-version_in run_id (row ∷ runs) h =
    let apart : (row.run_id == run_id) ≡ false = ground (arith, h) in
    rw (apart, version_in) (any-version_in run_id runs (ground (arith, h, apart)))

version_in-added :
    (other : ℕ) (runs : List RunRow) (row : RunRow)
    → (row.run_id == other) ≡ false
    → version_in other (runs ++ row ∷ []) ≡ version_in other runs
version_in-added other [] row h = rw (h, version_in) refl
version_in-added other (r ∷ runs) row h = elim (Bool-cases (r.run_id == other)) [
  | inl e ↦ rw (e, version_in) refl
  | inr e ↦ rw (e, version_in) (version_in-added other runs row h)
]

module _ {P J : Type 0} where
  -- the tables once the row of `runs` is in
  abbrev with_run : Tables P J → ℕ → ℕ → Tables P J
  with_run store run_id config_hash = record store {
    runs =
        store.runs
        ++ record { run_id = run_id; config_hash = config_hash; current_version = 0 } ∷ [];
  }

  extended-logs :
      (store : Tables P J) (config_hash : ℕ) (event : UncommittedEvent P)
      → IsConsistent store
      → IsConsistent
          (extended (with_run store event.run_id config_hash) event.run_id 0 (event ∷ []))
      → (other : ℕ)
      → load
          (extended (with_run store event.run_id config_hash) event.run_id 0 (event ∷ []))
          other
          0
        ≡ extend_log (λ r. load store r 0) event.run_id (stored_from 0 (event ∷ [])) other
  extended-logs store config_hash event c next other =
      load-rows_of _ other next
      ∙ (extended-extend_log (with_run store event.run_id config_hash) event.run_id 0 (event ∷ [])
            other (refl, tt)
          ∙ ap (λ rows. if event.run_id == other then rows ++ stored_from 0 (event ∷ []) else rows)
              (sym (load-rows_of store other c)))

module _ {P J E : Type 0} where
  create_found-ok :
      (store after : Tables P J) (event : UncommittedEvent P) (config : Option ℕ)
      (stored : List (EventRow P))
      → create_found {E = E} store event config ≡ ok (after, stored)
      → (config_hash : ℕ) × (row : RunRow) × (any (λ row. row.run_id == event.run_id) store.runs
          ≡ false)
        × (find_run event.run_id (with_run store event.run_id config_hash).runs ≡ some row)
        × ◌≡◌ {A = Tables P J × List (EventRow P)}
            (
              extended (with_run store event.run_id config_hash) event.run_id 0 (event ∷ []),
              stored_from 0 (event ∷ []),
            )
            (after, stored)
  unfolding create_found
  create_found-ok store after event none stored h = absurd (cc h)
  create_found-ok store after event (some config_hash) stored h =
      let (fresh, rest) = raise_if-ok _ integrity_error _ h in
      let (row, found, current, result) =
        append_found-ok {E = E} (with_run store event.run_id config_hash) event.run_id 0
          (event ∷ []) (find_run event.run_id (with_run store event.run_id config_hash).runs)
          (after, stored) rest in
      (config_hash, row, fresh, found, result)

  create_run-config :
      (config_of : P → Option ℕ) (store : Tables P J) (event : UncommittedEvent P)
      (result : Tables P J × List (EventRow P))
      → create_run {E = E} config_of store event ≡ ok result
      → (config : Option ℕ) × (create_found {E = E} store event config ≡ ok result)
  unfolding create_run
  create_run-config config_of store event result h = go event.payload h
    where
      go :
          (payload : Option P)
          → ◌≡◌ {A = Result (StoreError E) (Tables P J × List (EventRow P))}
              (elim payload [
                | none ↦ err invalid_payload
                | some payload ↦ create_found store event (config_of payload)
              ])
              (ok result)
          → (config : Option ℕ) × (create_found {E = E} store event config ≡ ok result)
      go none k = absurd (cc k)
      go (some payload) k = (config_of payload, k)

  -- The event of a run that was made is a RunCreated.
  pub create_run-payload :
      (config_of : P → Option ℕ) (store : Tables P J) (event : UncommittedEvent P)
      (result : Tables P J × List (EventRow P))
      → create_run {E = E} config_of store event ≡ ok result
      → (payload : P) × (config_hash : ℕ) × (event.payload ≡ some payload)
        × (config_of payload ≡ some config_hash)
  unfolding create_run create_found
  create_run-payload config_of store event result h = go event.payload refl h
    where
      go :
          (payload : Option P)
          → event.payload ≡ payload
          → ◌≡◌ {A = Result (StoreError E) (Tables P J × List (EventRow P))}
              (elim payload [
                | none ↦ err invalid_payload
                | some payload ↦ create_found store event (config_of payload)
              ])
              (ok result)
          → (payload : P) × (config_hash : ℕ) × (event.payload ≡ some payload)
            × (config_of payload ≡ some config_hash)
      go none e k = absurd (cc k)
      go (some payload) e k = elim (Option-cases (config_of payload)) [
        | inl missing ↦ absurd (ground (arith, k, missing))
        | inr (config_hash, found) ↦ (payload, config_hash, e, found)
      ]

  -- A run that `create_run` makes on a consistent store was not there and had no log; its log is then the one
  -- event that the call returns, with the number 1; the logs of the other runs are as they were, and
  -- the store stays consistent.
  pub create_run-starts_log :
      (config_of : P → Option ℕ) (store after : Tables P J) (event : UncommittedEvent P)
      (stored : List (EventRow P))
      → IsConsistent store
      → create_run {E = E} config_of store event ≡ ok (after, stored)
      → IsConsistent after
        × (any (λ row. row.run_id == event.run_id) store.runs ≡ false)
        × (load store event.run_id 0 ≡ [])
        × (stored ≡ record { event = event; sequence = 1 } ∷ [])
        × ((other : ℕ)
            → load after other 0 ≡ extend_log (λ r. load store r 0) event.run_id stored other)
  unfolding stored_from
  create_run-starts_log config_of store after event stored c h =
      let (config, created) = create_run-config config_of store event (after, stored) h in
      let (config_hash, row, fresh, found, result) =
        create_found-ok store after event config stored created in
      let begun = with_run store event.run_id config_hash in
      let own : All (λ (e : UncommittedEvent P). e.run_id ≡ event.run_id) (event ∷ []) =
        (refl, tt) in
      let empty : length (rows_of event.run_id store) ≡ 0 =
        c.counted event.run_id ∙ any-version_in event.run_id store.runs fresh in
      let others : (other : ℕ)
          → (event.run_id == other) ≡ false
          → length (rows_of other begun) ≡ version_in other begun.runs =
        (λ other apart.
          c.counted other
          ∙ sym (
              version_in-added other store.runs
                (record { run_id = event.run_id; config_hash = config_hash; current_version = 0 })
                apart)) in
      let next : IsConsistent (extended begun event.run_id 0 (event ∷ [])) =
        extended-IsConsistent begun event.run_id 0 (event ∷ []) row own found empty c.numbered
          others in
      let nothing : load store event.run_id 0 ≡ [] =
        load-rows_of store event.run_id c ∙ length_zero (rows_of event.run_id store) empty in
      subst
        (λ (r : Tables P J × List (EventRow P)).
          IsConsistent r.0
          × (any (λ row. row.run_id == event.run_id) store.runs ≡ false)
          × (load store event.run_id 0 ≡ [])
          × (r.1 ≡ record { event = event; sequence = 1 } ∷ [])
          × ((other : ℕ)
              → load r.0 other 0 ≡ extend_log (λ r. load store r 0) event.run_id r.1 other))
        result
        (next, fresh, nothing, refl, λ other. extended-logs store config_hash event c next other)

  pub create_run-snapshots :
      (config_of : P → Option ℕ) (store after : Tables P J) (event : UncommittedEvent P)
      (stored : List (EventRow P))
      → create_run {E = E} config_of store event ≡ ok (after, stored)
      → store.snapshots ≡ after.snapshots
  create_run-snapshots config_of store after event stored h =
      let (config, created) = create_run-config config_of store event (after, stored) h in
      let (config_hash, row, fresh, found, result) =
        create_found-ok store after event config stored created in
      ap (λ (r : Tables P J × List (EventRow P)). r.0.snapshots) result
