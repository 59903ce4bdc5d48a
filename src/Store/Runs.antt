-- ===== src/Store/Runs.antt =====
-- The store as a family of append-only logs, one for each run: `append`, `create_run` and `load` of
-- src/fre/adapters/storage_sqlite/store.py against that view.
use mathlib.Core.List.{append-nil}
use reasoning_engine.Prelude.{
  ℕ, ◌≡◌, refl, sym, subst, ap, ◌∙◌, some, List, [], ◌∷◌, ◌++◌, length, ◌==◌, ==→eq, if◌then◌else◌,
  All, Bool-cases, inl, inr, ok, guard-ok,
}
use reasoning_engine.Store.{
  UncommittedEvent, EventRow, RunRow, Tables, find_run, stored_from, check_events, append, load,
}
use reasoning_engine.Store.Log.{version_in, rows_of, IsConsistent, load-rows_of, check_events-All}
use reasoning_engine.Store.Append.{
  extended, rows_of-extended_own, rows_of-extended_other, extended-IsConsistent, append_found-ok,
}

module _ {P : Type 0} where
  -- the logs where one run's is extended
  abbrev pub extend_log : (ℕ → List (EventRow P)) → ℕ → List (EventRow P) → ℕ → List (EventRow P)
  extend_log logs run_id new other = if run_id == other then logs other ++ new else logs other

module _ {P J : Type 0} where
  -- The logs after a batch of one run.
  pub extended-extend_log :
      (store : Tables P J) (run_id n : ℕ) (events : List (UncommittedEvent P)) (other : ℕ)
      → All (λ (event : UncommittedEvent P). event.run_id ≡ run_id) events
      → rows_of other (extended store run_id n events)
        ≡ extend_log (λ r. rows_of r store) run_id (stored_from n events) other
  extended-extend_log store run_id n events other own = elim (Bool-cases (run_id == other)) [
    | inl same ↦ rw same (
        subst
          (λ r.
            rows_of r (extended store run_id n events) ≡ rows_of r store ++ stored_from n events)
          (==→eq run_id other same) (rows_of-extended_own store run_id n events own))
    | inr apart ↦ rw apart (rows_of-extended_other store run_id other n events own apart)
  ]

  load-extended :
      (store : Tables P J) (run_id n : ℕ) (events : List (UncommittedEvent P)) (other : ℕ)
      → All (λ (event : UncommittedEvent P). event.run_id ≡ run_id) events
      → IsConsistent store
      → IsConsistent (extended store run_id n events)
      → load (extended store run_id n events) other 0
        ≡ extend_log (λ r. load store r 0) run_id (stored_from n events) other
  load-extended store run_id n events other own before after =
      load-rows_of (extended store run_id n events) other after
      ∙ (extended-extend_log store run_id n events other own
          ∙ ap (λ rows. if run_id == other then rows ++ stored_from n events else rows)
              (sym (load-rows_of store other before)))

pub find_run-version_in :
    (run_id : ℕ) (runs : List RunRow) (row : RunRow)
    → find_run run_id runs ≡ some row
    → version_in run_id runs ≡ row.current_version
find_run-version_in run_id runs row h = rw (h, version_in) refl

module _ {P J E : Type 0} where
  -- What `append` has checked and done where it stores a batch that is not empty.
  pub append-ok :
      (store after : Tables P J) (run_id n : ℕ) (event : UncommittedEvent P)
      (events : List (UncommittedEvent P)) (stored : List (EventRow P))
      → append {E = E} store run_id n (event ∷ events) ≡ ok (after, stored)
      → All (λ (e : UncommittedEvent P). e.run_id ≡ run_id) (event ∷ events)
        × (row : RunRow) × (find_run run_id store.runs ≡ some row)
        × (row.current_version ≡ n)
        × ◌≡◌ {A = Tables P J × List (EventRow P)}
            (extended store run_id n (event ∷ events), stored_from n (event ∷ events))
            (after, stored)
  unfolding append
  append-ok store after run_id n event events stored h =
      let (checked, rest) = guard-ok (check_events {E = E} run_id (event ∷ events)) _ h in
      let (row, found, current, result) =
        append_found-ok {E = E} store run_id n (event ∷ events) (find_run run_id store.runs)
          (after, stored) rest in
      (check_events-All {E = E} run_id (event ∷ events) checked, row, found, current, result)

  -- A batch that `append` stores on a consistent store extends the log of its own run by the batch,
  -- numbered on from the expected version, leaves the log of every other run as it was, is what the
  -- call returns, and leaves the store consistent.
  pub append-refines_log :
      (store after : Tables P J) (run_id n : ℕ) (events : List (UncommittedEvent P))
      (stored : List (EventRow P))
      → IsConsistent store
      → append {E = E} store run_id n events ≡ ok (after, stored)
      → IsConsistent after
        × (stored ≡ stored_from n events)
        × ((other : ℕ) → load after other 0 ≡ extend_log (λ r. load store r 0) run_id stored other)
  unfolding append stored_from
  append-refines_log store after run_id n [] stored c h =
      let same : store ≡ after = cc h in
      let nothing : [] ≡ stored = cc h in
      (
        subst IsConsistent same c,
        sym nothing,
        λ other.
            subst
              (λ (s : List (EventRow P)).
                load after other 0 ≡ extend_log (λ r. load store r 0) run_id s other)
              nothing
              (subst
                (λ (s : Tables P J).
                  load s other 0 ≡ extend_log (λ r. load store r 0) run_id [] other)
                same (unchanged other)),
      )
    where
      unchanged :
          (other : ℕ) → load store other 0 ≡ extend_log (λ r. load store r 0) run_id [] other
      unchanged other = elim (Bool-cases (run_id == other)) [
        | inl e ↦ rw e (sym (append-nil (load store other 0)))
        | inr e ↦ rw e refl
      ]
  append-refines_log store after run_id n (event ∷ events) stored c h =
      let (own, row, found, current, result) =
        append-ok store after run_id n event events stored h in
      let count : length (rows_of run_id store) ≡ n =
        c.counted run_id ∙ (find_run-version_in run_id store.runs row found ∙ current) in
      let next : IsConsistent (extended store run_id n (event ∷ events)) =
        extended-IsConsistent store run_id n (event ∷ events) row own found count c.numbered
          (λ other apart. c.counted other) in
      subst
        (λ (r : Tables P J × List (EventRow P)).
          IsConsistent r.0
          × (r.1 ≡ stored_from n (event ∷ events))
          × ((other : ℕ) → load r.0 other 0 ≡ extend_log (λ r. load store r 0) run_id r.1 other))
        result (next, refl, λ other. load-extended store run_id n (event ∷ events) other own c next)

  -- A batch leaves the snapshots alone.
  pub append-snapshots :
      (store after : Tables P J) (run_id n : ℕ) (events : List (UncommittedEvent P))
      (stored : List (EventRow P))
      → append {E = E} store run_id n events ≡ ok (after, stored)
      → store.snapshots ≡ after.snapshots
  unfolding append
  append-snapshots store after run_id n [] stored h =
      let same : store ≡ after = cc h in ap (λ (s : Tables P J). s.snapshots) same
  append-snapshots store after run_id n (event ∷ events) stored h =
      let (own, row, found, current, result) =
        append-ok store after run_id n event events stored h in
      ap (λ (r : Tables P J × List (EventRow P)). r.0.snapshots) result
