-- ===== src/Store/Log.antt =====
-- The log of each run: what `load` of src/fre/adapters/storage_sqlite/store.py returns, under
-- `append` and `create_run`.
use mathlib.Core.List.{append-nil}
use reasoning_engine.Prelude.{
  ℕ, suc, ◌+◌, ◌≡◌, refl, sym, subst, ap, ◌∙◌, true, false, none, some, List, [], ◌∷◌, ◌++◌, ◌&&◌,
  keep, length, drop, ltb, ◌==◌, All, sort_by_of_IsSorted, Bool-cases, inl, inr, ok, >>=-eq-ok,
  append-cons, keep-keep, arith,
}
use reasoning_engine.Store.{
  UncommittedEvent, EventRow, RunRow, Tables, seq_le, is_of, find_run, set_version, insert_event,
  insert_all, stored_from, check_events, load,
}
use reasoning_engine.Store.Numbered.{
  Numbered, Numbered-IsSorted, Numbered-drop, keep-above-drop, seq_le_total, seq_le_trans,
}

abbrev pub version_in : ℕ → List RunRow → ℕ
version_in run_id runs = elim (find_run run_id runs) [ none ↦ 0 | some row ↦ row.current_version ]

module _ {P J : Type 0} where
  -- the rows of a run, in the order of insertion
  abbrev pub rows_of : ℕ → Tables P J → List (EventRow P)
  rows_of run_id store = keep (is_of run_id) store.events

  -- The rows of every run are numbered from 1 to its current version, and an unknown run has none.
  pub record IsConsistent (store : Tables P J) : Type 0 where
    pub numbered : (run_id : ℕ) → Numbered 0 (rows_of run_id store)
    pub counted : (run_id : ℕ) → length (rows_of run_id store) ≡ version_in run_id store.runs

  -- A log after a version is what is left of the run's rows.
  pub load-drop :
      (store : Tables P J) (run_id k : ℕ)
      → IsConsistent store
      → load store run_id k ≡ drop k (rows_of run_id store)
  unfolding load
  load-drop store run_id k c =
      let rows = rows_of run_id store in
      let above : keep (λ row. ltb k row.sequence) rows ≡ drop k rows =
        subst (λ n. keep (λ (row : EventRow P). ltb n row.sequence) rows ≡ drop k rows)
          (let zero_add : 0 + k ≡ k = omega arith in zero_add)
          (keep-above-drop 0 k rows (c.numbered run_id)) in
      let split : keep (λ row. is_of run_id row && ltb k row.sequence) store.events ≡ drop k rows =
        keep-keep (is_of run_id) (λ row. ltb k row.sequence) store.events ∙ above in
      rw split (
        sort_by_of_IsSorted seq_le seq_le_total seq_le_trans (drop k rows)
          (Numbered-IsSorted (0 + k) (drop k rows) (Numbered-drop 0 k rows (c.numbered run_id))))

  pub load-rows_of :
      (store : Tables P J) (run_id : ℕ)
      → IsConsistent store
      → load store run_id 0 ≡ rows_of run_id store
  load-rows_of store run_id c = load-drop store run_id 0 c

module _ {P E : Type 0} where
  insert_event-append :
      (row : EventRow P) (rows more : List (EventRow P))
      → insert_event {E = E} row rows ≡ ok more
      → rows ++ row ∷ [] ≡ more
  unfolding insert_event
  insert_event-append row rows more h = ground (arith, h)

  -- What a batch that is inserted adds to the table.
  pub insert_all-append :
      (n : ℕ) (events : List (UncommittedEvent P)) (rows more : List (EventRow P))
      → insert_all {E = E} n events rows ≡ ok more
      → rows ++ stored_from n events ≡ more
  unfolding insert_all stored_from
  insert_all-append n [] rows more h =
      let same : rows ≡ more = ground (arith, h) in append-nil rows ∙ same
  insert_all-append n (event ∷ events) rows more h =
      let row : EventRow P = record { event = event; sequence = suc n } in
      let (next, first, rest) =
        >>=-eq-ok (insert_event {E = E} row rows) (λ next. insert_all (suc n) events next) h in
      sym (append-cons rows (stored_from (suc n) events) row)
      ∙ (ap (λ l. l ++ stored_from (suc n) events) (insert_event-append row rows next first)
          ∙ insert_all-append (suc n) events next more rest)

  pub check_events-All :
      (run_id : ℕ) (events : List (UncommittedEvent P))
      → check_events {E = E} run_id events ≡ ok tt
      → All (λ (event : UncommittedEvent P). event.run_id ≡ run_id) events
  unfolding check_events
  check_events-All run_id [] h = tt
  check_events-All run_id (event ∷ events) h =
      (ground (arith, h), check_events-All run_id events (ground (arith, h)))

module _ {P : Type 0} where
  -- The rows of a batch of one run are all of that run,
  pub keep-stored_from_own :
      (run_id n : ℕ) (events : List (UncommittedEvent P))
      → All (λ (event : UncommittedEvent P). event.run_id ≡ run_id) events
      → keep (is_of run_id) (stored_from n events) ≡ stored_from n events
  unfolding stored_from
  keep-stored_from_own run_id n [] h = refl
  keep-stored_from_own run_id n (event ∷ events) h =
      let own : (event.run_id == run_id) ≡ true =
        (let same : event.run_id ≡ run_id = h.0 in ground arith) in
      rw (own, keep-stored_from_own run_id (suc n) events h.1)

  -- and none of another.
  pub keep-stored_from_other :
      (run_id other n : ℕ) (events : List (UncommittedEvent P))
      → All (λ (event : UncommittedEvent P). event.run_id ≡ run_id) events
      → (run_id == other) ≡ false
      → keep (is_of other) (stored_from n events) ≡ []
  unfolding stored_from
  keep-stored_from_other run_id other n [] h e = refl
  keep-stored_from_other run_id other n (event ∷ events) h e =
      let apart : (event.run_id == other) ≡ false =
        (let same : event.run_id ≡ run_id = h.0 in ground arith) in
      rw (apart, keep-stored_from_other run_id other (suc n) events h.1 e)

  pub length-stored_from :
      (n : ℕ) (events : List (UncommittedEvent P)) → length (stored_from n events) ≡ length events
  unfolding stored_from
  length-stored_from n [] = refl
  length-stored_from n (event ∷ events) = omega (arith, length-stored_from (suc n) events)

pub version_in-set_own :
    (run_id version : ℕ) (runs : List RunRow) (row : RunRow)
    → find_run run_id runs ≡ some row
    → version_in run_id (set_version run_id version runs) ≡ version
unfolding set_version
version_in-set_own run_id version [] row h = cc h
version_in-set_own run_id version (r ∷ runs) row h = elim (Bool-cases (r.run_id == run_id)) [
  | inl e ↦ rw e (rw (e, version_in) refl)
  | inr e ↦
      rw e (rw (e, version_in) (version_in-set_own run_id version runs row (ground (arith, h, e))))
]

pub version_in-set_other :
    (run_id other version : ℕ) (runs : List RunRow)
    → (run_id == other) ≡ false
    → version_in other (set_version run_id version runs) ≡ version_in other runs
unfolding set_version
version_in-set_other run_id other version [] e = refl
version_in-set_other run_id other version (r ∷ runs) e = elim (Bool-cases (r.run_id == run_id)) [
  | inl q ↦
      let apart : (r.run_id == other) ≡ false = ground (arith, q, e) in
      rw q (rw (apart, version_in) (version_in-set_other run_id other version runs e))
  | inr q ↦ elim (Bool-cases (r.run_id == other)) [
    | inl same ↦ rw q (rw (same, version_in) refl)
    | inr apart ↦ rw q (rw (apart, version_in) (version_in-set_other run_id other version runs e))
  ]
]
