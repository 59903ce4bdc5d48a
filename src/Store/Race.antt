-- ===== src/Store/Race.antt =====
-- Two writers that read the same version of a run, in `append` of
-- src/fre/adapters/storage_sqlite/store.py.
use reasoning_engine.Prelude.{
  ℕ, suc, ◌+◌, ◌≡◌, refl, subst, ap, false, some, List, [], ◌∷◌, length, ◌==◌, Bool-cases, inl, inr,
  ok, err, arith,
}
use reasoning_engine.Store.{
  UncommittedEvent, EventRow, RunRow, Tables, concurrent_append, find_run, set_version,
  check_events, append_found, append,
}
use reasoning_engine.Store.Append.{extended}
use reasoning_engine.Store.Runs.{append-ok}

find_run-set_own :
    (run_id version : ℕ) (runs : List RunRow) (row : RunRow)
    → find_run run_id runs ≡ some row
    → find_run run_id (set_version run_id version runs)
      ≡ some (record row { current_version = version })
unfolding set_version
find_run-set_own run_id version [] row h = cc h
find_run-set_own run_id version (r ∷ runs) row h = elim (Bool-cases (r.run_id == run_id)) [
  | inl e ↦
      let same : r ≡ row = ground (arith, h, e) in
      rw e (rw e (ap (λ (x : RunRow). some (record x { current_version = version })) same))
  | inr e ↦ rw e (rw e (find_run-set_own run_id version runs row (ground (arith, h, e))))
]

module _ {P J E : Type 0} where
  -- A batch for a version that the run is not at is refused, once its events pass their checks.
  pub append-stale :
      (store : Tables P J) (run_id n : ℕ) (event : UncommittedEvent P)
      (events : List (UncommittedEvent P)) (row : RunRow)
      → find_run run_id store.runs ≡ some row
      → (row.current_version == n) ≡ false
      → check_events {E = E} run_id (event ∷ events) ≡ ok tt
      → append {E = E} store run_id n (event ∷ events) ≡ err concurrent_append
  unfolding append append_found
  append-stale store run_id n event events row found stale checked =
      rw checked (rw found (rw stale refl))

  -- Once one of two writers that read the same version of a run has stored a batch that is not
  -- empty, the other's batch for that version is refused with ConcurrentAppendError, if it is not
  -- empty and its events are all valid and of the run.
  pub append-loses_race :
      (store after : Tables P J) (run_id n : ℕ) (event other : UncommittedEvent P)
      (events others : List (UncommittedEvent P)) (stored : List (EventRow P))
      → append {E = E} store run_id n (event ∷ events) ≡ ok (after, stored)
      → check_events {E = E} run_id (other ∷ others) ≡ ok tt
      → append {E = E} after run_id n (other ∷ others) ≡ err concurrent_append
  append-loses_race store after run_id n event other events others stored h checked =
      let (own, row, found, current, result) =
        append-ok {E = E} store after run_id n event events stored h in
      let moved : (n + suc (length events) == n) ≡ false = ground arith in
      subst (λ (s : Tables P J). append {E = E} s run_id n (other ∷ others) ≡ err concurrent_append)
        (ap (λ (r : Tables P J × List (EventRow P)). r.0) result)
        (append-stale (extended store run_id n (event ∷ events)) run_id n other others
          (record row { current_version = n + length (event ∷ events) })
          (find_run-set_own run_id (n + length (event ∷ events)) store.runs row found) moved
          checked)
