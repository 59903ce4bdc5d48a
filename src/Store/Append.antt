-- ===== src/Store/Append.antt =====
-- `append` and `_append_locked` of src/fre/adapters/storage_sqlite/store.py: what a batch that they
-- store does to the log of each run.
use mathlib.Core.List.{append-nil}
use reasoning_engine.Prelude.{
  ℕ, ◌+◌, ◌≡◌, refl, sym, subst, ap, ◌∙◌, false, not, Option, none, some, List, ◌++◌, length, ◌==◌,
  ==→eq, All, Bool-cases, inl, inr, ok, >>=-eq-ok, raise_if-ok, keep-append, length-append, arith,
}
use reasoning_engine.Store.{
  UncommittedEvent, EventRow, RunRow, Tables, concurrent_append, is_of, find_run, set_version,
  insert_all, stored_from, append_found,
}
use reasoning_engine.Store.Numbered.{Numbered, Numbered-append, Numbered-stored_from}
use reasoning_engine.Store.Log.{
  version_in, rows_of, IsConsistent, insert_all-append, keep-stored_from_own,
  keep-stored_from_other, length-stored_from, version_in-set_own, version_in-set_other,
}

module _ {P J : Type 0} where
  -- the tables after a batch
  abbrev pub extended : Tables P J → ℕ → ℕ → List (UncommittedEvent P) → Tables P J
  extended store run_id version events = record store {
    runs = set_version run_id (version + length events) store.runs;
    events = store.events ++ stored_from version events;
  }

  -- The rows that a batch adds to its run, and to the others.
  pub rows_of-extended_own :
      (store : Tables P J) (run_id n : ℕ) (events : List (UncommittedEvent P))
      → All (λ (event : UncommittedEvent P). event.run_id ≡ run_id) events
      → rows_of run_id (extended store run_id n events)
        ≡ rows_of run_id store ++ stored_from n events
  rows_of-extended_own store run_id n events own =
      keep-append (is_of run_id) store.events (stored_from n events)
      ∙ ap (λ l. rows_of run_id store ++ l) (keep-stored_from_own run_id n events own)

  pub rows_of-extended_other :
      (store : Tables P J) (run_id other n : ℕ) (events : List (UncommittedEvent P))
      → All (λ (event : UncommittedEvent P). event.run_id ≡ run_id) events
      → (run_id == other) ≡ false
      → rows_of other (extended store run_id n events) ≡ rows_of other store
  rows_of-extended_other store run_id other n events own apart =
      keep-append (is_of other) store.events (stored_from n events)
      ∙ (ap (λ l. rows_of other store ++ l) (keep-stored_from_other run_id other n events own apart)
          ∙ append-nil (rows_of other store))

  extended-Numbered :
      (store : Tables P J) (run_id n : ℕ) (events : List (UncommittedEvent P))
      → All (λ (event : UncommittedEvent P). event.run_id ≡ run_id) events
      → ((other : ℕ) → Numbered 0 (rows_of other store))
      → length (rows_of run_id store) ≡ n
      → (other : ℕ) → Numbered 0 (rows_of other (extended store run_id n events))
  extended-Numbered store run_id n events own numbered count other =
      elim (Bool-cases (run_id == other)) [
        | inl same ↦
            subst (λ r. Numbered 0 (rows_of r (extended store run_id n events)))
              (==→eq run_id other same)
              (subst (Numbered 0) (sym (rows_of-extended_own store run_id n events own)) (
                Numbered-append 0 (rows_of run_id store) (stored_from n events) (numbered run_id) (
                  subst (λ m. Numbered m (stored_from n events)) start
                    (Numbered-stored_from n events))))
        | inr apart ↦
            subst (Numbered 0) (sym (rows_of-extended_other store run_id other n events own apart))
              (numbered other)
      ]
    where
      start : n ≡ 0 + length (rows_of run_id store)
      start = omega (arith, count)

  extended-counted :
      (store : Tables P J) (run_id n : ℕ) (events : List (UncommittedEvent P)) (row : RunRow)
      → All (λ (event : UncommittedEvent P). event.run_id ≡ run_id) events
      → find_run run_id store.runs ≡ some row
      → length (rows_of run_id store) ≡ n
      → ((other : ℕ)
          → (run_id == other) ≡ false
          → length (rows_of other store) ≡ version_in other store.runs)
      → (other : ℕ)
      → length (rows_of other (extended store run_id n events))
        ≡ version_in other (extended store run_id n events).runs
  extended-counted store run_id n events row own found count counted other =
      elim (Bool-cases (run_id == other)) [
        | inl same ↦
            subst
              (λ r.
                length (rows_of r (extended store run_id n events))
                ≡ version_in r (extended store run_id n events).runs)
              (==→eq run_id other same)
              (ap length (rows_of-extended_own store run_id n events own)
                ∙ (length-append (rows_of run_id store) (stored_from n events)
                    ∙ (added
                        ∙ sym
                            (version_in-set_own run_id (n + length events) store.runs row found))))
        | inr apart ↦
            ap length (rows_of-extended_other store run_id other n events own apart)
            ∙ (counted other apart
                ∙ sym (version_in-set_other run_id other (n + length events) store.runs apart))
      ]
    where
      added : length (rows_of run_id store) + length (stored_from n events) ≡ n + length events
      added = omega (arith, length-stored_from n events, count)

  -- Where the other runs are in order and this one has n rows, a batch that goes on at n is in order.
  pub extended-IsConsistent :
      (store : Tables P J) (run_id n : ℕ) (events : List (UncommittedEvent P)) (row : RunRow)
      → All (λ (event : UncommittedEvent P). event.run_id ≡ run_id) events
      → find_run run_id store.runs ≡ some row
      → length (rows_of run_id store) ≡ n
      → ((other : ℕ) → Numbered 0 (rows_of other store))
      → ((other : ℕ)
          → (run_id == other) ≡ false
          → length (rows_of other store) ≡ version_in other store.runs)
      → IsConsistent (extended store run_id n events)
  extended-IsConsistent store run_id n events row own found count numbered counted = record {
    numbered = extended-Numbered store run_id n events own numbered count;
    counted = extended-counted store run_id n events row own found count counted;
  }

module _ {P J E : Type 0} where
  -- What `_append_locked` has found and done where it returns.
  pub append_found-ok :
      (store : Tables P J) (run_id n : ℕ) (events : List (UncommittedEvent P))
      (found : Option RunRow) (result : Tables P J × List (EventRow P))
      → append_found {E = E} store run_id n events found ≡ ok result
      → (row : RunRow) × (found ≡ some row)
        × (row.current_version ≡ n)
        × ((extended store run_id n events, stored_from n events) ≡ result)
  unfolding append_found
  append_found-ok store run_id n events none result h = absurd (cc h)
  append_found-ok store run_id n events (some row) result h =
      let (current, rest) = raise_if-ok (not (row.current_version == n)) concurrent_append _ h in
      let (rows, inserted, returned) =
        >>=-eq-ok (insert_all {E = E} n events store.events) _ rest in
      let table : store.events ++ stored_from n events ≡ rows =
        insert_all-append n events store.events rows inserted in
      (row, refl, ground (arith, current), cc (table, returned))
