-- ===== src/Engine/Replays.antt =====
-- What `append` of src/fre/engine.py has done where it returns, over a store whose runs all replay.
use reasoning_engine.Prelude.{
  ℕ, suc, ◌+◌, ◌≡◌, sym, subst, ap, ◌∙◌, List, [], ◌∷◌, length, ◌==◌, Bool-cases, inl, inr, Result,
  ok, err, ◌>>=◌, ◌>>◌, >>=-eq-ok, guard-ok, arith,
}
use reasoning_engine.Store.{UncommittedEvent, EventRow, Tables, StoreError, stored_from}
use reasoning_engine.Store.{append as store_append}
use reasoning_engine.Store.Numbered.{Numbered}
use reasoning_engine.Store.Log.{version_in, rows_of, IsConsistent, load-rows_of}
use reasoning_engine.Store.Runs.{find_run-version_in, append-ok}
use reasoning_engine.Store.Fold.{Reducer, IsLawful, apply_all, reduce}
use reasoning_engine.Store.Snapshots.{raised_by as passed_on}
use reasoning_engine.Engine.{inspect, append_from}

module _ {P S X J : Type 0} (reducer : Reducer P S X) where
  -- The store is consistent, and the log of every run replays.
  pub record Replays (store : Tables P J) : Type 0 where
    pub consistent : IsConsistent store
    pub state : (run_id : ℕ) → (s : S) × (inspect reducer store run_id ≡ ok s)

pub passed_on-ok : {X A : Type 0} (call : Result X A) {a : A} → passed_on call ≡ ok a → call ≡ ok a
passed_on-ok (err e) h = absurd (cc h)
passed_on-ok (ok b) h = cc h

module _ {P S X : Type 0} (reducer : Reducer P S X) (lawful : IsLawful reducer) where
  -- Rows numbered on from the version of a state are counted by its version.
  pub apply_all-version :
      (n : ℕ) (state last : S) (rows : List (EventRow P))
      → reducer.version_of state ≡ n
      → Numbered n rows
      → apply_all reducer state rows ≡ ok last
      → reducer.version_of last ≡ n + length rows
  unfolding apply_all
  apply_all-version n state last [] v numbered h =
      let same : state ≡ last = cc h in
      subst (λ s. reducer.version_of s ≡ n + 0) same (let z : n ≡ n + 0 = omega arith in v ∙ z)
  apply_all-version n state last (row ∷ rows) v numbered h =
      let (next, first, rest) = >>=-eq-ok (reducer.apply state row) _ h in
      let now : reducer.version_of next ≡ suc n =
        lawful.apply_version state next row first ∙ numbered.0 in
      let counted : reducer.version_of last ≡ suc n + length rows =
        apply_all-version (suc n) next last rows now numbered.1 rest in
      let shift : suc n + length rows ≡ n + suc (length rows) = omega arith in counted ∙ shift

  pub apply_all-run :
      (state last : S) (rows : List (EventRow P))
      → apply_all reducer state rows ≡ ok last
      → reducer.run_of last ≡ reducer.run_of state
  unfolding apply_all
  apply_all-run state last [] h = let same : state ≡ last = cc h in ap reducer.run_of (sym same)
  apply_all-run state last (row ∷ rows) h =
      let (next, first, rest) = >>=-eq-ok (reducer.apply state row) _ h in
      apply_all-run next last rows rest ∙ lawful.apply_run state next row first

module _ {P S X J : Type 0} (reducer : Reducer P S X) (lawful : IsLawful reducer) where
  -- A state that `inspect` returns has the version of the run's row.
  pub inspect-version :
      (store : Tables P J) (run_id : ℕ) (s : S)
      → IsConsistent store
      → inspect reducer store run_id ≡ ok s
      → reducer.version_of s ≡ version_in run_id store.runs
  inspect-version store run_id s c h =
      let rows = rows_of run_id store in
      let replayed : reduce reducer run_id rows ≡ ok s =
        subst (λ l. reduce reducer run_id l ≡ ok s) (load-rows_of store run_id c) h in
      apply_all-version reducer lawful 0 (reducer.initial run_id) s rows
        (lawful.initial_version run_id) (c.numbered run_id) replayed
      ∙ (let zero_add : 0 + length rows ≡ length rows = omega arith in zero_add)
      ∙ c.counted run_id

  module _ (admit : List (EventRow P) → Result X (Unit {0})) where
    -- A batch that is not empty and that is stored went the checked way.
    pub append_from-ok :
        (store after : Tables P J) (run_id n : ℕ) (event : UncommittedEvent P)
        (events : List (UncommittedEvent P)) (stored : List (EventRow P)) (preview : S)
        → IsConsistent store
        → inspect reducer store run_id ≡ ok preview
        → append_from reducer admit store run_id n (event ∷ events) preview ≡ ok (after, stored)
        → (admit (stored_from n (event ∷ events)) ≡ ok tt)
          × (final : S) × (apply_all reducer preview (stored_from n (event ∷ events)) ≡ ok final)
          × (store_append {E = X} store run_id n (event ∷ events) ≡ ok (after, stored))
    unfolding append_from
    append_from-ok store after run_id n event events stored preview c seen h =
        elim (Bool-cases (reducer.version_of preview == n)) [
          | inl e ↦
              let checked : ◌≡◌ {A = Result (StoreError X) (Tables P J × List (EventRow P))}
                  (do
                    passed_on (admit (stored_from n (event ∷ events)))
                    final ← passed_on (apply_all reducer preview (stored_from n (event ∷ events)))
                    store_append store run_id n (event ∷ events))
                  (ok (after, stored)) =
                ground (arith, h, e) in
              let (admitted, rest) =
                guard-ok (passed_on (admit (stored_from n (event ∷ events)))) _ checked in
              let (final, folded, saved) =
                >>=-eq-ok (passed_on (apply_all reducer preview (stored_from n (event ∷ events)))) _
                  rest in
              (
                passed_on-ok (admit (stored_from n (event ∷ events))) admitted,
                final,
                passed_on-ok (apply_all reducer preview (stored_from n (event ∷ events))) folded,
                saved,
              )
          | inr e ↦
              let saved : store_append {E = X} store run_id n (event ∷ events)
                  ≡ ok (after, stored) =
                ground (arith, h, e) in
              let (own, row, found, current, result) =
                append-ok {E = X} store after run_id n event events stored saved in
              let same : reducer.version_of preview ≡ n =
                inspect-version store run_id preview c seen
                ∙ (find_run-version_in run_id store.runs row found ∙ current) in
              absurd (ground (arith, same, e))
        ]
