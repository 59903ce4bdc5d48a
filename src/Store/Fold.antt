-- ===== src/Store/Fold.antt =====
-- What the store and the engine use of a reducer: `RunReducer.initial`, `apply`, `reduce` and
-- `version` of src/fre/runtime/reducer.py, and the fields of `RunState` that they read.
use reasoning_engine.Prelude.{ℕ, ◌≡◌, refl, List, [], ◌∷◌, ◌++◌, Result, ok, err, ◌>>=◌}
use reasoning_engine.Store.{EventRow}

pub record Reducer (P S X : Type 0) : Type 0 where
  pub initial : ℕ → S
  pub apply : S → EventRow P → Result X S
  pub run_of : S → ℕ
  pub version_of : S → ℕ

-- The laws of a reducer: a new state has version 0, and a state that an event is applied to gets the
-- event's number and stays the state of its run.
pub record IsLawful {P S X : Type 0} (reducer : Reducer P S X) : Type 0 where
  pub initial_version : (run_id : ℕ) → reducer.version_of (reducer.initial run_id) ≡ 0
  pub initial_run : (run_id : ℕ) → reducer.run_of (reducer.initial run_id) ≡ run_id
  pub apply_version :
      (state next : S) (row : EventRow P)
      → reducer.apply state row ≡ ok next
      → reducer.version_of next ≡ row.sequence
  pub apply_run :
      (state next : S) (row : EventRow P)
      → reducer.apply state row ≡ ok next
      → reducer.run_of next ≡ reducer.run_of state

module _ {P S X : Type 0} (reducer : Reducer P S X) where
  -- the loop of `reduce`, which `replay_from_snapshot` and the engine's preview have too
  unfoldable pub apply_all : S → List (EventRow P) → Result X S
  apply_all state [] = ok state
  apply_all state (row ∷ rows) = reducer.apply state row >>= λ next. apply_all next rows

  abbrev pub reduce : ℕ → List (EventRow P) → Result X S
  reduce run_id rows = apply_all (reducer.initial run_id) rows

  pub apply_all-append :
      (state : S) (xs ys : List (EventRow P))
      → apply_all state (xs ++ ys) ≡ (apply_all state xs >>= λ next. apply_all next ys)
  unfolding apply_all
  apply_all-append state [] ys = refl
  apply_all-append state (x ∷ xs) ys =
      step (reducer.apply state x) (λ next. apply_all-append next xs ys)
    where
      step :
          (first : Result X S)
          → ((next : S)
              → apply_all next (xs ++ ys) ≡ (apply_all next xs >>= λ last. apply_all last ys))
          → (first >>= λ next. apply_all next (xs ++ ys))
            ≡ ((first >>= λ next. apply_all next xs) >>= λ last. apply_all last ys)
      step (err e) rest = refl
      step (ok next) rest = rest next
