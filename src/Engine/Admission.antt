-- ===== src/Engine/Admission.antt =====
-- The two ways through `append` of src/fre/engine.py: the checked one, and the one for a version that
-- is stale.
use reasoning_engine.Prelude.{
  ℕ, ◌≡◌, ◌≢◌, sym, subst, ap, ◌∙◌, false, List, ◌∷◌, ◌++◌, ◌==◌, ==→eq, ==-refl, if◌then◌else◌,
  Bool-cases, inl, inr, Result, ok, ◌>>=◌, arith,
}
use reasoning_engine.Store.{UncommittedEvent, EventRow, Tables, load}
use reasoning_engine.Store.{append as store_append}
use reasoning_engine.Store.Log.{IsConsistent}
use reasoning_engine.Store.Runs.{extend_log, append-refines_log, find_run-version_in, append-ok}
use reasoning_engine.Store.Fold.{Reducer, IsLawful, apply_all, reduce, apply_all-append}
use reasoning_engine.Store.Snapshots.{raised_by as passed_on}
use reasoning_engine.Engine.{inspect, append_from, append}
use reasoning_engine.Engine.Replays.{append_from-ok, inspect-version}

module _ {P S X J : Type 0} (reducer : Reducer P S X) where
  -- The state of a run whose log was extended.
  pub inspect-extended :
      (store after : Tables P J) (run_id : ℕ) (preview final : S) (stored : List (EventRow P))
      → inspect reducer store run_id ≡ ok preview
      → apply_all reducer preview stored ≡ ok final
      → load after run_id 0 ≡ extend_log (λ r. load store r 0) run_id stored run_id
      → inspect reducer after run_id ≡ ok final
  inspect-extended store after run_id preview final stored seen folded log =
      let longer : load after run_id 0 ≡ load store run_id 0 ++ stored =
        log
        ∙ ap (λ b. if b then load store run_id 0 ++ stored else load store run_id 0)
            (==-refl run_id) in
      ap (reduce reducer run_id) longer
      ∙ (apply_all-append reducer (reducer.initial run_id) (load store run_id 0) stored
          ∙ (ap (λ (r : Result X S). r >>= λ s. apply_all reducer s stored) seen ∙ folded))

  pub inspect-other :
      (store after : Tables P J) (run_id other : ℕ) (stored : List (EventRow P))
      → (run_id == other) ≡ false
      → load after other 0 ≡ extend_log (λ r. load store r 0) run_id stored other
      → inspect reducer after other ≡ inspect reducer store other
  inspect-other store after run_id other stored apart log =
      ap (reduce reducer other)
        (log ∙ ap (λ b. if b then load store other 0 ++ stored else load store other 0) apart)

module _ {P S X J : Type 0} (reducer : Reducer P S X) (lawful : IsLawful reducer)
    (admit : List (EventRow P) → Result X (Unit {0})) where
  -- A batch that is not empty and that the engine stores, on a consistent store, passed the
  -- admission check and the reducer as the call returns it, from the state that `inspect` returned
  -- before; and the state it led to is the one that `inspect` returns after.
  pub append-inspect :
      (store after : Tables P J) (run_id n : ℕ) (event : UncommittedEvent P)
      (events : List (UncommittedEvent P)) (stored : List (EventRow P)) (preview : S)
      → IsConsistent store
      → inspect reducer store run_id ≡ ok preview
      → append reducer admit store run_id n (event ∷ events) ≡ ok (after, stored)
      → (admit stored ≡ ok tt)
        × (final : S) × (apply_all reducer preview stored ≡ ok final)
        × (inspect reducer after run_id ≡ ok final)
  unfolding append
  append-inspect store after run_id n event events stored preview c seen h =
      let entered : append_from reducer admit store run_id n (event ∷ events) preview
          ≡ ok (after, stored) =
        subst
          (λ (r : Result X S).
            (passed_on r >>= append_from reducer admit store run_id n (event ∷ events))
            ≡ ok (after, stored))
          seen h in
      let (admitted, final, folded, saved) =
        append_from-ok reducer lawful admit store after run_id n event events stored preview c seen
          entered in
      let (next, batch, logs) =
        append-refines_log {E = X} store after run_id n (event ∷ events) stored c saved in
      let applied : apply_all reducer preview stored ≡ ok final =
        subst (λ rows. apply_all reducer preview rows ≡ ok final) (sym batch) folded in
      (
        subst (λ rows. admit rows ≡ ok tt) (sym batch) admitted,
        final,
        applied,
        inspect-extended reducer store after run_id preview final stored seen applied (logs run_id),
      )

  -- A batch that is not empty, for a version other than that of the state that `inspect` returns,
  -- is never stored: the way round the checks ends in an exception, on a consistent store.
  pub append-stale_refused :
      (store : Tables P J) (run_id n : ℕ) (event : UncommittedEvent P)
      (events : List (UncommittedEvent P)) (preview : S) (result : Tables P J × List (EventRow P))
      → IsConsistent store
      → inspect reducer store run_id ≡ ok preview
      → reducer.version_of preview ≢ n
      → ¬ (append reducer admit store run_id n (event ∷ events) ≡ ok result)
  unfolding append append_from
  append-stale_refused store run_id n event events preview (after, stored) c seen stale h =
      let differs : (reducer.version_of preview == n) ≡ false =
        elim (Bool-cases (reducer.version_of preview == n)) [
          | inl e ↦ absurd (stale (==→eq (reducer.version_of preview) n e))
          | inr e ↦ e
        ] in
      let saved : store_append {E = X} store run_id n (event ∷ events) ≡ ok (after, stored) =
        ground (arith, h, seen, differs) in
      let (own, row, found, current, result) =
        append-ok {E = X} store after run_id n event events stored saved in
      stale (
        inspect-version reducer lawful store run_id preview c seen
        ∙ (find_run-version_in run_id store.runs row found ∙ current))
