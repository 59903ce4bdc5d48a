-- ===== src/Engine/Runs.antt =====
-- The stores that `create_run` and `append` of src/fre/engine.py lead to.
use reasoning_engine.Prelude.{
  ℕ, ◌≡◌, sym, subst, ap, ◌∙◌, Option, some, List, [], ◌∷◌, ◌==◌, ==→eq, Bool-cases, inl, inr,
  Result, ok, ◌>>=◌, ◌>>◌, >>=-eq-ok, guard-ok, arith,
}
use reasoning_engine.Store.{UncommittedEvent, EventRow, Tables, StoreError, stored_from, load}
use reasoning_engine.Store.{append as store_append}
use reasoning_engine.Store.Runs.{extend_log, append-refines_log}
use reasoning_engine.Store.Creation.{create_run-starts_log, create_run-payload}
use reasoning_engine.Store.Fold.{Reducer, IsLawful, apply_all, reduce}
use reasoning_engine.Store.Snapshots.{Codec, raised_by as passed_on}
use reasoning_engine.Engine.{inspect, append_from, append, create_run, snapshot}
use reasoning_engine.Engine.Replays.{Replays}
use reasoning_engine.Engine.Admission.{inspect-extended, inspect-other, append-inspect}

module _ {P S X J : Type 0} (reducer : Reducer P S X)
    (admit : List (EventRow P) → Result X (Unit {0})) (config_of : P → Option ℕ)
    (codec : Codec S J X) where
  -- the stores that calls of the engine lead to from the empty tables; a call that raises leaves the
  -- store as it was
  pub data IsReachable : Tables P J → Type 0 where
    start : IsReachable (record { runs = []; events = []; snapshots = [] })
    created :
        (store after : Tables P J) (event : UncommittedEvent P) (stored : List (EventRow P))
        → IsReachable store
        → create_run {X = X} config_of store event ≡ ok (after, stored)
        → IsReachable after
    appended :
        (store after : Tables P J) (run_id n : ℕ) (events : List (UncommittedEvent P))
        (stored : List (EventRow P))
        → IsReachable store
        → append reducer admit store run_id n events ≡ ok (after, stored)
        → IsReachable after
    snapshotted :
        (store after : Tables P J) (run_id hash : ℕ)
        → IsReachable store
        → snapshot reducer codec store run_id ≡ ok (after, hash)
        → IsReachable after

module _ {P S X J : Type 0} (reducer : Reducer P S X) where
  -- Where the log of one run was extended and that run replays, every run replays.
  states_after :
      (store after : Tables P J) (run_id : ℕ) (stored : List (EventRow P)) (final : S)
      → Replays reducer store
      → ((other : ℕ) → load after other 0 ≡ extend_log (λ r. load store r 0) run_id stored other)
      → inspect reducer after run_id ≡ ok final
      → (other : ℕ) → (s : S) × (inspect reducer after other ≡ ok s)
  states_after store after run_id stored final replays logs now other =
      elim (Bool-cases (run_id == other)) [
        | inl same ↦
            (final, subst (λ r. inspect reducer after r ≡ ok final) (==→eq run_id other same) now)
        | inr apart ↦
            let (s, seen) = replays.state other in
            (s, inspect-other reducer store after run_id other stored apart (logs other) ∙ seen)
      ]

module _ {P S X J : Type 0} (reducer : Reducer P S X)
    (admit : List (EventRow P) → Result X (Unit {0})) where
  -- What the engine stores went through the store's own `append`.
  pub append-stored :
      (store : Tables P J) (run_id n : ℕ) (events : List (UncommittedEvent P))
      (result : Tables P J × List (EventRow P))
      → append reducer admit store run_id n events ≡ ok result
      → store_append {E = X} store run_id n events ≡ ok result
  unfolding append append_from
  append-stored store run_id n events result h =
      let (preview, seen, entered) = >>=-eq-ok (passed_on (inspect reducer store run_id)) _ h in
      elim (Bool-cases (reducer.version_of preview == n)) [
        | inl e ↦
            let checked : ◌≡◌ {A = Result (StoreError X) (Tables P J × List (EventRow P))}
                (do
                  passed_on (admit (stored_from n events))
                  final ← passed_on (apply_all reducer preview (stored_from n events))
                  store_append store run_id n events)
                (ok result) =
              ground (arith, entered, e) in
            let (admitted, rest) = guard-ok (passed_on (admit (stored_from n events))) _ checked in
            let (final, folded, saved) =
              >>=-eq-ok (passed_on (apply_all reducer preview (stored_from n events))) _ rest in
            saved
        | inr e ↦ ground (arith, entered, e)
      ]

module _ {P S X J : Type 0} (reducer : Reducer P S X) (lawful : IsLawful reducer)
    (admit : List (EventRow P) → Result X (Unit {0})) where
  pub append-Replays :
      (store after : Tables P J) (run_id n : ℕ) (events : List (UncommittedEvent P))
      (stored : List (EventRow P))
      → Replays reducer store
      → append reducer admit store run_id n events ≡ ok (after, stored)
      → Replays reducer after
  unfolding store_append
  append-Replays store after run_id n [] stored replays h =
      subst (Replays reducer)
        (unchanged (append-stored reducer admit store run_id n [] (after, stored) h)) replays
    where
      unchanged : store_append {E = X} store run_id n [] ≡ ok (after, stored) → store ≡ after
      unchanged k = cc k
  append-Replays store after run_id n (event ∷ events) stored replays h =
      let (preview, seen) = replays.state run_id in
      let (next, batch, logs) =
        append-refines_log {E = X} store after run_id n (event ∷ events) stored replays.consistent
          (append-stored reducer admit store run_id n (event ∷ events) (after, stored) h) in
      let (admitted, final, folded, now) =
        append-inspect reducer lawful admit store after run_id n event events stored preview
          replays.consistent seen h in
      record {
        consistent = next;
        state = states_after reducer store after run_id stored final replays logs now;
      }

-- The reducer accepts the first event of a run.
module _ {P S X J : Type 0} (reducer : Reducer P S X) (lawful : IsLawful reducer)
    (config_of : P → Option ℕ)
    (begins : (event : UncommittedEvent P) (payload : P) (config_hash : ℕ)
      → event.payload ≡ some payload
      → config_of payload ≡ some config_hash
      → (s : S) × (reducer.apply
            (reducer.initial event.run_id)
            (record { event = event; sequence = 1 })
          ≡ ok s)) where
  pub create_run-Replays :
      (store after : Tables P J) (event : UncommittedEvent P) (stored : List (EventRow P))
      → Replays reducer store
      → create_run {X = X} config_of store event ≡ ok (after, stored)
      → Replays reducer after
  unfolding apply_all
  create_run-Replays store after event stored replays h =
      let (next, fresh, nothing, batch, logs) =
        create_run-starts_log {E = X} config_of store after event stored replays.consistent h in
      let (payload, config_hash, given, config) =
        create_run-payload {E = X} config_of store event (after, stored) h in
      let (s, applied) = begins event payload config_hash given config in
      let begun : reduce reducer event.run_id (load store event.run_id 0)
          ≡ ok (reducer.initial event.run_id) =
        ap (reduce reducer event.run_id) nothing in
      let one : apply_all reducer (reducer.initial event.run_id) stored ≡ ok s =
        subst (λ rows. apply_all reducer (reducer.initial event.run_id) rows ≡ ok s) (sym batch)
          (ap (λ (r : Result X S). r >>= λ next. ok next) applied) in
      let now : inspect reducer after event.run_id ≡ ok s =
        inspect-extended reducer store after event.run_id (reducer.initial event.run_id) s stored
          begun one (logs event.run_id) in
      record {
        consistent = next;
        state = states_after reducer store after event.run_id stored s replays logs now;
      }
