-- ===== src/Reducer/Replay.antt =====
-- Replaying the log of a run with `RunReducer.reduce` of src/fre/runtime/reducer.py.
use reasoning_engine.Prelude.{
  ℕ, ◌+◌, ◌≡◌, subst, ◌||◌, ◌==◌, List, [], ◌∷◌, length, Result, ok, err, >>=-eq-ok, raise_if-ok,
  guard-ok, sym, ◌>>◌, not, Option-cases, inl, inr, arith,
}
use reasoning_engine.Budget.Types.{BudgetProjection, BudgetError, empty_projection}
use reasoning_engine.Budget.Allocator.{revise}
use reasoning_engine.Budget.Vectors.{getattr-no_resources}
use reasoning_engine.Budget.Bounds.{
  IsValid, empty_projection-IsValid, consume-IsValid, reserve-IsValid, settle-IsValid,
  release-IsValid,
}
use reasoning_engine.Budget.Plans.{revise-IsValid}
use reasoning_engine.Settlement.{SemanticCall}
use reasoning_engine.Semantic.{CallIdentity, CallRecord}
use reasoning_engine.Reducer.{
  note_call, Allotment, RunPayload, budget_revised, budget_allocated, budget_consumed,
  budget_reserved, budget_reservation_settled, budget_reservation_released, model_call_recorded,
  model_call_failed, model_call_recorded_v2, model_call_failed_v2, artifact_registered, RunReducer,
  RunError, guarded, call_in, settle_call, task_classified, run_created, other_payload, StoredEvent,
  RunState, not_contiguous, with_budget, note_settlement, use_settlement, allotted, initial,
  apply_payload, apply, apply_all, reduce,
}

module _ {F : Type 0} where
  allotted-IsValid : (a : Allotment F) → IsValid (allotted a)
  unfolding empty_projection
  allotted-IsValid a = record {
    fits = λ plan e name. omega (arith, getattr-no_resources name);
    accounted = λ name. getattr-no_resources name;
    ids_once = λ id. omega arith;
    actions_once = λ id. omega arith;
    sorted = tt;
  }

  with_budget_inv :
      (s t : RunState F) (m : Result BudgetError (BudgetProjection F))
      → with_budget s m ≡ ok t
      → m ≡ ok t.budget
  with_budget_inv s t (ok b) h = ground arith
  with_budget_inv s t (err e) h = cc

  -- What the settlement of a call leaves alone.
  use_settlement-kept :
      (s t : RunState F) (call : SemanticCall)
      → use_settlement s call ≡ ok t
      → (t.budget ≡ s.budget) × (t.run_id ≡ s.run_id)
  unfolding use_settlement
  use_settlement-kept s t call h =
      elim (Option-cases (s.pending_semantic_settlements call.reservation_id)) [
        | inl e ↦ absurd (ground (arith, h, e))
        | inr (usage, e) ↦ (ground (arith, h, e), ground (arith, h, e))
      ]

module _ {F : Type 0} (reducer : RunReducer F) where
  settle_call-kept :
      (s t : RunState F) (r : CallRecord)
      → settle_call reducer s r ≡ ok t
      → (t.budget ≡ s.budget) × (t.run_id ≡ s.run_id)
  unfolding settle_call
  settle_call-kept s t r h =
      let (used, e, h1) = >>=-eq-ok (use_settlement s (call_in r)) _ h in
      let (proved, same) = guard-ok (guarded _) (ok (note_call r.identity used)) h1 in
      let (budget, run) = use_settlement-kept s used (call_in r) e in
      (ground (arith, same, budget), ground (arith, same, run))

  -- A record of a model call, of either version, changes neither the budget nor the run.
  noted-kept :
      (s t : RunState F) (identity : CallIdentity) (guards : Result RunError (Unit {0}))
      → (guards >> ok (note_call identity s)) ≡ ok t
      → (t.budget ≡ s.budget) × (t.run_id ≡ s.run_id)
  noted-kept s t identity guards h =
      let (passed, same) = guard-ok guards _ h in (ground (arith, same), ground (arith, same))

  settled-kept :
      (s t : RunState F) (r : CallRecord) (common own : Result RunError (Unit {0}))
      → (common >> (own >> settle_call reducer s r)) ≡ ok t
      → (t.budget ≡ s.budget) × (t.run_id ≡ s.run_id)
  settled-kept s t r common own h =
      let (passed, h1) = guard-ok common _ h in
      let (passed', h2) = guard-ok own _ h1 in settle_call-kept s t r h2

  revised-IsValid :
      (s t : RunState F) (a : Allotment F)
      → IsValid s.budget
      → apply_payload reducer s (budget_revised a) ≡ ok t
      → IsValid t.budget
  unfolding apply_payload
  revised-IsValid s t a v h =
      let h2 : with_budget s (revise s.budget a.plan a.policy_hash) ≡ ok t = ground (arith, h) in
      let (c, e, e', v', _, _) =
        revise-IsValid s.budget t.budget a.plan a.policy_hash v (with_budget_inv s t _ h2) in
      v'

  allocated-IsValid :
      (s t : RunState F) (a : Allotment F)
      → apply_payload reducer s (budget_allocated a) ≡ ok t
      → IsValid t.budget
  unfolding apply_payload
  allocated-IsValid s t a h =
      let same : allotted a ≡ t.budget = ground (arith, h) in
      subst IsValid same (allotted-IsValid a)

  apply_payload-IsValid :
      (s t : RunState F) (payload : RunPayload F)
      → IsValid s.budget
      → apply_payload reducer s payload ≡ ok t
      → IsValid t.budget
  unfolding apply_payload note_settlement
  apply_payload-IsValid s t (budget_revised a) v h = revised-IsValid s t a v h
  apply_payload-IsValid s t (budget_allocated a) v h = allocated-IsValid s t a h
  apply_payload-IsValid s t (budget_consumed usage) v h =
      consume-IsValid reducer.canonical_hash s.budget t.budget v usage (with_budget_inv s t _ h)
  apply_payload-IsValid s t (budget_reserved r) v h =
      reserve-IsValid reducer.canonical_hash s.budget t.budget v r (with_budget_inv s t _ h)
  apply_payload-IsValid s t (budget_reservation_settled id actual) v h =
      settle-IsValid s.budget t.budget v id actual
        (with_budget_inv (note_settlement id actual s) t _ h)
  apply_payload-IsValid s t (budget_reservation_released id) v h =
      release-IsValid s.budget t.budget v id (with_budget_inv s t _ h)
  apply_payload-IsValid s t (model_call_recorded identity) v h =
      subst IsValid (sym (noted-kept s t identity _ h).0) v
  apply_payload-IsValid s t (model_call_failed identity) v h =
      subst IsValid (sym (noted-kept s t identity _ h).0) v
  apply_payload-IsValid s t (model_call_recorded_v2 r) v h =
      subst IsValid (sym (settled-kept s t r _ _ h).0) v
  apply_payload-IsValid s t (model_call_failed_v2 r) v h =
      subst IsValid (sym (settled-kept s t r _ _ h).0) v
  apply_payload-IsValid s t (artifact_registered digest) v h =
      let same : s.budget ≡ t.budget = ground (arith, h) in subst IsValid same v
  apply_payload-IsValid s t (task_classified signature) v h =
      let same : s.budget ≡ t.budget = ground (arith, h) in subst IsValid same v
  apply_payload-IsValid s t (run_created config_hash) v h =
      let same : s.budget ≡ t.budget = ground (arith, h) in subst IsValid same v
  apply_payload-IsValid s t other_payload v h =
      let same : s.budget ≡ t.budget = ground (arith, h) in subst IsValid same v

  pub apply-IsValid :
      (s t : RunState F) (event : StoredEvent F)
      → IsValid s.budget
      → apply reducer s event ≡ ok t
      → IsValid t.budget × (t.version ≡ s.version + 1) × (event.run_id ≡ s.run_id)
  unfolding apply
  apply-IsValid s t event v h =
      let (order, h1) =
        raise_if-ok (not (event.run_id == s.run_id) || not (event.sequence == s.version + 1))
          not_contiguous _ h in
      let (changed, applied, same) = >>=-eq-ok (apply_payload reducer s event.payload) _ h1 in
      (
        subst IsValid (let q : changed.budget ≡ t.budget = ground (arith, same) in q)
            (apply_payload-IsValid s changed event.payload v applied),
        ground (arith, same, order),
        ground (arith, order),
      )

  with_budget-run_id :
      (s t : RunState F) (m : Result BudgetError (BudgetProjection F))
      → with_budget s m ≡ ok t
      → t.run_id ≡ s.run_id
  with_budget-run_id s t (ok b) h = ground (arith, h)
  with_budget-run_id s t (err e) h = cc h

  apply_payload-run_id :
      (s t : RunState F) (payload : RunPayload F)
      → apply_payload reducer s payload ≡ ok t
      → t.run_id ≡ s.run_id
  unfolding apply_payload note_settlement
  apply_payload-run_id s t (budget_revised a) h =
      let next : with_budget s (revise s.budget a.plan a.policy_hash) ≡ ok t = ground (arith, h) in
      with_budget-run_id s t _ next
  apply_payload-run_id s t (budget_allocated a) h = ground (arith, h)
  apply_payload-run_id s t (budget_consumed usage) h = with_budget-run_id s t _ h
  apply_payload-run_id s t (budget_reserved r) h = with_budget-run_id s t _ h
  apply_payload-run_id s t (budget_reservation_settled id actual) h =
      with_budget-run_id (note_settlement id actual s) t _ h
  apply_payload-run_id s t (budget_reservation_released id) h = with_budget-run_id s t _ h
  apply_payload-run_id s t (model_call_recorded identity) h = (noted-kept s t identity _ h).1
  apply_payload-run_id s t (model_call_failed identity) h = (noted-kept s t identity _ h).1
  apply_payload-run_id s t (model_call_recorded_v2 r) h = (settled-kept s t r _ _ h).1
  apply_payload-run_id s t (model_call_failed_v2 r) h = (settled-kept s t r _ _ h).1
  apply_payload-run_id s t (artifact_registered digest) h = ground (arith, h)
  apply_payload-run_id s t (task_classified signature) h = ground (arith, h)
  apply_payload-run_id s t (run_created config_hash) h = ground (arith, h)
  apply_payload-run_id s t other_payload h = ground (arith, h)

  -- A state that an event was applied to is of the same run, at the event's number.
  pub apply-run_id :
      (s t : RunState F) (event : StoredEvent F)
      → apply reducer s event ≡ ok t
      → (t.run_id ≡ s.run_id) × (t.version ≡ event.sequence)
  unfolding apply
  apply-run_id s t event h =
      let (order, h1) =
        raise_if-ok (not (event.run_id == s.run_id) || not (event.sequence == s.version + 1))
          not_contiguous _ h in
      let (changed, applied, same) = >>=-eq-ok (apply_payload reducer s event.payload) _ h1 in
      let kept : changed.run_id ≡ s.run_id = apply_payload-run_id s changed event.payload applied in
      (ground (arith, same, kept), ground (arith, same))

  apply_all-IsValid :
      (s t : RunState F) (events : List (StoredEvent F))
      → IsValid s.budget
      → apply_all reducer s events ≡ ok t
      → IsValid t.budget × (t.version ≡ s.version + length events)
  unfolding apply_all
  apply_all-IsValid s t [] v h =
      let same : s ≡ t = ground (arith, h) in
      (subst (λ (x : RunState F). IsValid x.budget) same v, ground (arith, h))
  apply_all-IsValid s t (event ∷ events) v h =
      let (next, applied, h') =
        >>=-eq-ok (apply reducer s event) (λ next. apply_all reducer next events) h in
      let (valid, version, _) = apply-IsValid s next event v applied in
      let (valid', version') = apply_all-IsValid next t events valid h' in
      (valid', omega (arith, version, version'))

  -- Whatever the log, if it can be replayed, the budget that results is valid: what is committed and
  -- reserved fits the plan in force, what is committed is the sum of the recorded usage, and no
  -- reservation or action is there twice; and the version is the number of events.
  pub reduce-IsValid :
      (run_id : ℕ) (events : List (StoredEvent F)) (t : RunState F)
      → reduce reducer run_id events ≡ ok t
      → IsValid t.budget × (t.version ≡ length events)
  unfolding reduce initial
  reduce-IsValid run_id events t h =
      let (valid, version) =
        apply_all-IsValid (initial run_id) t events empty_projection-IsValid h in
      (valid, omega (arith, version))
