-- ===== src/Semantic/Batch.antt =====
-- The batch that `_invoke` of src/fre/semantic_runtime.py appends after a model call, against the
-- admission check and the reducer of src/fre/runtime/reducer.py.
use reasoning_engine.Prelude.{
  ℕ, ◌≡◌, refl, ap, List, [], ◌∷◌, map, ◌==◌, ==-refl, if◌then◌else◌, Bool-cases, Option-cases, not,
  ◌&&◌, inl, inr, Result, ok, ◌>>=◌,
}
use reasoning_engine.Budget.Types.{ResourceVector, BudgetReservation}
use reasoning_engine.Settlement.{
  Payload, SemanticCall, Pending, Evidence, settled, evidence_of, call_of, push_evidence, gather,
  take_evidence, match_calls, validate_semantic_reservation_admission, model_call_recorded_v2,
  model_call_failed_v2,
}
use reasoning_engine.Settlement.{
  budget_reservation_settled as settled_payload, other_payload as passed_over,
}
use reasoning_engine.Reducer.{RunPayload, RunState, RunError, RunReducer, call_in, apply_payload}
use reasoning_engine.Reducer.{
  budget_reservation_settled as run_settled, artifact_registered as run_registered,
  model_call_recorded_v2 as run_recorded, model_call_failed_v2 as run_failed,
}
use reasoning_engine.Semantic.{
  CallPayload, artifact_registered, budget_reservation_settled, model_call_recorded,
  model_call_failed, StructuredModelResult, charge, is_over, charged_for, is_success,
  validated_status, call_record, call_payloads, proposal_of, registrations, recorded,
}
use reasoning_engine.Semantic.Charge.{same_usage_refl}

-- The payloads as the admission check sees them,
unfoldable pub to_admission : CallPayload → Payload
to_admission (artifact_registered digest) = passed_over
to_admission (budget_reservation_settled id usage) = settled_payload id usage
to_admission (model_call_recorded r) = model_call_recorded_v2 (call_in r)
to_admission (model_call_failed r) = model_call_failed_v2 (call_in r)

-- and as the reducer does.
unfoldable pub to_run : {F : Type 0} → CallPayload → RunPayload F
to_run (artifact_registered digest) = run_registered digest
to_run (budget_reservation_settled id usage) = run_settled id usage
to_run (model_call_recorded r) = run_recorded r
to_run (model_call_failed r) = run_failed r

module _ {F : Type 0} (reducer : RunReducer F) where
  -- the branches of `apply`, one payload after the other
  unfoldable pub apply_payloads : RunState F → List CallPayload → Result RunError (RunState F)
  unfolding to_run
  apply_payloads state [] = ok state
  apply_payloads state (payload ∷ payloads) =
      apply_payload reducer state (to_run payload) >>= λ next. apply_payloads next payloads

-- A call whose settlement is first in its queue is matched.
matched :
    (call : SemanticCall) (pending : Pending) (queue : List Evidence)
    → pending call.reservation_id ≡ settled call.charged_usage ∷ queue
    → take_evidence call pending
      ≡ ok (λ key. if call.reservation_id == key then queue else pending key)
unfolding take_evidence
matched call pending queue h = rw (h, take_evidence) (rw (same_usage_refl call.charged_usage) refl)

-- A settlement and a record of the same reservation and usage are admitted.
ended_admitted :
    (id : ℕ) (usage : ResourceVector)
    → take_evidence
        (record { reservation_id = id; charged_usage = usage })
        (push_evidence id (settled usage) (λ _. []))
      ≡ ok (λ key. if id == key then [] else push_evidence id (settled usage) (λ _. []) key)
unfolding push_evidence
ended_admitted id usage =
    matched (record { reservation_id = id; charged_usage = usage })
      (push_evidence id (settled usage) (λ _. [])) []
      (ap (λ b. if b then settled usage ∷ [] else []) (==-refl id))

module _ {J : Type 0} (model_validate_json : J → Result (List ℕ) ℕ) where
  pub payloads-admitted :
      (reservation : BudgetReservation) (result : StructuredModelResult J)
      → validate_semantic_reservation_admission
          (map to_admission (call_payloads model_validate_json reservation result))
        ≡ ok tt
  unfolding call_payloads validate_semantic_reservation_admission to_admission gather match_calls
      evidence_of call_of call_record registrations recorded
  payloads-admitted reservation result =
      let usage = charged_for result.usage reservation.resources in
      let admitted = ended_admitted reservation.reservation_id usage in
      elim (Option-cases (proposal_of model_validate_json result)) [
        | inl p ↦
            elim (Bool-cases (
              is_success (validated_status model_validate_json result).0
              && not (is_over (charge result.usage reservation.resources) reservation.resources))) [
                | inl e ↦ rw p (rw e (rw admitted refl))
                | inr e ↦ rw p (rw e (rw admitted refl))
              ]
        | inr (digest, p) ↦
            elim (Bool-cases (
              is_success (validated_status model_validate_json result).0
              && not (is_over (charge result.usage reservation.resources) reservation.resources))) [
                | inl e ↦ rw p (rw e (rw admitted refl))
                | inr e ↦ rw p (rw e (rw admitted refl))
              ]
      ]
