-- ===== src/Tests/Settlement.antt =====
-- The check of a batch in src/fre/runtime/reducer.py.
use mathlib.Core.Logic.{◌↔◌}
use reasoning_engine.Prelude.{ℕ, ◌≡◌, refl, true, List, [], ◌∷◌, ok, err}
use reasoning_engine.Budget.Types.{getattr, any_resource}
use reasoning_engine.Settlement.{
  Payload, SemanticCall, budget_reservation_settled, budget_reservation_released,
  model_call_recorded_v2, release_not_settlement, evidence_of, call_of, push_evidence, gather,
  same_usage, take_evidence, match_calls, validate_semantic_reservation_admission,
}
use reasoning_engine.Settlement.Pairing.{evidence_on, charges_on, is_paired, admission_iff}
use reasoning_engine.Tests.Budget.{amount}

abbrev call : SemanticCall
call = record { reservation_id = 5; charged_usage = amount 1 800 }

-- The settlement stands after the call.
abbrev batch : List Payload
batch = model_call_recorded_v2 call ∷ budget_reservation_settled 5 (amount 1 800) ∷ []

batch_run : validate_semantic_reservation_admission batch ≡ ok tt
unfolding validate_semantic_reservation_admission match_calls call_of take_evidence gather
    evidence_of push_evidence same_usage any_resource getattr
batch_run = refl

released_run :
    validate_semantic_reservation_admission
      (model_call_recorded_v2 call ∷ budget_reservation_released 5 ∷ [])
    ≡ err release_not_settlement
unfolding validate_semantic_reservation_admission match_calls call_of take_evidence gather
    evidence_of push_evidence same_usage any_resource getattr
released_run = refl

admission_iff_example :
    (validate_semantic_reservation_admission batch ≡ ok tt)
    ↔ ((id : ℕ) → is_paired (charges_on id batch) (evidence_on id batch) ≡ true)
admission_iff_example = admission_iff batch
