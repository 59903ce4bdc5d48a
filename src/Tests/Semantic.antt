-- ===== src/Tests/Semantic.antt =====
-- The accounting of a model call of src/fre/semantic_runtime.py that used more than was reserved.
use reasoning_engine.Prelude.{
  ℕ, ◌≡◌, refl, true, none, some, List, [], ◌∷◌, map, Result, ok, err, ◌⊎◌,
}
use reasoning_engine.Budget.Types.{ResourceVector, BudgetReservation}
use reasoning_engine.Budget.Meter.{settle}
use reasoning_engine.Budget.Inversion.{Covers}
use reasoning_engine.Settlement.{validate_semantic_reservation_admission}
use reasoning_engine.Reducer.{RunState, call_error}
use reasoning_engine.Semantic.{
  SemanticRuntimePolicy, StructuredModelResult, success, reservation_for, call_record,
  call_payloads, is_over, charge, validated_status,
}
use reasoning_engine.Semantic.Accounting.{consistent_accounting}
use reasoning_engine.Semantic.Charge.{call_record-consistent_accounting}
use reasoning_engine.Semantic.Guards.{is_recorded, diagnostics_present, overage_with_other_status}
use reasoning_engine.Semantic.Batch.{to_admission, apply_payloads}
use reasoning_engine.Semantic.Outcome.{call_payloads-settle, call_payloads-refused}
use reasoning_engine.Tests.Reducer.{reducer}

abbrev policy : SemanticRuntimePolicy
policy = record {
  maximum_repair_attempts = 1;
  reserve_input_tokens = 4096;
  reserve_output_tokens = 2048;
}

abbrev reservation : BudgetReservation
reservation = reservation_for policy 5 9

-- The second number of tokens is above the reservation.
abbrev answer : StructuredModelResult ℕ
answer = record {
  status = success;
  raw_response = 70;
  decoded = 0;
  usage = record { input_tokens = none; output_tokens = some 3000; duration_ms = none };
  diagnostics = [];
}

abbrev valid_answer : ℕ → Result (List ℕ) ℕ
valid_answer decoded = ok 71

answer_over : is_over (charge answer.usage reservation.resources) reservation.resources ≡ true
unfolding is_over charge
answer_over = refl

call_record-consistent_accounting_example :
    consistent_accounting (call_record valid_answer reservation answer) ≡ true
call_record-consistent_accounting_example =
    call_record-consistent_accounting valid_answer policy 5 9 answer

abbrev waiting : RunState ℕ
waiting = record {
  run_id = 1;
  version = 3;
  budget = record {
    plan = none;
    policy_hash = none;
    committed = reservation.resources;
    reservations = reservation ∷ [];
    usage_events = [];
  };
  task_signature = none;
  pending_semantic_settlements = λ _. none;
  model_calls = [];
  artifacts = [];
}

call_payloads-settle_example :
    (validate_semantic_reservation_admission
        (map to_admission (call_payloads valid_answer reservation answer))
      ≡ ok tt)
    × (after : RunState ℕ) × (apply_payloads reducer waiting
          (call_payloads valid_answer reservation answer)
        ≡ ok after)
    × (is_recorded 9 after.model_calls ≡ true)
    × (usage : ResourceVector) × Covers reservation.resources usage
    × (settle waiting.budget 5 usage ≡ ok after.budget)
unfolding is_recorded is_over charge validated_status
call_payloads-settle_example =
    call_payloads-settle reducer valid_answer waiting reservation answer refl refl (λ e. refl) refl

-- Within the reservation, with a diagnostic.
abbrev warned : StructuredModelResult ℕ
warned = record answer {
  usage = record { input_tokens = some 10; output_tokens = some 20; duration_ms = none };
  diagnostics = 8 ∷ [];
}

call_payloads-refused_example :
    (validate_semantic_reservation_admission
        (map to_admission (call_payloads valid_answer reservation warned))
      ≡ ok tt)
    × ((apply_payloads reducer waiting (call_payloads valid_answer reservation warned)
          ≡ err (call_error diagnostics_present))
        ⊎ (apply_payloads reducer waiting (call_payloads valid_answer reservation warned)
            ≡ err (call_error overage_with_other_status)))
unfolding is_recorded is_over charge validated_status
call_payloads-refused_example =
    call_payloads-refused reducer valid_answer waiting reservation warned refl refl refl
