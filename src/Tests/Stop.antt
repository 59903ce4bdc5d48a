-- ===== src/Tests/Stop.antt =====
-- The stop controller of src/fre/modules/m13_stop.py on concrete inputs.
use reasoning_engine.Prelude.{
  ℕ, ◌≡◌, refl, true, false, none, some, [], ◌∷◌, ◌⊎◌, inl, inr, any, ok, err, sort_by, ◌+◌, arith,
}
use reasoning_engine.Budget.Types.{BudgetRemaining}
use reasoning_engine.Stop.Types.{
  StopDisposition, partial_budget, failed_invariant, cancelled, AcceptanceStatus, ValidationStatus,
  IntervalEstimate, MarginalValueEstimate, StopPolicy, StopInputs, StopDecision,
  missing_required_context,
}
use reasoning_engine.Stop.Controller.{
  exhausted, judge, validate, decision_of, evaluate, is_epistemic,
}
use reasoning_engine.Stop.Safety.{IsComplete, complete_safe, exhausted_stops, evaluate_outcome}
use reasoning_engine.Stop.Estimates.{IsOrdered, Improves, evaluate-Improves}
use reasoning_engine.Tests.Plans.{whole}

abbrev left : ℕ → BudgetRemaining
left n = record {
  resources = record {
    iterations = n;
    llm_calls = 1;
    tool_calls = 1;
    input_tokens = 1;
    output_tokens = 1;
    candidates = 1;
    runtime_seconds = 1;
  };
  active_concurrent_actions = 0;
  projection_hash = 7;
}

abbrev policy : StopPolicy ℕ
policy = record {
  version = "stop/1.0";
  stop_threshold = 5;
  continue_on_overlap = false;
  stability_window = 2;
}

abbrev cost : IntervalEstimate ℕ
cost = record { lower = 10; point = none; upper = 20; method_version = "c"; source_refs = [] }

abbrev worth : ℕ → MarginalValueEstimate ℕ
worth n = record {
  estimate = record {
    lower = n;
    point = none;
    upper = n + 10;
    method_version = "v";
    source_refs = 3 ∷ [];
  };
  confidence = record {
    score = none;
    level = some "LOW";
    method = "m";
    calibration_group = none;
    evidence_independence_groups = [];
    explanation = "e";
  };
  ledger_refs = [];
}

abbrev inputs : StopInputs ℕ
inputs = record {
  budget = left 3;
  acceptance = AcceptanceStatus.pending;
  validation = ValidationStatus.complete;
  cancelled = false;
  invariant_failure = false;
  required_work = false;
  executable_work = true;
  blocker_required = false;
  blocker_resolvable = false;
  mandatory_action = false;
  stable = true;
  value = some (worth 30);
  cost = some cost;
  burn_rate = none;
  epistemic_trigger_refs = [];
}

abbrev improved : StopInputs ℕ
improved = record inputs { value = some (worth 40) }

abbrev done : StopInputs ℕ
done = record inputs { acceptance = AcceptanceStatus.satisfied }

abbrev spent : StopInputs ℕ
spent = record inputs { budget = left 0; required_work = true }

evaluate_run :
    (i : StopInputs ℕ)
    → any is_epistemic (judge whole i policy).1 ≡ false
    → (d : StopDecision) × (evaluate whole i policy ≡ ok d)
      × (d.disposition ≡ (judge whole i policy).0)
evaluate_run i h = elim (evaluate_outcome whole i policy) [
  | inl (e, _, _) ↦ cc
  | inr (d, r, _, q) ↦ (d, r, q)
]

done_run : evaluate whole done policy ≡ ok (decision_of done policy (judge whole done policy))
unfolding evaluate sort_by
done_run = refl

spent_run : evaluate whole spent policy ≡ ok (decision_of spent policy (judge whole spent policy))
unfolding evaluate sort_by
spent_run = refl

inputs_run :
    evaluate whole inputs policy ≡ ok (decision_of inputs policy (judge whole inputs policy))
unfolding evaluate sort_by
inputs_run = refl

improved_run :
    evaluate whole improved policy ≡ ok (decision_of improved policy (judge whole improved policy))
unfolding evaluate sort_by
improved_run = refl

done_disposition :
    (decision_of done policy (judge whole done policy)).disposition ≡ StopDisposition.complete
unfolding decision_of judge
done_disposition = refl

inputs_disposition :
    (decision_of inputs policy (judge whole inputs policy)).disposition ≡ StopDisposition.continue
unfolding decision_of judge
inputs_disposition = refl

spent-exhausted : exhausted spent ≡ true
unfolding exhausted
spent-exhausted = refl

complete_safe_example : IsComplete whole done policy
complete_safe_example =
    complete_safe whole done policy (decision_of done policy (judge whole done policy)) done_run
      done_disposition

exhausted_stops_example :
    ((decision_of spent policy (judge whole spent policy)).disposition ≡ cancelled)
    ⊎ ((decision_of spent policy (judge whole spent policy)).disposition ≡ failed_invariant)
    ⊎ ((decision_of spent policy (judge whole spent policy)).disposition ≡ partial_budget)
exhausted_stops_example =
    exhausted_stops whole spent policy (decision_of spent policy (judge whole spent policy))
      spent_run spent-exhausted refl

evaluate_outcome_example :
    ((any is_epistemic (judge whole inputs policy).1 ≡ true)
      × (inputs.epistemic_trigger_refs ≡ [])
      × (evaluate whole inputs policy ≡ err missing_required_context))
    ⊎ ((d : StopDecision) × (evaluate whole inputs policy ≡ ok d)
        × (validate d ≡ true)
        × (d.disposition ≡ (judge whole inputs policy).0))
evaluate_outcome_example = evaluate_outcome whole inputs policy

whole-IsOrdered : IsOrdered whole
whole-IsOrdered = record {
  le_trans = λ x y z h k. ground arith;
  lt_of_le_of_lt = λ x y z h k. ground arith;
}

worth-Improves : Improves whole whole-IsOrdered (worth 30) (worth 40)
worth-Improves = record { lower = refl; upper = refl }

evaluate-Improves_example :
    (decision_of improved policy (judge whole improved policy)).disposition
    ≡ StopDisposition.continue
evaluate-Improves_example =
    evaluate-Improves whole whole-IsOrdered policy inputs (worth 30) (worth 40)
      (decision_of inputs policy (judge whole inputs policy))
      (decision_of improved policy (judge whole improved policy)) worth-Improves inputs_run
      improved_run inputs_disposition
