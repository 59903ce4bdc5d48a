-- ===== src/Stop/Controller.antt =====
-- `StopController.evaluate` of src/fre/modules/m13_stop.py, and the validator that its result meets.
use reasoning_engine.Prelude.{
  option_map, ℕ, Bool, true, false, Option, none, some, List, [], ◌∷◌, ◌&&◌, not, any, leb, ◌==◌,
  if◌then◌else◌, Result, ok, ◌>>◌, raise_if, sort_by, map, FloatOps,
}
use reasoning_engine.Budget.Burn.{BudgetBurnRate}
use reasoning_engine.Ledger.Types.{LedgerNodeRef, ref_le}
use reasoning_engine.Stop.Types.{
  StopDisposition, StopReasonCode, code_rank, reason_text, AcceptanceStatus, ValidationStatus,
  IntervalEstimate, MarginalValueEstimate, StopPolicy, StopInputs, CompilerProfile,
  ContextCompilationRequest, StopDecision, StopError, partial_budget, blocked, failed_invariant,
  cancelled_reason, hard_budget_exhausted, unresolvable_blocker, mandatory_validation,
  resolvable_unknown, acceptance_failed, acceptance_complete, optional_work_valuable,
  optional_work_uncertain, optional_work_not_valuable, no_executable_work, handoff,
  missing_required_context, validation_error,
}

abbrev pub is_satisfied : AcceptanceStatus → Bool
is_satisfied AcceptanceStatus.satisfied = true
is_satisfied _ = false

abbrev pub is_failed : AcceptanceStatus → Bool
is_failed AcceptanceStatus.failed = true
is_failed _ = false

abbrev pub is_required : ValidationStatus → Bool
is_required ValidationStatus.required = true
is_required _ = false

abbrev pub is_terminal : StopDisposition → Bool
is_terminal StopDisposition.continue = false
is_terminal _ = true

-- `EPISTEMIC_REASONS`
abbrev pub is_epistemic : StopReasonCode → Bool
is_epistemic unresolvable_blocker = true
is_epistemic resolvable_unknown = true
is_epistemic _ = false

abbrev pub Verdict : Type 0
Verdict = StopDisposition × List StopReasonCode

unfoldable pub exhausted : {F : Type 0} → StopInputs F → Bool
exhausted inputs = inputs.budget.resources.iterations == 0

module _ {F : Type 0} (float : FloatOps F) where
  -- the branches on the two intervals
  unfoldable pub weigh : StopPolicy F → MarginalValueEstimate F → IntervalEstimate F → Verdict
  weigh policy value cost =
      if float.le (float.add cost.upper policy.stop_threshold) value.lower
      then (StopDisposition.continue, optional_work_valuable ∷ [])
      else if float.lt value.upper (float.add cost.lower policy.stop_threshold)
      then (StopDisposition.complete, optional_work_not_valuable ∷ [])
      else if policy.continue_on_overlap
      then (StopDisposition.continue, optional_work_uncertain ∷ [])
      else (StopDisposition.complete, optional_work_uncertain ∷ [])

  -- the last three branches
  unfoldable pub settle_rest : StopInputs F → Verdict
  settle_rest inputs =
      if inputs.executable_work
      then (StopDisposition.continue, optional_work_uncertain ∷ [])
      else if is_satisfied inputs.acceptance && inputs.stable
      then (StopDisposition.complete, acceptance_complete ∷ [])
      else (blocked, no_executable_work ∷ [])

  -- the branches from the intervals on
  unfoldable pub weigh_work :
      StopPolicy F
      → StopInputs F
      → Option (MarginalValueEstimate F)
      → Option (IntervalEstimate F)
      → Verdict
  unfolding weigh settle_rest
  weigh_work policy inputs none cost = settle_rest inputs
  weigh_work policy inputs (some value) none = settle_rest inputs
  weigh_work policy inputs (some value) (some cost) =
      if inputs.executable_work then weigh policy value cost else settle_rest inputs

  -- the branch of a failed acceptance
  unfoldable pub failed_acceptance : StopInputs F → Verdict
  unfolding exhausted
  failed_acceptance inputs =
      if exhausted inputs
      then (partial_budget, hard_budget_exhausted ∷ acceptance_failed ∷ [])
      else if inputs.executable_work
      then (StopDisposition.continue, acceptance_failed ∷ [])
      else (blocked, acceptance_failed ∷ no_executable_work ∷ [])

  -- the chain of tests of `evaluate`
  unfoldable pub judge : StopInputs F → StopPolicy F → Verdict
  unfolding exhausted failed_acceptance weigh_work
  judge inputs policy =
      if inputs.cancelled
      then (StopDisposition.cancelled, cancelled_reason ∷ [])
      else if inputs.invariant_failure
      then (failed_invariant, StopReasonCode.invariant_failure ∷ [])
      else if is_satisfied inputs.acceptance
          && (not (is_required inputs.validation) && (not inputs.required_work && inputs.stable))
      then (StopDisposition.complete, acceptance_complete ∷ [])
      else if exhausted inputs && inputs.required_work
      then (partial_budget, hard_budget_exhausted ∷ [])
      else if inputs.blocker_required && not inputs.blocker_resolvable
      then (blocked, unresolvable_blocker ∷ [])
      else if inputs.mandatory_action
      then (StopDisposition.continue, StopReasonCode.mandatory_action ∷ [])
      else if is_required inputs.validation
      then (StopDisposition.continue, mandatory_validation ∷ [])
      else if inputs.blocker_resolvable
      then (StopDisposition.continue, resolvable_unknown ∷ [])
      else if is_failed inputs.acceptance
      then failed_acceptance inputs
      else weigh_work policy inputs inputs.value inputs.cost

abbrev pub is_empty : {A : Type 0} → List A → Bool
is_empty [] = true
is_empty (_ ∷ _) = false

abbrev pub value_refs : {F : Type 0} → Option (MarginalValueEstimate F) → List ℕ
value_refs none = []
value_refs (some value) = sort_by leb value.source_refs

abbrev pub value_ledger_refs : {F : Type 0} → Option (MarginalValueEstimate F) → List LedgerNodeRef
value_ledger_refs none = []
value_ledger_refs (some value) = sort_by ref_le value.ledger_refs

abbrev pub cost_refs : {F : Type 0} → Option (IntervalEstimate F) → List ℕ
cost_refs none = []
cost_refs (some cost) = sort_by leb cost.source_refs

-- the request of a terminal decision
unfoldable pub handoff_request : StopDisposition → Option ContextCompilationRequest
handoff_request disposition =
    if is_terminal disposition
    then some (record { profile = handoff; size_target = 32768; terminal = true })
    else none

abbrev pub is_handoff : CompilerProfile → Bool
is_handoff handoff = true
is_handoff _ = false

-- `context_request` is there just if the decision is terminal, and asks for a terminal HANDOFF.
unfoldable pub request_fits : StopDisposition → Option ContextCompilationRequest → Bool
request_fits disposition none = not (is_terminal disposition)
request_fits disposition (some request) =
    is_terminal disposition && (request.terminal && is_handoff request.profile)

-- `StopDecision.validate_terminal_and_epistemic_provenance`
unfoldable pub validate : StopDecision → Bool
unfolding request_fits
validate decision =
    request_fits decision.disposition decision.context_request
    && not (any is_epistemic decision.reason_codes && is_empty decision.ledger_trigger_refs)

-- the decision that `evaluate` returns
unfoldable pub decision_of : {F : Type 0} → StopInputs F → StopPolicy F → Verdict → StopDecision
unfolding handoff_request reason_text
decision_of {F} inputs policy verdict =
    let ordered = sort_by (λ a b. leb (code_rank a) (code_rank b)) verdict.1 in
    record {
      disposition = verdict.0;
      policy_version = policy.version;
      reason_codes = ordered;
      reasons = map reason_text ordered;
      ledger_trigger_refs = sort_by ref_le inputs.epistemic_trigger_refs;
      budget_projection_hash = inputs.budget.projection_hash;
      burn_rate_projection_hash =
          option_map (λ (b : BudgetBurnRate F). b.projection_hash) inputs.burn_rate;
      marginal_value_method =
          option_map (λ (v : MarginalValueEstimate F). v.estimate.method_version) inputs.value;
      marginal_value_source_refs = value_refs inputs.value;
      marginal_value_ledger_refs = value_ledger_refs inputs.value;
      cost_method = option_map (λ (c : IntervalEstimate F). c.method_version) inputs.cost;
      cost_source_refs = cost_refs inputs.cost;
      context_request = handoff_request verdict.0;
    }

unfoldable pub evaluate :
    {F : Type 0} → FloatOps F → StopInputs F → StopPolicy F → Result StopError StopDecision
unfolding judge decision_of validate
evaluate float inputs policy = do
  let verdict = judge float inputs policy
  raise_if (any is_epistemic verdict.1 && is_empty inputs.epistemic_trigger_refs)
      missing_required_context
  let decision = decision_of inputs policy verdict
  raise_if (not (validate decision)) validation_error
  ok decision
