-- ===== src/Semantic.antt =====
-- The accounting of a model call in `SemanticModelRuntime._invoke` of src/fre/semantic_runtime.py and the
-- payloads that it appends, with the contracts of src/fre/domain/semantic.py. The request, the prompts,
-- and the fields of the record that only name them are left out.
pub mod Guards
pub mod Charge
pub mod Batch
pub mod Accounting
pub mod Steps
pub mod Verdicts
pub mod Outcome
use reasoning_engine.Prelude.{
  ℕ, Bool, true, false, Option, none, some, List, [], ◌∷◌, ◌++◌, ◌&&◌, ◌||◌, not, ltb, ◌==◌,
  if◌then◌else◌, Result, ok, err,
}
use reasoning_engine.Budget.Types.{ResourceVector, BudgetReservation}
use reasoning_engine.Settlement.{same_usage}

pub data StructuredModelStatus : Type 0 where
  success invalid_structured_output unavailable : StructuredModelStatus
  transient_failure permanent_failure : StructuredModelStatus

pub data SemanticChargeBasis : Type 0 where
  reported_usage conservative_reserved_capacity : SemanticChargeBasis
  reservation_cap_on_provider_overage : SemanticChargeBasis

pub data SemanticAccountingCondition : Type 0 where
  usage_exceeds_reservation provider_usage_exceeded_reservation : SemanticAccountingCondition

pub record SemanticCallUsage : Type 0 where
  pub input_tokens : Option ℕ
  pub output_tokens : Option ℕ
  pub duration_ms : Option ℕ

pub record SemanticCallCharge : Type 0 where
  pub llm_calls : ℕ
  pub input_tokens : ℕ
  pub output_tokens : ℕ
  pub basis : SemanticChargeBasis

-- `SemanticRuntimePolicy`
pub record SemanticRuntimePolicy : Type 0 where
  pub maximum_repair_attempts : ℕ
  pub reserve_input_tokens : ℕ
  pub reserve_output_tokens : ℕ

-- `raw_response` is the digest under which the response is stored, `decoded` the JSON value that the
-- adapter returns, a diagnostic its number.
pub record StructuredModelResult (J : Type 0) : Type 0 where
  pub status : StructuredModelStatus
  pub raw_response : ℕ
  pub decoded : J
  pub usage : SemanticCallUsage
  pub diagnostics : List ℕ

-- The fields of `SemanticModelCallRecord` that the two versions of a record share and that the
-- reducer tests in both; an artifact is its digest.
pub record CallIdentity : Type 0 where
  pub idempotency_key : ℕ
  pub raw_artifact : Option ℕ
  pub proposal_artifact : Option ℕ

-- The fields of `SemanticModelCallRecordV2` on identity, artifacts, status and accounting.
pub record CallRecord : Type 0 where
  pub identity : CallIdentity
  pub status : StructuredModelStatus
  pub usage : SemanticCallUsage
  pub policy_charge : SemanticCallCharge
  pub accounting_condition : Option SemanticAccountingCondition
  pub validation_diagnostics : List ℕ
  pub reservation_id : ℕ
  pub reported_usage : SemanticCallUsage
  pub charged_usage : ResourceVector
  pub charge_basis : SemanticChargeBasis

-- The payloads of `_invoke` after the call; a registration is that of the digest.
pub data CallPayload : Type 0 where
  artifact_registered : ℕ → CallPayload
  budget_reservation_settled : ℕ → ResourceVector → CallPayload
  model_call_recorded model_call_failed : CallRecord → CallPayload

-- `ResourceVector(llm_calls=..., input_tokens=..., output_tokens=...)`
abbrev pub call_vector : ℕ → ℕ → ℕ → ResourceVector
call_vector calls input output = record {
  iterations = 0;
  llm_calls = calls;
  tool_calls = 0;
  input_tokens = input;
  output_tokens = output;
  candidates = 0;
  runtime_seconds = 0;
}

abbrev pub reservation_for : SemanticRuntimePolicy → ℕ → ℕ → BudgetReservation
reservation_for policy reservation_id identity = record {
  reservation_id = reservation_id;
  action_id = identity;
  resources = call_vector 1 policy.reserve_input_tokens policy.reserve_output_tokens;
}

-- `value if value is not None else default`
abbrev pub value_or : Option ℕ → ℕ → ℕ
value_or none default = default
value_or (some value) default = value

-- `_charge`
unfoldable pub charge : SemanticCallUsage → ResourceVector → ResourceVector
charge usage reserved =
    call_vector 1 (value_or usage.input_tokens reserved.input_tokens)
      (value_or usage.output_tokens reserved.output_tokens)

-- whether the call used more than was reserved
unfoldable pub is_over : ResourceVector → ResourceVector → Bool
is_over actual reserved =
    ltb reserved.llm_calls actual.llm_calls
    || (ltb reserved.input_tokens actual.input_tokens
        || ltb reserved.output_tokens actual.output_tokens)

abbrev pub is_known : Option ℕ → Bool
is_known none = false
is_known (some _) = true

unfoldable pub charged_for : SemanticCallUsage → ResourceVector → ResourceVector
charged_for usage reserved =
    if is_over (charge usage reserved) reserved then reserved else charge usage reserved

unfoldable pub basis_of : SemanticCallUsage → ResourceVector → SemanticChargeBasis
basis_of usage reserved =
    if is_over (charge usage reserved) reserved
    then reservation_cap_on_provider_overage
    else if is_known usage.input_tokens && is_known usage.output_tokens
    then reported_usage
    else conservative_reserved_capacity

abbrev pub condition_for : SemanticCallUsage → ResourceVector → Option SemanticAccountingCondition
condition_for usage reserved =
    if is_over (charge usage reserved) reserved
    then some provider_usage_exceeded_reservation
    else none

abbrev pub is_success : StructuredModelStatus → Bool
is_success success = true
is_success _ = false

abbrev pub is_invalid : StructuredModelStatus → Bool
is_invalid invalid_structured_output = true
is_invalid _ = false

-- The parameter stands for `model_validate_json`: the digest of the proposal, or the diagnostics of the
-- exception where it raises.
module _ {J : Type 0} (model_validate_json : J → Result (List ℕ) ℕ) where
  -- the status and the diagnostics once the answer is validated
  unfoldable pub validated_status : StructuredModelResult J → StructuredModelStatus × List ℕ
  validated_status result =
      if is_success result.status
      then elim (model_validate_json result.decoded) [
        | ok _ ↦ (success, result.diagnostics)
        | err errors ↦ (invalid_structured_output, result.diagnostics ++ errors)
      ]
      else (result.status, result.diagnostics)

  -- `proposal_ref`
  unfoldable pub proposal_of : StructuredModelResult J → Option ℕ
  proposal_of result =
      if is_success result.status
      then elim (model_validate_json result.decoded) [ ok digest ↦ some digest | err _ ↦ none ]
      else none

  -- A reservation's `action_id` is the identity of the call.
  unfoldable pub call_record : BudgetReservation → StructuredModelResult J → CallRecord
  call_record reservation result =
      let charged = charged_for result.usage reservation.resources in
      let basis = basis_of result.usage reservation.resources in
      record {
        identity = record {
          idempotency_key = reservation.action_id;
          raw_artifact = some result.raw_response;
          proposal_artifact = proposal_of result;
        };
        status = (validated_status result).0;
        usage = result.usage;
        policy_charge = record {
          llm_calls = 1;
          input_tokens = charged.input_tokens;
          output_tokens = charged.output_tokens;
          basis = basis;
        };
        accounting_condition = condition_for result.usage reservation.resources;
        validation_diagnostics = (validated_status result).1;
        reservation_id = reservation.reservation_id;
        reported_usage = result.usage;
        charged_usage = charged;
        charge_basis = basis;
      }

  -- `registrations`
  unfoldable pub registrations : StructuredModelResult J → List CallPayload
  registrations result =
      artifact_registered result.raw_response
      ∷ elim (proposal_of result) [ none ↦ [] | some digest ↦ artifact_registered digest ∷ [] ]

  unfoldable pub recorded : BudgetReservation → StructuredModelResult J → CallPayload
  recorded reservation result =
      let r = call_record reservation result in
      if is_success r.status
        && not (is_over (charge result.usage reservation.resources) reservation.resources)
      then model_call_recorded r
      else model_call_failed r

  -- the payloads that `_invoke` appends after the call
  unfoldable pub call_payloads : BudgetReservation → StructuredModelResult J → List CallPayload
  unfolding call_record registrations recorded
  call_payloads reservation result =
      registrations result
      ++ budget_reservation_settled reservation.reservation_id
          (call_record reservation result).charged_usage
        ∷ recorded reservation result
        ∷ []

abbrev pub is_provider_overage : Option SemanticAccountingCondition → Bool
is_provider_overage (some provider_usage_exceeded_reservation) = true
is_provider_overage (some usage_exceeds_reservation) = false
is_provider_overage none = false

abbrev pub is_absent : Option SemanticAccountingCondition → Bool
is_absent none = true
is_absent (some _) = false
