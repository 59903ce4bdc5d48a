-- ===== src/Semantic/Accounting.antt =====
-- The validator of `SemanticModelCallRecordV2` of src/fre/domain/semantic.py.
use reasoning_engine.Prelude.{
  ℕ, Bool, true, false, Option, none, some, ◌&&◌, ◌||◌, ltb, ◌==◌, if◌then◌else◌,
}
use reasoning_engine.Settlement.{same_usage}
use reasoning_engine.Semantic.{
  SemanticChargeBasis, reported_usage, conservative_reserved_capacity,
  reservation_cap_on_provider_overage, CallRecord, call_vector, is_provider_overage, is_absent,
}

-- `a == b` of two optional numbers
abbrev pub same_option : Option ℕ → Option ℕ → Bool
same_option none none = true
same_option none (some _) = false
same_option (some _) none = false
same_option (some a) (some b) = a == b

abbrev pub basis_rank : SemanticChargeBasis → ℕ
basis_rank reported_usage = 0
basis_rank conservative_reserved_capacity = 1
basis_rank reservation_cap_on_provider_overage = 2

abbrev pub is_above : Option ℕ → ℕ → Bool
is_above none limit = false
is_above (some value) limit = ltb limit value

-- `consistent_accounting`: whether the record passes
unfoldable pub consistent_accounting : CallRecord → Bool
consistent_accounting r =
    (same_option r.usage.input_tokens r.reported_usage.input_tokens
      && (same_option r.usage.output_tokens r.reported_usage.output_tokens
          && same_option r.usage.duration_ms r.reported_usage.duration_ms))
    && (same_usage r.charged_usage (
          call_vector r.policy_charge.llm_calls r.policy_charge.input_tokens
            r.policy_charge.output_tokens)
        && ((basis_rank r.policy_charge.basis == basis_rank r.charge_basis)
            && (if basis_rank r.charge_basis == 2
                then is_provider_overage r.accounting_condition
                  && (is_above r.reported_usage.input_tokens r.charged_usage.input_tokens
                      || is_above r.reported_usage.output_tokens r.charged_usage.output_tokens)
                else is_absent r.accounting_condition)))
