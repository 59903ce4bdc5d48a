-- ===== src/Semantic/Charge.antt =====
-- What `_invoke` of src/fre/semantic_runtime.py charges for a model call.
use reasoning_engine.Prelude.{
  ℕ, ◌≤◌, ◌≡◌, refl, ap, true, false, Option, none, some, List, ◌&&◌, ◌||◌, not, ltb, ◌==◌, ==-refl,
  Bool-cases, inl, inr, Result, arith,
}
use reasoning_engine.Budget.Types.{Resource, ResourceVector, getattr}
use reasoning_engine.Budget.Vectors.{any_resource_intro}
use reasoning_engine.Budget.Inversion.{Covers}
use reasoning_engine.Settlement.{same_usage}
use reasoning_engine.Semantic.{
  SemanticCallUsage, SemanticRuntimePolicy, StructuredModelResult, reservation_for, value_or,
  charge, is_over, charged_for, basis_of, is_known, call_record,
}
use reasoning_engine.Semantic.Accounting.{same_option, is_above, consistent_accounting}

-- What is charged is never more than what was reserved, resource by resource.
pub charged_for-Covers :
    (usage : SemanticCallUsage) (reserved : ResourceVector)
    → Covers reserved (charged_for usage reserved)
unfolding charged_for charge is_over getattr
charged_for-Covers usage reserved name =
    elim (Bool-cases (is_over (charge usage reserved) reserved)) [
      | inl e ↦ rw e (omega arith)
      | inr e ↦ rw e (within name e)
    ]
  where
    within :
        (name : Resource)
        → is_over (charge usage reserved) reserved ≡ false
        → getattr (charge usage reserved) name ≤ getattr reserved name
    within Resource.iterations e = omega arith
    within Resource.llm_calls e = ground (arith, e)
    within Resource.tool_calls e = omega arith
    within Resource.input_tokens e = ground (arith, e)
    within Resource.output_tokens e = ground (arith, e)
    within Resource.candidates e = omega arith
    within Resource.runtime_seconds e = omega arith

same_option_refl : (a : Option ℕ) → same_option a a ≡ true
same_option_refl none = refl
same_option_refl (some a) = ==-refl a

pub same_usage_refl : (a : ResourceVector) → same_usage a a ≡ true
unfolding same_usage
same_usage_refl a = ap not (
    any_resource_intro (λ name. not (getattr a name == getattr a name))
      (λ name. ap not (==-refl (getattr a name))))

-- The validator of the record never raises on what `_invoke` builds for its own reservation.
pub call_record-consistent_accounting :
    {J : Type 0} (model_validate_json : J → Result (List ℕ) ℕ) (policy : SemanticRuntimePolicy)
    (reservation_id identity : ℕ) (result : StructuredModelResult J)
    → consistent_accounting
        (call_record model_validate_json (reservation_for policy reservation_id identity) result)
      ≡ true
unfolding consistent_accounting call_record charged_for charge basis_of is_over
call_record-consistent_accounting model_validate_json policy reservation_id identity result =
    let usage = result.usage in
    let reserved = (reservation_for policy reservation_id identity).resources in
    rw (same_option_refl usage.input_tokens) (
      rw (same_option_refl usage.output_tokens) (
        rw (same_option_refl usage.duration_ms)
          (elim (Bool-cases (is_over (charge usage reserved) reserved)) [
            | inl e ↦
                rw e (
                  rw (same_usage_refl reserved) (over usage.input_tokens usage.output_tokens _ _ e))
            | inr e ↦ rw e (
                rw (same_usage_refl (charge usage reserved))
                  (elim (Bool-cases (is_known usage.input_tokens && is_known usage.output_tokens)) [
                    | inl k ↦ rw k refl
                    | inr k ↦ rw k refl
                  ]))
          ])))
  where
    over :
        (input output : Option ℕ) (ri ro : ℕ)
        → (ltb 1 1 || (ltb ri (value_or input ri) || ltb ro (value_or output ro))) ≡ true
        → (is_above input ri || is_above output ro) ≡ true
    over none none ri ro e = ground (arith, e)
    over none (some o) ri ro e = ground (arith, e)
    over (some i) none ri ro e = ground (arith, e)
    over (some i) (some o) ri ro e = ground (arith, e)
