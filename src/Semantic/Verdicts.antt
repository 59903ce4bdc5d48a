-- ===== src/Semantic/Verdicts.antt =====
-- How the model-call guards of src/fre/runtime/reducer.py judge the record that `_invoke` of
-- src/fre/semantic_runtime.py builds.
use reasoning_engine.Prelude.{
  ℕ, ◌≡◌, refl, Bool, true, false, some, List, nat_eq, ◌&&◌, ◌||◌, not, if◌then◌else◌, Bool-cases,
  ◌⊎◌, inl, inr, Result, ok, err, raise_if, arith,
}
use reasoning_engine.Budget.Types.{BudgetReservation}
use reasoning_engine.Semantic.{
  model_call_recorded, model_call_failed, StructuredModelResult, charge, is_over, is_success,
  is_invalid, validated_status, proposal_of, call_record, recorded,
}
use reasoning_engine.Semantic.Guards.{
  CallGuardError, is_nonempty, validate_success, validate_failure, diagnostics_present,
  overage_with_other_status,
}

validated-cases :
    (r : Result (List ℕ) ℕ)
    → ((digest : ℕ) × (r ≡ ok digest)) ⊎ ((errors : List ℕ) × (r ≡ err errors))
validated-cases (ok digest) = inl (digest, refl)
validated-cases (err errors) = inr (errors, refl)

module _ {J : Type 0} (model_validate_json : J → Result (List ℕ) ℕ) where
  -- A successful answer has a proposal.
  pub success_proposal :
      (result : StructuredModelResult J)
      → is_success (validated_status model_validate_json result).0 ≡ true
      → (digest : ℕ) × (proposal_of model_validate_json result ≡ some digest)
  unfolding validated_status proposal_of
  success_proposal result h = elim (Bool-cases (is_success result.status)) [
    | inl e ↦ elim (validated-cases (model_validate_json result.decoded)) [
      | inl (digest, v) ↦ (digest, rw (e, proposal_of) (rw v refl))
      | inr (errors, v) ↦ absurd (ground (arith, h, e, v))
    ]
    | inr e ↦ absurd (ground (arith, h, e))
  ]

  -- The answer over its reservation is a success or an invalid one, and a success that is recorded
  -- comes without diagnostics.
  abbrev pub is_accepted : BudgetReservation → StructuredModelResult J → Bool
  is_accepted reservation result =
      let (status, diagnostics) = validated_status model_validate_json result in
      if is_over (charge result.usage reservation.resources) reservation.resources
      then is_success status || is_invalid status
      else not (is_success status && is_nonempty diagnostics)

  -- what the guards of its event say of the record of an answer
  abbrev pub verdict :
      BudgetReservation → StructuredModelResult J → Result CallGuardError (Unit {0})
  verdict reservation result =
      let (status, diagnostics) = validated_status model_validate_json result in
      if is_over (charge result.usage reservation.resources) reservation.resources
      then raise_if (not (is_success status || is_invalid status)) overage_with_other_status
      else raise_if (is_success status && is_nonempty diagnostics) diagnostics_present

  module _ (reservation : BudgetReservation) (result : StructuredModelResult J) where
    abbrev pub over : Bool
    over = is_over (charge result.usage reservation.resources) reservation.resources

    abbrev pub succeeded : Bool
    succeeded = is_success (validated_status model_validate_json result).0

    pub success_verdict :
        over ≡ false
        → succeeded ≡ true
        → validate_success (call_record model_validate_json reservation result)
          ≡ verdict reservation result
    unfolding validate_success call_record
    success_verdict o e = rw e (rw o refl)

    pub over-verdict :
        over ≡ true
        → validate_failure (call_record model_validate_json reservation result)
          ≡ verdict reservation result
    unfolding validate_failure call_record
    over-verdict o = rw o (elim (Bool-cases succeeded) [ inl e ↦ rw e refl | inr e ↦ rw e refl ])

    pub failure_verdict :
        over ≡ false
        → succeeded ≡ false
        → validate_failure (call_record model_validate_json reservation result)
          ≡ verdict reservation result
    unfolding validate_failure call_record
    failure_verdict o e = rw e (rw o refl)

    pub recorded-success :
        over ≡ false
        → succeeded ≡ true
        → recorded model_validate_json reservation result
          ≡ model_call_recorded (call_record model_validate_json reservation result)
    unfolding recorded call_record
    recorded-success o e = rw e (rw o refl)

    pub recorded-failure :
        (over ≡ true) ⊎ (succeeded ≡ false)
        → recorded model_validate_json reservation result
          ≡ model_call_failed (call_record model_validate_json reservation result)
    unfolding recorded call_record
    recorded-failure (inl o) =
        rw o (elim (Bool-cases succeeded) [ inl e ↦ rw e refl | inr e ↦ rw e refl ])
    recorded-failure (inr e) = rw e refl
