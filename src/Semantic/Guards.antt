-- ===== src/Semantic/Guards.antt =====
-- The guards of the four model-call branches of `RunReducer.apply` of src/fre/runtime/reducer.py, on
-- the record, the records already in the state and the artifacts registered in it.
use reasoning_engine.Prelude.{
  ℕ, Bool, true, false, Option, none, some, List, [], ◌∷◌, ◌&&◌, ◌||◌, not, any, mem, nat_eq, ◌==◌,
  Result, ◌>>◌, raise_if,
}
use reasoning_engine.Semantic.{
  CallIdentity, CallRecord, is_success, is_invalid, is_provider_overage, is_absent,
}

-- One for each `ValueError`.
pub data CallGuardError : Type 0 where
  identity_already_recorded artifacts_required artifact_not_registered : CallGuardError
  success_status_required accounting_condition_present diagnostics_present : CallGuardError
  success_without_override overage_with_other_status proposal_not_valid : CallGuardError

abbrev pub lacks_artifact : Option ℕ → Bool
lacks_artifact none = true
lacks_artifact (some _) = false

-- `artifact is not None and artifact.sha256 not in state.artifacts`
abbrev pub is_unregistered : List ℕ → Option ℕ → Bool
is_unregistered artifacts none = false
is_unregistered artifacts (some digest) = not (mem digest artifacts)

abbrev pub is_nonempty : List ℕ → Bool
is_nonempty [] = false
is_nonempty (_ ∷ _) = true

-- `_find_model_call_by_idempotency_key(state, key) is not None`
unfoldable pub is_recorded : ℕ → List CallIdentity → Bool
is_recorded key calls = any (λ (c : CallIdentity). c.idempotency_key == key) calls

-- `_validate_model_call_common`; the Boolean says that the payload is one of a recorded call
unfoldable pub validate_common :
    Bool → List CallIdentity → List ℕ → CallIdentity → Result CallGuardError (Unit {0})
unfolding is_recorded
validate_common recorded calls artifacts identity = do
  raise_if (is_recorded identity.idempotency_key calls) identity_already_recorded
  raise_if
      (recorded
        && (lacks_artifact identity.raw_artifact || lacks_artifact identity.proposal_artifact))
      artifacts_required
  raise_if
      (is_unregistered artifacts identity.raw_artifact
        || is_unregistered artifacts identity.proposal_artifact)
      artifact_not_registered

-- the guards of `ModelCallRecordedV2`
unfoldable pub validate_success : CallRecord → Result CallGuardError (Unit {0})
validate_success r = do
  raise_if (not (is_success r.status)) success_status_required
  raise_if (not (is_absent r.accounting_condition)) accounting_condition_present
  raise_if (is_nonempty r.validation_diagnostics) diagnostics_present

-- the guards of `ModelCallFailedV2`
unfoldable pub validate_failure : CallRecord → Result CallGuardError (Unit {0})
validate_failure r = do
  raise_if (is_success r.status && not (is_provider_overage r.accounting_condition))
      success_without_override
  raise_if
      (is_provider_overage r.accounting_condition
        && not (is_success r.status || is_invalid r.status))
      overage_with_other_status

-- The parameter says whether the stored proposal of a record validates against the schema that the
-- record names.
unfoldable pub validate_proposal :
    (CallRecord → Bool) → CallRecord → Result CallGuardError (Unit {0})
validate_proposal proposal_validates r =
    raise_if
      (is_success r.status
        && (not (lacks_artifact r.identity.proposal_artifact) && not (proposal_validates r)))
      proposal_not_valid
