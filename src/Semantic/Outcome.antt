-- ===== src/Semantic/Outcome.antt =====
-- What the reducer of src/fre/runtime/reducer.py makes of the batch that `_invoke` of
-- src/fre/semantic_runtime.py appends after a model call.
use reasoning_engine.Prelude.{
  ℕ, ◌≡◌, refl, ap, ◌∙◌, true, false, some, List, [], ◌∷◌, map, find, nat_eq, ◌==◌, Bool-cases, ◌⊎◌,
  inl, inr, Result, ok, err, ◌>>=◌, ◌>>◌, arith,
}
use reasoning_engine.Budget.Types.{ResourceVector, BudgetReservation, BudgetProjection}
use reasoning_engine.Budget.Meter.{settle}
use reasoning_engine.Budget.Inversion.{Covers}
use reasoning_engine.Budget.Trips.{settle_covered}
use reasoning_engine.Settlement.{validate_semantic_reservation_admission}
use reasoning_engine.Reducer.{
  RunError, RunState, RunReducer, call_error, note_call, note_settlement, settle_call,
  apply_payload, guarded,
}
use reasoning_engine.Semantic.{
  is_success, validated_status, budget_reservation_settled, model_call_failed, CallRecord,
  StructuredModelResult, charged_for, proposal_of, call_record, recorded, call_payloads,
}
use reasoning_engine.Semantic.Guards.{
  is_recorded, validate_common, validate_failure, diagnostics_present, overage_with_other_status,
}
use reasoning_engine.Semantic.Charge.{charged_for-Covers}
use reasoning_engine.Semantic.Batch.{to_admission, to_run, apply_payloads, payloads-admitted}
use reasoning_engine.Semantic.Steps.{
  failed_common, recorded_common, recorded-last, used_up, settled_state, registered,
  registrations-applied, settle_call-settled, recorded_step, failed_step,
}
use reasoning_engine.Semantic.Verdicts.{
  success_proposal, is_accepted, verdict, over, succeeded, success_verdict, over-verdict,
  failure_verdict, recorded-success, recorded-failure,
}

module _ {F J : Type 0} (reducer : RunReducer F) (model_validate_json : J → Result (List ℕ) ℕ) where
  module _ (state : RunState F) (reservation : BudgetReservation) (result : StructuredModelResult J)
      (budget : BudgetProjection F)
      (new : is_recorded reservation.action_id state.model_calls ≡ false) where
    -- the state in which the reducer finds the record of the call
    abbrev reached : RunState F
    reached =
        settled_state
          (registered state result.raw_response (proposal_of model_validate_json result))
          reservation.reservation_id (charged_for result.usage reservation.resources) budget

    -- what is left to do with the record, if its guards let it pass
    abbrev ended : Result RunError (RunState F)
    ended =
        guarded (verdict model_validate_json reservation result)
        >> settle_call reducer reached (call_record model_validate_json reservation result)

    abbrev finished : RunState F
    finished =
        note_call (call_record model_validate_json reservation result).identity
          (used_up reached reservation.reservation_id)

    recorded-taken :
        apply_payload reducer reached (to_run (recorded model_validate_json reservation result))
        ≡ ended
    unfolding to_run note_settlement call_record
    recorded-taken = elim (Bool-cases (over model_validate_json reservation result)) [
      | inl o ↦
          failed (recorded-failure model_validate_json reservation result (inl o))
            (over-verdict model_validate_json reservation result o)
      | inr o ↦ elim (Bool-cases (succeeded model_validate_json reservation result)) [
        | inl e ↦ rw (recorded-success model_validate_json reservation result o e) (
            recorded_step reducer reached r (common (success_proposal model_validate_json result e))
            ∙ ap (λ v. guarded v >> settle_call reducer reached r)
                (success_verdict model_validate_json reservation result o e))
        | inr e ↦
            failed (recorded-failure model_validate_json reservation result (inr e))
              (failure_verdict model_validate_json reservation result o e)
      ]
    ]
      where
        r : CallRecord
        r = call_record model_validate_json reservation result

        common :
            (digest : ℕ) × (proposal_of model_validate_json result ≡ some digest)
            → validate_common true reached.model_calls reached.artifacts r.identity ≡ ok tt
        common (digest, p) = rw p (
            recorded_common state.model_calls state.artifacts reservation.action_id
              result.raw_response digest new)

        failed :
            recorded model_validate_json reservation result ≡ model_call_failed r
            → validate_failure r ≡ verdict model_validate_json reservation result
            → apply_payload reducer reached
                (to_run (recorded model_validate_json reservation result))
              ≡ ended
        failed is judged = rw is (
            failed_step reducer reached r (
              failed_common state.model_calls state.artifacts reservation.action_id
                result.raw_response (proposal_of model_validate_json result) new)
            ∙ ap (λ v. guarded v >> settle_call reducer reached r) judged)

    call_payloads-applied :
        settle state.budget reservation.reservation_id
            (charged_for result.usage reservation.resources)
          ≡ ok budget
        → apply_payloads reducer state (call_payloads model_validate_json reservation result)
          ≡ ended
    unfolding call_payloads apply_payloads to_run apply_payload call_record note_settlement
    call_payloads-applied settles =
        registrations-applied reducer model_validate_json state result _ ∙ ending
      where
        entered : RunState F
        entered = registered state result.raw_response (proposal_of model_validate_json result)

        returned : (m : Result RunError (RunState F)) → (m >>= λ (s : RunState F). ok s) ≡ m
        returned (ok _) = refl
        returned (err _) = refl

        ending :
            apply_payloads reducer entered (
              budget_reservation_settled reservation.reservation_id
                (call_record model_validate_json reservation result).charged_usage
              ∷ recorded model_validate_json reservation result
              ∷ [])
            ≡ ended
        ending = rw settles (rw recorded-taken (returned ended))

  accepted-verdict :
      (reservation : BudgetReservation) (result : StructuredModelResult J)
      → is_accepted model_validate_json reservation result ≡ true
      → verdict model_validate_json reservation result ≡ ok tt
  accepted-verdict reservation result h = ground (arith, h)

  refused-verdict :
      (reservation : BudgetReservation) (result : StructuredModelResult J)
      → is_accepted model_validate_json reservation result ≡ false
      → (verdict model_validate_json reservation result ≡ err diagnostics_present)
        ⊎ (verdict model_validate_json reservation result ≡ err overage_with_other_status)
  refused-verdict reservation result h = ground (arith, h)

  -- Take a reservation in force, an identity that no recorded call has, and an answer whose proposal,
  -- if it is a valid success, validates where it is stored. If the answer is one that the guards accept
  -- (over its reservation, a success or an invalid one; within it, no success with diagnostics), the
  -- batch that follows the call passes the admission check and the reducer takes all of it: the budget
  -- that results is the one with the reservation settled by a usage that it covers, and the identity
  -- is among the recorded calls.
  pub call_payloads-settle :
      (state : RunState F) (reservation : BudgetReservation) (result : StructuredModelResult J)
      → find (λ r. r.reservation_id == reservation.reservation_id) state.budget.reservations
        ≡ some reservation
      → is_recorded reservation.action_id state.model_calls ≡ false
      → (is_success (validated_status model_validate_json result).0 ≡ true
          → reducer.proposal_validates (call_record model_validate_json reservation result) ≡ true)
      → is_accepted model_validate_json reservation result ≡ true
      → let payloads = call_payloads model_validate_json reservation result in
        (validate_semantic_reservation_admission (map to_admission payloads) ≡ ok tt)
        × (after : RunState F) × (apply_payloads reducer state payloads ≡ ok after)
        × (is_recorded reservation.action_id after.model_calls ≡ true)
        × (usage : ResourceVector) × Covers reservation.resources usage
        × (settle state.budget reservation.reservation_id usage ≡ ok after.budget)
  unfolding note_settlement call_record
  call_payloads-settle state reservation result found new valid accepted =
      let usage = charged_for result.usage reservation.resources in
      let covers = charged_for-Covers result.usage reservation.resources in
      let (budget, settles) =
        settle_covered state.budget reservation.reservation_id reservation usage found covers in
      (
        payloads-admitted model_validate_json reservation result,
        finished state reservation result budget new,
        call_payloads-applied state reservation result budget new settles
            ∙ ap
                (λ v.
                  guarded v
                  >> settle_call reducer (reached state reservation result budget new)
                      (call_record model_validate_json reservation result))
                (accepted-verdict reservation result accepted)
            ∙ settle_call-settled reducer
                (registered state result.raw_response (proposal_of model_validate_json result))
                (call_record model_validate_json reservation result) budget valid,
        recorded-last (call_record model_validate_json reservation result).identity
            state.model_calls,
        usage,
        covers,
        settles,
      )

  -- For a reservation in force and an identity that no recorded call has, an answer that the guards do
  -- not accept loses its batch: the batch passes the admission check, and
  -- the reducer, though it could settle the reservation, raises at the record of the call.
  pub call_payloads-refused :
      (state : RunState F) (reservation : BudgetReservation) (result : StructuredModelResult J)
      → find (λ r. r.reservation_id == reservation.reservation_id) state.budget.reservations
        ≡ some reservation
      → is_recorded reservation.action_id state.model_calls ≡ false
      → is_accepted model_validate_json reservation result ≡ false
      → let payloads = call_payloads model_validate_json reservation result in
        (validate_semantic_reservation_admission (map to_admission payloads) ≡ ok tt)
        × ((apply_payloads reducer state payloads ≡ err (call_error diagnostics_present))
            ⊎ (apply_payloads reducer state payloads ≡ err (call_error overage_with_other_status)))
  call_payloads-refused state reservation result found new refused =
      let usage = charged_for result.usage reservation.resources in
      let covers = charged_for-Covers result.usage reservation.resources in
      let (budget, settles) =
        settle_covered state.budget reservation.reservation_id reservation usage found covers in
      let applied = call_payloads-applied state reservation result budget new settles in
      let after =
        settle_call reducer (reached state reservation result budget new)
          (call_record model_validate_json reservation result) in
      (
        payloads-admitted model_validate_json reservation result,
        elim (refused-verdict reservation result refused) [
          | inl v ↦ inl (applied ∙ ap (λ m. guarded m >> after) v)
          | inr v ↦ inr (applied ∙ ap (λ m. guarded m >> after) v)
        ],
      )
