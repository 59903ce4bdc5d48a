-- ===== src/Stop/Safety.antt =====
-- The decision of `evaluate` of src/fre/modules/m13_stop.py, its validator and its dispositions.
use reasoning_engine.Prelude.{
  ◌∙◌, subst, leb, sort_by-ne-nil, any-sort_by, ◌≡◌, refl, Bool, true, false, List, [], ◌∷◌, ◌≢◌,
  ◌⊎◌, inl, inr, ◌&&◌, not, Option, none, some, any, ok, err, sort_by, Bool-cases, FloatOps, arith,
}
use reasoning_engine.Ledger.Types.{ref_le}
use reasoning_engine.Stop.Types.{
  cancelled, failed_invariant, partial_budget, StopDisposition, AcceptanceStatus, ValidationStatus,
  MarginalValueEstimate, IntervalEstimate, StopPolicy, StopInputs, StopDecision,
  missing_required_context, code_rank,
}
use reasoning_engine.Stop.Controller.{
  judge, weigh_work, settle_rest, failed_acceptance, is_satisfied, is_required, exhausted, evaluate,
  decision_of, validate, handoff_request, request_fits, is_epistemic, is_empty, Verdict,
}

request_fits_handoff : (d : StopDisposition) → request_fits d (handoff_request d) ≡ true
unfolding request_fits handoff_request
request_fits_handoff StopDisposition.continue = refl
request_fits_handoff _ = refl

is_empty-sort_by :
    {A : Type 0} (le : A → A → Bool) (xs : List A) → is_empty (sort_by le xs) ≡ is_empty xs
unfolding sort_by
is_empty-sort_by le [] = refl
is_empty-sort_by le (x ∷ xs) = ground (arith, sort_by-ne-nil le x xs)

module _ {F : Type 0} (float : FloatOps F) (inputs : StopInputs F) (policy : StopPolicy F) where
  decision_validates :
      (verdict : Verdict)
      → any is_epistemic verdict.1 && is_empty inputs.epistemic_trigger_refs ≡ false
      → validate (decision_of inputs policy verdict) ≡ true
  unfolding validate decision_of
  decision_validates verdict h = ground (
    arith,
    request_fits_handoff verdict.0,
    is_empty-sort_by ref_le inputs.epistemic_trigger_refs,
    any-sort_by (λ a b. leb (code_rank a) (code_rank b)) is_epistemic verdict.1,
  )

  decision_disposition :
      (verdict : Verdict) → (decision_of inputs policy verdict).disposition ≡ verdict.0
  unfolding decision_of
  decision_disposition verdict = refl

  -- An evaluation fails only for an epistemic reason without a reference for it; otherwise it returns a
  -- decision of the disposition that the tests chose, which its validator accepts.
  pub evaluate_outcome :
      ((any is_epistemic (judge float inputs policy).1 ≡ true)
        × (inputs.epistemic_trigger_refs ≡ [])
        × (evaluate float inputs policy ≡ err missing_required_context))
      ⊎ ((d : StopDecision) × (evaluate float inputs policy ≡ ok d)
          × (validate d ≡ true)
          × (d.disposition ≡ (judge float inputs policy).0))
  unfolding evaluate
  evaluate_outcome =
      elim (Bool-cases (
        any is_epistemic (judge float inputs policy).1 && is_empty inputs.epistemic_trigger_refs)) [
          | inl e ↦ inl (ground arith, ground arith, ground arith)
          | inr e ↦ inr (
            decision_of inputs policy (judge float inputs policy),
            ground (arith, decision_validates (judge float inputs policy) e),
            decision_validates (judge float inputs policy) e,
            decision_disposition (judge float inputs policy),
          )
        ]

  pub verdict_of :
      (d : StopDecision)
      → evaluate float inputs policy ≡ ok d
      → (judge float inputs policy).0 ≡ d.disposition
  verdict_of d h = elim evaluate_outcome [
    | inl (e, n, r) ↦ cc
    | inr (d', r, v, q) ↦ let same : d' ≡ d = ground arith in ground arith
  ]

  -- the acceptance criteria are met by a stable result
  abbrev IsMet : Type 0
  IsMet = (is_satisfied inputs.acceptance ≡ true) × (inputs.stable ≡ true)

  -- work can be done, and its value and its cost have estimates to be weighed
  abbrev IsWeighed : Type 0
  IsWeighed =
      (inputs.executable_work ≡ true)
      × (value : MarginalValueEstimate F) × (cost : IntervalEstimate F) × (inputs.value
          ≡ some value)
      × (inputs.cost ≡ some cost)

  -- no action, blocker or failed criterion that would come before the work is weighed
  abbrev IsUnhindered : Type 0
  IsUnhindered =
      (exhausted inputs && inputs.required_work ≡ false)
      × (inputs.mandatory_action ≡ false)
      × (inputs.blocker_required ≡ false)
      × (inputs.blocker_resolvable ≡ false)
      × (inputs.acceptance ≢ AcceptanceStatus.failed)

  -- The reasons for a COMPLETE.
  abbrev pub IsComplete : Type 0
  IsComplete =
      (inputs.cancelled ≡ false)
      × (inputs.invariant_failure ≡ false)
      × (inputs.validation ≢ ValidationStatus.required)
      × ((IsMet × (inputs.required_work ≡ false)) ⊎ (IsUnhindered × (IsMet ⊎ IsWeighed)))

  settle_rest_complete : (settle_rest float inputs).0 ≡ StopDisposition.complete → IsMet
  unfolding settle_rest
  settle_rest_complete h = (ground (arith, h), ground (arith, h))

  weigh_work_complete :
      (value : Option (MarginalValueEstimate F)) (cost : Option (IntervalEstimate F))
      → inputs.value ≡ value
      → inputs.cost ≡ cost
      → (weigh_work float policy inputs value cost).0 ≡ StopDisposition.complete
      → IsMet ⊎ IsWeighed
  unfolding weigh_work
  weigh_work_complete none cost v c h = inl (settle_rest_complete h)
  weigh_work_complete (some value) none v c h = inl (settle_rest_complete h)
  weigh_work_complete (some value) (some cost) v c h = elim (Bool-cases inputs.executable_work) [
    | inl e ↦ inr (e, value, cost, v, c)
    | inr e ↦ inl (settle_rest_complete (ground (arith, h, e)))
  ]

  judge_complete : (judge float inputs policy).0 ≡ StopDisposition.complete → IsComplete
  unfolding judge failed_acceptance
  judge_complete c = (
    ground (arith, c),
    ground (arith, c),
    ground (arith, c),
    elim (Bool-cases (
        is_satisfied inputs.acceptance
        && (not (is_required inputs.validation) && (not inputs.required_work && inputs.stable)))) [
          | inl e ↦ inl ((ground (arith, e), ground (arith, e)), ground (arith, e))
          | inr e ↦
              let weighed : (weigh_work float policy inputs inputs.value inputs.cost).0
                  ≡ StopDisposition.complete =
                ground (arith, c, e) in
              inr (
                (
                  ground (arith, c, e),
                  ground (arith, c, e),
                  ground (arith, c, e),
                  ground (arith, c, e),
                  ground (arith, c, e),
                ),
                weigh_work_complete inputs.value inputs.cost refl refl weighed,
              )
        ],
  )

  -- A COMPLETE decision is made only if the run is not cancelled, no invariant failed and validation is
  -- not required, and one of two things holds. The criteria are satisfied, the result is stable and no
  -- work is required; or no required work is cut off by the budget, no mandatory action, no required
  -- or resolvable blocker and no failed criterion is left, and either the criteria are satisfied and
  -- the result is stable, or there is executable work with estimates of its value and its cost.
  pub complete_safe :
      (d : StopDecision)
      → evaluate float inputs policy ≡ ok d
      → d.disposition ≡ StopDisposition.complete
      → IsComplete
  complete_safe d h c = judge_complete (verdict_of d h ∙ c)

  judge-exhausted :
      exhausted inputs ≡ true
      → inputs.required_work ≡ true
      → ((judge float inputs policy).0 ≡ cancelled)
        ⊎ ((judge float inputs policy).0 ≡ failed_invariant)
        ⊎ ((judge float inputs policy).0 ≡ partial_budget)
  unfolding judge
  judge-exhausted e r = ground arith

  -- When the iterations are used up and required work is left, the run stops: the decision is
  -- CANCELLED, FAILED_INVARIANT or PARTIAL_BUDGET.
  pub exhausted_stops :
      (d : StopDecision)
      → evaluate float inputs policy ≡ ok d
      → exhausted inputs ≡ true
      → inputs.required_work ≡ true
      → (d.disposition ≡ cancelled)
        ⊎ (d.disposition ≡ failed_invariant)
        ⊎ (d.disposition ≡ partial_budget)
  exhausted_stops d h e r =
      subst (λ v. (v ≡ cancelled) ⊎ (v ≡ failed_invariant) ⊎ (v ≡ partial_budget)) (verdict_of d h)
        (judge-exhausted e r)
