-- ===== src/Stop/Estimates.antt =====
-- Estimates of value under `evaluate` of src/fre/modules/m13_stop.py.
use reasoning_engine.Prelude.{
  ◌∙◌, ok, Option-cases, ◌≡◌, sym, true, some, FloatOps, inl, inr, arith,
}
use reasoning_engine.Stop.Types.{
  StopDecision, StopDisposition, StopPolicy, StopInputs, MarginalValueEstimate, IntervalEstimate,
}
use reasoning_engine.Stop.Controller.{evaluate, judge, weigh}
use reasoning_engine.Stop.Safety.{verdict_of}

-- What the comparison of floats has to satisfy: IEEE orders do, on numbers other than NaN.
pub record IsOrdered {F : Type 0} (float : FloatOps F) : Type 0 where
  pub le_trans : (x y z : F) → float.le x y ≡ true → float.le y z ≡ true → float.le x z ≡ true
  pub lt_of_le_of_lt : (x y z : F) → float.le x y ≡ true → float.lt y z ≡ true → float.lt x z ≡ true

module _ {F : Type 0} (float : FloatOps F) (ordered : IsOrdered float) where
  -- Both ends of the estimate have risen.
  pub record Improves (old new : MarginalValueEstimate F) : Type 0 where
    pub lower : float.le old.estimate.lower new.estimate.lower ≡ true
    pub upper : float.le old.estimate.upper new.estimate.upper ≡ true

  weigh-Improves :
      (policy : StopPolicy F) (old new : MarginalValueEstimate F) (cost : IntervalEstimate F)
      → Improves old new
      → (weigh float policy old cost).0 ≡ StopDisposition.continue
      → (weigh float policy new cost).0 ≡ StopDisposition.continue
  unfolding weigh
  weigh-Improves policy old new cost better h = ground (
    arith,
    ordered.le_trans (float.add cost.upper policy.stop_threshold) old.estimate.lower
        new.estimate.lower,
    ordered.lt_of_le_of_lt old.estimate.upper new.estimate.upper
        (float.add cost.lower policy.stop_threshold),
  )

  judge-Improves :
      (policy : StopPolicy F) (inputs : StopInputs F) (old new : MarginalValueEstimate F)
      → Improves old new
      → (judge float (record inputs { value = some old }) policy).0 ≡ StopDisposition.continue
      → (judge float (record inputs { value = some new }) policy).0 ≡ StopDisposition.continue
  unfolding judge
  judge-Improves policy inputs old new better h = elim (Option-cases inputs.cost) [
    | inl none_given ↦ ground arith
    | inr (cost, given) ↦ ground (
      arith,
      ordered.le_trans (float.add cost.upper policy.stop_threshold) old.estimate.lower
          new.estimate.lower,
      ordered.lt_of_le_of_lt old.estimate.upper new.estimate.upper
          (float.add cost.lower policy.stop_threshold),
    )
  ]

  -- Under an order on the floats that is transitive: if the controller continues on an estimate of the value of the next action, it continues on every
  -- estimate whose ends are both at least as high, all other inputs being the same.
  pub evaluate-Improves :
      (policy : StopPolicy F) (inputs : StopInputs F) (old new : MarginalValueEstimate F)
      (d d' : StopDecision)
      → Improves old new
      → evaluate float (record inputs { value = some old }) policy ≡ ok d
      → evaluate float (record inputs { value = some new }) policy ≡ ok d'
      → d.disposition ≡ StopDisposition.continue
      → d'.disposition ≡ StopDisposition.continue
  evaluate-Improves policy inputs old new d d' better h h' c =
      sym (verdict_of float (record inputs { value = some new }) policy d' h')
      ∙ judge-Improves policy inputs old new better
          (verdict_of float (record inputs { value = some old }) policy d h ∙ c)
