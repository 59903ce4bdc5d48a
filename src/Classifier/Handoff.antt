-- ===== src/Classifier/Handoff.antt =====
-- The budget that `canonical_events` of src/fre/modules/m01_classifier.py hands over, under the default
-- policy of src/fre/modules/m02_budget.py.
use Prim.Native.String.{String}
use reasoning_engine.Prelude.{
  ℕ, ◌+◌, ◌≤◌, ◌≡◌, refl, Bool, false, Option, none, some, List, ltb, le→ltb_false, ok, FloatOps,
  arith,
}
use reasoning_engine.Budget.Types.{
  ReasoningTier, t2, t3, t4, tier_order, BudgetProjection, DeploymentLimits, empty_projection,
  BudgetPlan, any_resource, getattr, limit_resources, vector, no_resources,
}
use reasoning_engine.Budget.Allocator.{
  ordinal, TaskSignature, TierPolicy, allocate, revise, plan_for, default_tier_policy,
  default_search, default_limits, clamp,
}
use reasoning_engine.Budget.Meter.{reserved}
use reasoning_engine.Budget.Tiers.{IsMonotone, Rises, ordinal_order, select_tier_monotone}
use reasoning_engine.Budget.Plans.{unlimited, default_selects, default_fits}
use reasoning_engine.Classifier.{Axis, SourceAnchor, TaskEnvelope, ClassificationPolicy}
use reasoning_engine.Classifier.Record.{ClassificationOutput, ClassificationRecord}
use reasoning_engine.Classifier.Classify.{bootstrap_signature, classify}
use reasoning_engine.Classifier.Canonical.{ClassificationEvent, canonical_events, batch}
use reasoning_engine.Classifier.Bounds.{classify-IsBelow}

ordinal-Rises :
    (high_tier critical_tier : ReasoningTier)
    → 1 ≤ tier_order high_tier
    → tier_order high_tier ≤ tier_order critical_tier
    → Rises ordinal_order (ordinal high_tier critical_tier)
ordinal-Rises high_tier critical_tier h k d d' a b l e f = ground (arith, h, k, l, e, f)

default-IsMonotone : {F : Type 0} (float : FloatOps F) → IsMonotone (default_tier_policy float)
unfolding default_tier_policy
default-IsMonotone float = record {
  consequence = ordinal-Rises t3 t4 (omega arith) (omega arith);
  irreversibility = ordinal-Rises t2 t4 (omega arith) (omega arith);
  ambiguity = ordinal-Rises t2 t3 (omega arith) (omega arith);
  evidence = ordinal-Rises t2 t3 (omega arith) (omega arith);
  space = λ d d' a b l e f. ground (arith, l, e, f);
}

branches_rise :
    (t t' : ReasoningTier)
    → tier_order t ≤ tier_order t'
    → (default_search t).independent_validation_branches
      ≤ (default_search t').independent_validation_branches
unfolding default_search
branches_rise t t' h = ground (arith, h)

-- Nothing is in use of a fresh plan.
unused :
    {F : Type 0} (float : FloatOps F) (current : Option (BudgetPlan F)) (hash : ℕ)
    (t : ReasoningTier)
    → let fresh = record empty_projection { plan = current; policy_hash = some hash } in
      any_resource (λ name.
        ltb
          (getattr (limit_resources (plan_for (default_tier_policy float) unlimited t).limits) name)
          (getattr fresh.committed name + getattr (reserved fresh) name))
      ≡ false
unfolding plan_for default_tier_policy any_resource getattr limit_resources default_limits reserved
    empty_projection clamp vector no_resources
unused float current hash ReasoningTier.t0 = refl
unused float current hash _ = refl

-- A fresh default plan may be revised to that of a tier that is not lower.
fresh_revision :
    {F : Type 0} (float : FloatOps F) (t t' : ReasoningTier) (hash hash' : ℕ)
    → tier_order t ≤ tier_order t'
    → (next : BudgetProjection F) × (revise
          (record empty_projection {
            plan = some (plan_for (default_tier_policy float) unlimited t);
            policy_hash = some hash;
          })
          (plan_for (default_tier_policy float) unlimited t')
          hash'
        ≡ ok next)
unfolding revise empty_projection plan_for default_tier_policy
fresh_revision float t t' hash hash' h =
    let tiers : ltb (tier_order t') (tier_order t) ≡ false =
      le→ltb_false (tier_order t') (tier_order t) h in
    let branches : ltb (default_search t').independent_validation_branches
          (default_search t).independent_validation_branches
        ≡ false =
      le→ltb_false _ _ (branches_rise t t' h) in
    (
      record empty_projection {
        plan = some (plan_for (default_tier_policy float) unlimited t');
        policy_hash = some hash';
      },
      rw (unused float (some (plan_for (default_tier_policy float) unlimited t)) hash t')
          (rw tiers (rw branches refl)),
    )

module _ {F : Type 0} (float : FloatOps F) (is_blank : String → Bool)
    (accepts : Axis → SourceAnchor → Bool) (normalized : String → String)
    (policy : ClassificationPolicy F) (policy_hash : ℕ)
    (tier_hash : TierPolicy F → DeploymentLimits → ℕ) where
  -- Under the default tier policy and a deployment without ceilings that permits every tier, a task
  -- that is classified has its events on a run without a plan: neither budget is refused, and the
  -- final one is a permitted revision of the first.
  pub canonical_events-classify :
      (envelope : TaskEnvelope) (proposal : Option (ClassificationOutput F)) (key : Option ℕ)
      (signature : TaskSignature) (result : ClassificationRecord F)
      → classify float is_blank accepts normalized policy policy_hash envelope proposal key
        ≡ ok (signature, result)
      → (events : List (ClassificationEvent F)) × (canonical_events float is_blank accepts
            normalized policy policy_hash tier_hash envelope proposal
            (default_tier_policy float)
            unlimited
            key
            none
          ≡ ok events)
  unfolding canonical_events allocate
  canonical_events-classify envelope proposal key signature result h =
      let (t, first) = default_selects float (bootstrap_signature envelope) in
      let (t', final) = default_selects float signature in
      let below =
        (classify-IsBelow float is_blank accepts normalized policy policy_hash envelope proposal key
          signature result h).0 in
      let rises =
        select_tier_monotone (default_tier_policy float) (bootstrap_signature envelope) signature t
          t' (default-IsMonotone float) below first final in
      let hash = tier_hash (default_tier_policy float) unlimited in
      let (next, revised) = fresh_revision float t t' hash hash rises in
      (
        batch (bootstrap_signature envelope) (plan_for (default_tier_policy float) unlimited t) hash
            signature result (plan_for (default_tier_policy float) unlimited t') hash,
        rw first (
            rw (default_fits float tier_hash t)
              (rw h (rw final (rw (default_fits float tier_hash t') (rw revised refl))))),
      )
