-- ===== src/Classifier/Floors.antt =====
-- How far `dimension` and `categorical_dimension` of src/fre/modules/m01_classifier.py may move a value.
use Prim.Native.String.{String}
use reasoning_engine.Prelude.{
  ℕ, ◌≤◌, ◌≡◌, refl, sym, ◌∙◌, Bool, true, false, Option, none, some, List, [], ◌∷◌, ◌++◌, ◌&&◌,
  not, ◌==◌, ==-refl, if◌then◌else◌, Bool-cases, inl, inr, ok, FloatOps, arith,
}
use reasoning_engine.Budget.Allocator.{Ordinal4}
use reasoning_engine.Budget.Tiers.{ordinal_order, space_order}
use reasoning_engine.Classifier.Record.{same_value, type_rank, horizon_rank, form_rank}
use reasoning_engine.Classifier.{Axis, SourceAnchor, ClassificationPolicy, harder, is_empty}
use reasoning_engine.Classifier.Dimensions.{
  Value, ordinal_value, space_value, type_value, horizon_value, form_value, Trace,
  CategoricalProposal, ClassificationDimensionResult, is_unsure, policy_fallback, model, differs,
  escalate, note,
}
use reasoning_engine.Classifier.Stages.{
  Claim, staged, dimension_result, dimension, categorical_stage, categorical_result,
  categorical_dimension,
}

pub harder-left : (a b : Ordinal4) → ordinal_order a ≤ ordinal_order (harder a b)
harder-left a b = ground arith

pub harder-right : (a b : Ordinal4) → ordinal_order b ≤ ordinal_order (harder a b)
harder-right a b = ground arith

harder_if :
    (c : Bool) (a b : Ordinal4) → ordinal_order a ≤ ordinal_order (if c then harder a b else a)
harder_if true a b = harder-left a b
harder_if false a b = omega arith

-- The stages never go below the estimate or the floor.
pub escalate-le :
    (estimate floor : Ordinal4) (low : Bool) (bound : Ordinal4) (fall : Bool) (fallback : Ordinal4)
    → let effective = (escalate estimate floor low bound fall fallback).0 in
      (ordinal_order estimate ≤ ordinal_order effective)
      × (ordinal_order floor ≤ ordinal_order effective)
unfolding escalate
escalate-le estimate floor low bound fall fallback =
    let first = harder estimate floor in
    let second = if low then harder first bound else first in
    let h0 = harder-left estimate floor in
    let h1 = harder-right estimate floor in
    let h2 = harder_if low first bound in
    let h3 = harder_if fall second fallback in
    (omega (arith, h0, h2, h3), omega (arith, h1, h2, h3))

any_label :
    {A : Type 0} (x y z : A) (p q r : Bool)
    → is_empty
        ((if p then x ∷ [] else []) ++ (if q then y ∷ [] else []) ++ (if r then z ∷ [] else []))
      ≡ (not p && not q) && not r
any_label x y z true q r = refl
any_label x y z false true r = refl
any_label x y z false false true = refl
any_label x y z false false false = refl

unmoved :
    (a b c d : ℕ)
    → a ≤ b
    → b ≤ c
    → c ≤ d
    → ((not (not (b == a)) && not (not (c == b))) && not (not (d == c))) ≡ (d == a)
unmoved a b c d h k l = ground arith

-- There is a label just if the value was changed.
pub escalate-honest :
    (estimate floor : Ordinal4) (low : Bool) (bound : Ordinal4) (fall : Bool) (fallback : Ordinal4)
    → let outcome = escalate estimate floor low bound fall fallback in
      is_empty outcome.1 ≡ (ordinal_order outcome.0 == ordinal_order estimate)
unfolding escalate
escalate-honest estimate floor low bound fall fallback =
    let first = harder estimate floor in
    let second = if low then harder first bound else first in
    let third = if fall then harder second fallback else second in
    any_label _ _ _ (differs first estimate) (differs second first) (differs third second)
    ∙ unmoved (ordinal_order estimate) (ordinal_order first) (ordinal_order second)
        (ordinal_order third) (harder-left estimate floor) (harder_if low first bound)
        (harder_if fall second fallback)

pub same_value_refl : (a : Value) → same_value a a ≡ true
same_value_refl (ordinal_value a) = ==-refl (ordinal_order a)
same_value_refl (space_value a) = ==-refl (space_order a)
same_value_refl (type_value a) = ==-refl (type_rank a)
same_value_refl (horizon_value a) = ==-refl (horizon_rank a)
same_value_refl (form_value a) = ==-refl (form_rank a)

==-flip : (a b : ℕ) → (a == b) ≡ (b == a)
==-flip a b = ground arith

same_value_flip : (a b : Value) → same_value a b ≡ same_value b a
same_value_flip (ordinal_value a) (ordinal_value b) = ==-flip (ordinal_order a) (ordinal_order b)
same_value_flip (space_value a) (space_value b) = ==-flip (space_order a) (space_order b)
same_value_flip (type_value a) (type_value b) = ==-flip (type_rank a) (type_rank b)
same_value_flip (horizon_value a) (horizon_value b) = ==-flip (horizon_rank a) (horizon_rank b)
same_value_flip (form_value a) (form_value b) = ==-flip (form_rank a) (form_rank b)
same_value_flip _ _ = refl

-- `effective` differs from `estimated` just if there is a label.
abbrev pub IsHonest : {F : Type 0} → ClassificationDimensionResult F → Type 0
IsHonest result = is_empty result.override_basis ≡ same_value result.effective result.estimated

module _ {F : Type 0} (float : FloatOps F) (is_blank : String → Bool)
    (accepts : Axis → SourceAnchor → Bool) (policy : ClassificationPolicy F) (policy_hash : ℕ) where
  -- What `dimension` returns where it returns.
  pub dimension-ok :
      (name : Axis) (given : Bool) (explicit : Option Ordinal4) (claim : Claim F) (floor : Ordinal4)
      (anchors : List SourceAnchor) (trace after : Trace F) (v : Ordinal4)
      → dimension float is_blank accepts policy policy_hash name given explicit claim floor anchors
          trace
        ≡ ok (v, after)
      → ((staged float is_blank accepts policy policy_hash given explicit claim floor).0 ≡ v)
        × (note policy policy_hash name
              (dimension_result float is_blank accepts policy policy_hash given explicit claim floor
                anchors)
              trace
            ≡ after)
  unfolding dimension
  dimension-ok name given explicit claim floor anchors trace after v h = ground (arith, h)

  pub dimension_result-IsHonest :
      (given : Bool) (explicit : Option Ordinal4) (claim : Claim F) (floor : Ordinal4)
      (anchors : List SourceAnchor)
      → IsHonest (
          dimension_result float is_blank accepts policy policy_hash given explicit claim floor
            anchors)
  dimension_result-IsHonest given explicit claim floor anchors =
      escalate-honest _ floor _ _ _ policy.fallback_ordinal

  module _ {E : Type 0} (value : E → Value) where
    categorical_stage-honest :
        (estimate : E) (confidence : Option F) (escalate_to : Option E)
        → let outcome =
            categorical_stage float is_blank accepts policy policy_hash value estimate confidence
              escalate_to in
          is_empty outcome.1 ≡ same_value (value outcome.0) (value estimate)
    unfolding categorical_stage
    categorical_stage-honest estimate confidence none = sym (same_value_refl (value estimate))
    categorical_stage-honest estimate confidence (some to) =
        elim (Bool-cases
          (is_unsure float policy confidence && not (same_value (value estimate) (value to)))) [
            | inl e ↦
                let apart : same_value (value to) (value estimate) ≡ false =
                  same_value_flip (value to) (value estimate)
                  ∙ (let other : same_value (value estimate) (value to) ≡ false =
                        ground (arith, e) in
                      other) in
                rw e (sym apart)
            | inr e ↦ rw e (sym (same_value_refl (value estimate)))
          ]

    -- What `categorical_dimension` does to the trace where it returns.
    pub categorical_dimension-ok :
        (name : Axis) (proposal : Option (CategoricalProposal F E)) (default : E)
        (escalate_to : Option E) (trace after : Trace F) (v : E)
        → categorical_dimension float is_blank accepts policy policy_hash value name proposal
            default escalate_to trace
          ≡ ok (v, after)
        → (result : ClassificationDimensionResult F) × (note policy policy_hash name result trace
            ≡ after)
          × IsHonest result
    unfolding categorical_dimension
    categorical_dimension-ok name none default escalate_to trace after v h = (
      categorical_result float is_blank accepts policy policy_hash value default none []
          policy_fallback none escalate_to,
      ground (arith, h),
      categorical_stage-honest default none escalate_to,
    )
    categorical_dimension-ok name (some p) default escalate_to trace after v h = (
      categorical_result float is_blank accepts policy policy_hash value p.estimate
          (some p.confidence) p.anchors model (some p.rationale) escalate_to,
      ground (arith, h),
      categorical_stage-honest p.estimate (some p.confidence) escalate_to,
    )
