-- ===== src/Classifier/Assess.antt =====
-- The values and the trace that `classify` of src/fre/modules/m01_classifier.py has where it returns.
use Prim.Native.String.{String}
use reasoning_engine.Prelude.{
  option_map, ℕ, ◌≡◌, refl, subst, ap, ◌∙◌, Bool, Option, List, [], ◌∷◌, ◌++◌, nat_eq, Result, ok,
  >>=-eq-ok, guard-ok, FloatOps,
}
use reasoning_engine.Budget.Allocator.{Ordinal4, TaskSignature}
use reasoning_engine.Classifier.{
  Axis, SourceAnchor, TaskEnvelope, ClassificationPolicy, consequence, irreversibility, ambiguity,
  evidence_scarcity, task_type, search_space, horizon, floor_consequence, floor_irreversibility,
  floor_ambiguity, floor_evidence_scarcity, explicit_ordinals,
}
use reasoning_engine.Classifier.Dimensions.{
  Value, CategoricalProposal, Trace, type_value, space_value, horizon_value, is_given,
}
use reasoning_engine.Classifier.Record.{axis_rank, ClassificationOutput}
use reasoning_engine.Classifier.Stages.{
  Claim, claim_of, irreversibility_claim, staged, dimension, categorical_dimension,
}
use reasoning_engine.Classifier.Classify.{check_reversibility, assess}
use reasoning_engine.Classifier.Floors.{
  dimension-ok, dimension_result-IsHonest, categorical_dimension-ok,
}
use reasoning_engine.Classifier.Audit.{IsAudited, note-IsAudited}

pub returned-pair :
    {E A B : Type 0} (a a' : A) (b b' : B)
    → ◌≡◌ {A = Result E (A × B)} (ok (a, b)) (ok (a', b'))
    → (a ≡ a') × (b ≡ b')
returned-pair a a' b b' h = (cc h, cc h)

abbrev pub audited_names : List ℕ
audited_names = 1 ∷ 4 ∷ 0 ∷ 2 ∷ 7 ∷ 6 ∷ 3 ∷ []

module _ {F : Type 0} (float : FloatOps F) (is_blank : String → Bool)
    (accepts : Axis → SourceAnchor → Bool) (normalized : String → String)
    (policy : ClassificationPolicy F) (policy_hash : ℕ) where
  dimension-IsAudited :
      (names : List ℕ) (name : Axis) (given : Bool) (explicit : Option Ordinal4) (claim : Claim F)
      (floor : Ordinal4) (anchors : List SourceAnchor) (trace after : Trace F) (v : Ordinal4)
      → IsAudited policy policy_hash names trace
      → dimension float is_blank accepts policy policy_hash name given explicit claim floor anchors
          trace
        ≡ ok (v, after)
      → ((staged float is_blank accepts policy policy_hash given explicit claim floor).0 ≡ v)
        × IsAudited policy policy_hash (names ++ axis_rank name ∷ []) after
  dimension-IsAudited names name given explicit claim floor anchors trace after v a h =
      let (value, noted) =
        dimension-ok float is_blank accepts policy policy_hash name given explicit claim floor
          anchors trace after v h in
      (
        value,
        subst (IsAudited policy policy_hash (names ++ axis_rank name ∷ [])) noted (
            note-IsAudited policy policy_hash names name _ trace a (
              dimension_result-IsHonest float is_blank accepts policy policy_hash given explicit
                claim floor anchors)),
      )

  categorical-IsAudited :
      {E : Type 0} (value : E → Value) (names : List ℕ) (name : Axis)
      (proposal : Option (CategoricalProposal F E)) (default : E) (escalate_to : Option E)
      (trace after : Trace F) (v : E)
      → IsAudited policy policy_hash names trace
      → categorical_dimension float is_blank accepts policy policy_hash value name proposal default
          escalate_to trace
        ≡ ok (v, after)
      → IsAudited policy policy_hash (names ++ axis_rank name ∷ []) after
  categorical-IsAudited value names name proposal default escalate_to trace after v a h =
      let (result, noted, honest) =
        categorical_dimension-ok float is_blank accepts policy policy_hash value name proposal
          default escalate_to trace after v h in
      subst (IsAudited policy policy_hash (names ++ axis_rank name ∷ [])) noted
        (note-IsAudited policy policy_hash names name result trace a honest)

  -- The values that `classify` takes and the trace that it leaves.
  pub assess-ok :
      (envelope : TaskEnvelope) (proposal : Option (ClassificationOutput F))
      (signature : TaskSignature) (trace : Trace F)
      → assess float is_blank accepts normalized policy policy_hash envelope proposal
        ≡ ok (signature, trace)
      → let value = λ (explicit : Option Ordinal4) (claim : Claim F) (floor : Ordinal4).
        (staged float is_blank accepts policy policy_hash
          (is_given proposal)
          explicit
          claim
          floor).0 in
        (value
            (explicit_ordinals envelope consequence)
            (claim_of (option_map (λ p. p.consequence) proposal))
            (floor_consequence envelope)
          ≡ signature.consequence)
        × (value
              (explicit_ordinals envelope irreversibility)
              (irreversibility_claim (option_map (λ p. p.reversibility) proposal))
              (floor_irreversibility envelope)
            ≡ signature.irreversibility)
        × (value
              (explicit_ordinals envelope ambiguity)
              (claim_of (option_map (λ p. p.ambiguity) proposal))
              (floor_ambiguity envelope)
            ≡ signature.ambiguity)
        × (value
              (explicit_ordinals envelope evidence_scarcity)
              (claim_of (option_map (λ p. p.evidence_scarcity) proposal))
              (floor_evidence_scarcity envelope)
            ≡ signature.evidence_scarcity)
        × IsAudited policy policy_hash audited_names trace
  unfolding assess
  assess-ok envelope proposal signature trace h =
      let (checked, h1) =
        guard-ok (check_reversibility envelope (option_map (λ p. p.reversibility) proposal)) _ h in
      let ((c, t1), e1, h2) =
        >>=-eq-ok (dimension float is_blank accepts policy policy_hash _ _ _ _ _ _ _) _ h1 in
      let ((i, t2), e2, h3) =
        >>=-eq-ok (dimension float is_blank accepts policy policy_hash _ _ _ _ _ _ _) _ h2 in
      let ((a, t3), e3, h4) =
        >>=-eq-ok (dimension float is_blank accepts policy policy_hash _ _ _ _ _ _ _) _ h3 in
      let ((e, t4), e4, h5) =
        >>=-eq-ok (dimension float is_blank accepts policy policy_hash _ _ _ _ _ _ _) _ h4 in
      let ((k, t5), e5, h6) =
        >>=-eq-ok
          (categorical_dimension float is_blank accepts policy policy_hash type_value _ _ _ _ _) _
          h5 in
      let ((s, t6), e6, h7) =
        >>=-eq-ok
          (categorical_dimension float is_blank accepts policy policy_hash space_value _ _ _ _ _) _
          h6 in
      let ((o, t7), e7, h8) =
        >>=-eq-ok
          (categorical_dimension float is_blank accepts policy policy_hash horizon_value _ _ _ _ _)
          _ h7 in
      let begun : IsAudited policy policy_hash []
          (record { dimensions = []; floor_overrides = [] }) =
        record { overrides = refl; honest = tt; named = refl } in
      let (v1, a1) = dimension-IsAudited [] consequence _ _ _ _ _ _ t1 c begun e1 in
      let (v2, a2) = dimension-IsAudited _ irreversibility _ _ _ _ _ t1 t2 i a1 e2 in
      let (v3, a3) = dimension-IsAudited _ ambiguity _ _ _ _ _ t2 t3 a a2 e3 in
      let (v4, a4) = dimension-IsAudited _ evidence_scarcity _ _ _ _ _ t3 t4 e a3 e4 in
      let a5 = categorical-IsAudited type_value _ task_type _ _ _ t4 t5 k a4 e5 in
      let a6 = categorical-IsAudited space_value _ search_space _ _ _ t5 t6 s a5 e6 in
      let a7 = categorical-IsAudited horizon_value _ horizon _ _ _ t6 t7 o a6 e7 in
      let (values, traces) = returned-pair _ signature t7 trace h8 in
      let value_of = λ (f : TaskSignature → Ordinal4). ap f values in
      (
        v1 ∙ value_of (λ x. x.consequence),
        v2 ∙ value_of (λ x. x.irreversibility),
        v3 ∙ value_of (λ x. x.ambiguity),
        v4 ∙ value_of (λ x. x.evidence_scarcity),
        subst (IsAudited policy policy_hash audited_names) traces a7,
      )
