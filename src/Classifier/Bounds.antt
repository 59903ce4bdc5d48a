-- ===== src/Classifier/Bounds.antt =====
-- What `classify` of src/fre/modules/m01_classifier.py returns.
use Prim.Native.String.{String}
use reasoning_engine.Prelude.{
  option_map, ℕ, ◌≤◌, ◌≡◌, refl, sym, subst, ◌∙◌, Bool, true, false, Option, none, some, List, [],
  ◌∷◌, ◌++◌, IsDistinct, has_repeat, In→mem, mem, nat_eq, not, Result, ok, err, ◌>>=◌, ◌>>◌,
  >>=-eq-ok, raise_if, FloatOps, arith,
}
use reasoning_engine.Budget.Allocator.{Ordinal4, low, TaskSignature}
use reasoning_engine.Budget.Tiers.{ordinal_order, IsBelow}
use reasoning_engine.Classifier.{
  override_unaudited, Axis, SourceAnchor, TaskEnvelope, ClassificationPolicy, ClassificationError,
  consequence, irreversibility, ambiguity, evidence_scarcity, output_form, floor_consequence,
  floor_irreversibility, floor_ambiguity, floor_evidence_scarcity, explicit_ordinals,
}
use reasoning_engine.Classifier.Dimensions.{Trace, or_default, is_given}
use reasoning_engine.Classifier.Record.{ClassificationOutput, ClassificationRecord, is_exhaustive}
use reasoning_engine.Classifier.Stages.{Claim, claim_of, irreversibility_claim, staged}
use reasoning_engine.Classifier.Classify.{
  bootstrap_signature, form_result, assess, final_record, classify,
}
use reasoning_engine.Classifier.Floors.{same_value_refl, escalate-le}
use reasoning_engine.Classifier.Audit.{note-IsAudited, IsAudited-is_exhaustive}
use reasoning_engine.Classifier.Assess.{returned-pair, audited_names, assess-ok}

has_repeat-IsDistinct : (xs : List ℕ) → has_repeat xs ≡ false → IsDistinct xs
has_repeat-IsDistinct [] h = tt
has_repeat-IsDistinct (x ∷ xs) h = (
  λ m. let found : mem x xs ≡ true = In→mem x xs m in absurd (ground (arith, h, found)),
  has_repeat-IsDistinct xs (ground (arith, h)),
)

names-IsDistinct : IsDistinct (audited_names ++ 5 ∷ [])
names-IsDistinct = has_repeat-IsDistinct (audited_names ++ 5 ∷ []) refl

module _ {F : Type 0} (float : FloatOps F) (is_blank : String → Bool)
    (accepts : Axis → SourceAnchor → Bool) (normalized : String → String)
    (policy : ClassificationPolicy F) (policy_hash : ℕ) where
  staged-le :
      (given : Bool) (explicit : Option Ordinal4) (claim : Claim F) (floor value : Ordinal4)
      → (staged float is_blank accepts policy policy_hash given explicit claim floor).0 ≡ value
      → (ordinal_order (or_default explicit floor) ≤ ordinal_order value)
        × (ordinal_order (or_default explicit low) ≤ ordinal_order value)
        × (ordinal_order floor ≤ ordinal_order value)
  staged-le given explicit claim floor value h =
      subst
        (λ v.
          (ordinal_order (or_default explicit floor) ≤ ordinal_order v)
          × (ordinal_order (or_default explicit low) ≤ ordinal_order v)
          × (ordinal_order floor ≤ ordinal_order v))
        h (kept explicit)
    where
      kept :
          (e : Option Ordinal4)
          → let v = (staged float is_blank accepts policy policy_hash given e claim floor).0 in
            (ordinal_order (or_default e floor) ≤ ordinal_order v)
            × (ordinal_order (or_default e low) ≤ ordinal_order v)
            × (ordinal_order floor ≤ ordinal_order v)
      kept none =
          let (above, over) = escalate-le _ floor _ _ _ policy.fallback_ordinal in
          (over, omega arith, over)
      kept (some e) =
          let (above, over) = escalate-le e floor _ _ _ policy.fallback_ordinal in
          (above, above, over)

  -- The validator of the record never raises: `classify` returns just what its dimensions give.
  pub classify-validated :
      (envelope : TaskEnvelope) (proposal : Option (ClassificationOutput F)) (key : Option ℕ)
      → classify float is_blank accepts normalized policy policy_hash envelope proposal key ≡ (
          assess float is_blank accepts normalized policy policy_hash envelope proposal
          >>= λ assessed. ok (
            assessed.0,
            final_record float is_blank accepts normalized policy policy_hash envelope proposal key
                assessed.1,
          ))
  unfolding classify
  classify-validated envelope proposal key =
      go (assess float is_blank accepts normalized policy policy_hash envelope proposal) refl
    where
      final : Trace F → ClassificationRecord F
      final =
          final_record float is_blank accepts normalized policy policy_hash envelope proposal key

      finish :
          TaskSignature × Trace F
          → Result ClassificationError (TaskSignature × ClassificationRecord F)
      finish assessed = ok (assessed.0, final assessed.1)

      passes :
          (signature : TaskSignature) (trace : Trace F)
          → assess float is_blank accepts normalized policy policy_hash envelope proposal
            ≡ ok (signature, trace)
          → is_exhaustive (final trace) ≡ true
      passes signature trace e =
          let (c, i, a, s, audited) =
            assess-ok float is_blank accepts normalized policy policy_hash envelope proposal
              signature trace e in
          let honest = sym (
            same_value_refl
              (form_result float is_blank accepts normalized policy policy_hash
                envelope).estimated) in
          IsAudited-is_exhaustive policy policy_hash (audited_names ++ 5 ∷ []) _ (final trace)
            (note-IsAudited policy policy_hash audited_names output_form _ trace audited honest)
            names-IsDistinct refl refl

      go :
          (r : Result ClassificationError (TaskSignature × Trace F))
          → assess float is_blank accepts normalized policy policy_hash envelope proposal ≡ r
          → (r >>= λ assessed.
              raise_if (not (is_exhaustive (final assessed.1))) override_unaudited
              >> finish assessed)
            ≡ (r >>= finish)
      go (err e) h = refl
      go (ok (signature, trace)) h = rw (passes signature trace h) refl

  -- However the model proposes, a signature that `classify` returns is nowhere below the one that
  -- sized the first budget, nor below the floor that the permissions and inputs of the task set.
  pub classify-IsBelow :
      (envelope : TaskEnvelope) (proposal : Option (ClassificationOutput F)) (key : Option ℕ)
      (signature : TaskSignature) (result : ClassificationRecord F)
      → classify float is_blank accepts normalized policy policy_hash envelope proposal key
        ≡ ok (signature, result)
      → IsBelow (bootstrap_signature envelope) signature
        × (ordinal_order (floor_consequence envelope) ≤ ordinal_order signature.consequence)
        × (ordinal_order (floor_irreversibility envelope) ≤ ordinal_order signature.irreversibility)
        × (ordinal_order (floor_ambiguity envelope) ≤ ordinal_order signature.ambiguity)
        × (ordinal_order (floor_evidence_scarcity envelope)
            ≤ ordinal_order signature.evidence_scarcity)
  unfolding bootstrap_signature
  classify-IsBelow envelope proposal key signature result h =
      let ((s, t), assessed, same) =
        >>=-eq-ok (assess float is_blank accepts normalized policy policy_hash envelope proposal) _
          (sym (classify-validated envelope proposal key) ∙ h) in
      let (v1, v2, v3, v4, audited) =
        assess-ok float is_blank accepts normalized policy policy_hash envelope proposal s t
          assessed in
      let b1 =
        staged-le (is_given proposal) (explicit_ordinals envelope consequence)
          (claim_of (option_map (λ p. p.consequence) proposal)) (floor_consequence envelope)
          s.consequence v1 in
      let b2 =
        staged-le (is_given proposal) (explicit_ordinals envelope irreversibility)
          (irreversibility_claim (option_map (λ p. p.reversibility) proposal))
          (floor_irreversibility envelope) s.irreversibility v2 in
      let b3 =
        staged-le (is_given proposal) (explicit_ordinals envelope ambiguity)
          (claim_of (option_map (λ p. p.ambiguity) proposal)) (floor_ambiguity envelope) s.ambiguity
          v3 in
      let b4 =
        staged-le (is_given proposal) (explicit_ordinals envelope evidence_scarcity)
          (claim_of (option_map (λ p. p.evidence_scarcity) proposal))
          (floor_evidence_scarcity envelope) s.evidence_scarcity v4 in
      subst
        (λ (x : TaskSignature).
          IsBelow (bootstrap_signature envelope) x
          × (ordinal_order (floor_consequence envelope) ≤ ordinal_order x.consequence)
          × (ordinal_order (floor_irreversibility envelope) ≤ ordinal_order x.irreversibility)
          × (ordinal_order (floor_ambiguity envelope) ≤ ordinal_order x.ambiguity)
          × (ordinal_order (floor_evidence_scarcity envelope) ≤ ordinal_order x.evidence_scarcity))
        (returned-pair s signature _ result same).0
        (
          record {
            consequence = b1.0;
            irreversibility = b2.0;
            ambiguity = b3.1;
            evidence = b4.1;
            space = omega arith;
          },
          b1.2,
          b2.2,
          b3.2,
          b4.2,
        )
