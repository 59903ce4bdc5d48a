-- ===== src/Budget/Tiers.antt =====
-- The tier that `allocate` of src/fre/modules/m02_budget.py chooses.
use Prim.Native.Nat.{max}
use reasoning_engine.Prelude.{
  sym, subst, if◌then◌else◌, ◌&&◌, ◌⊎◌, inl, inr, Bool-cases, ℕ, ◌≤◌, ◌≡◌, Bool, true, false,
  Option, none, some, ok, >>=-eq-ok, arith,
}
use reasoning_engine.Budget.Types.{ReasoningTier, t5, tier_order}
use reasoning_engine.Budget.Allocator.{
  Ordinal4, SearchSpaceClass, TaskSignature, TierPolicy, or_key_error, max_tier, is_critical,
  select_tier,
}

max_tier-order :
    (a b : ReasoningTier) → tier_order (max_tier a b) ≡ max (tier_order a) (tier_order b)
unfolding max_tier
max_tier-order a b = ground arith

tier_order-le : (t : ReasoningTier) → tier_order t ≤ 5
tier_order-le ReasoningTier.t0 = omega arith
tier_order-le _ = omega arith

-- A floor that the policy sets for one dimension is kept.
abbrev pub Keeps : Option ReasoningTier → ReasoningTier → Type 0
Keeps floor tier =
    (required : ReasoningTier) → floor ≡ some required → tier_order required ≤ tier_order tier

-- A tier of a task keeps the floors of all five dimensions.
pub record IsFloor {F : Type 0} (signature : TaskSignature) (policy : TierPolicy F)
    (tier : ReasoningTier) : Type 0 where
  pub consequence : Keeps (policy.consequence_floors signature.consequence) tier
  pub irreversibility : Keeps (policy.irreversibility_floors signature.irreversibility) tier
  pub ambiguity : Keeps (policy.ambiguity_floors signature.ambiguity) tier
  pub evidence : Keeps (policy.evidence_scarcity_floors signature.evidence_scarcity) tier
  pub space : Keeps (policy.search_space_floors signature.search_space) tier

-- The highest of five tiers, and where both CRITICAL tests pass the top one.
highest :
    Bool
    → Bool
    → ReasoningTier
    → ReasoningTier
    → ReasoningTier
    → ReasoningTier
    → ReasoningTier
    → ReasoningTier
highest c i a1 a2 a3 a4 a5 =
    if c && i then t5 else max_tier (max_tier (max_tier (max_tier a1 a2) a3) a4) a5

or_key_error-ok : {A : Type 0} (o : Option A) {a : A} → or_key_error o ≡ ok a → o ≡ some a
or_key_error-ok none h = cc
or_key_error-ok (some a) h = cc

select_tier_inv :
    {F : Type 0} (signature : TaskSignature) (policy : TierPolicy F) (tier : ReasoningTier)
    → select_tier signature policy ≡ ok tier
    → (a1 a2 a3 a4 a5 : ReasoningTier) × (policy.consequence_floors signature.consequence ≡ some a1)
      × (policy.irreversibility_floors signature.irreversibility ≡ some a2)
      × (policy.ambiguity_floors signature.ambiguity ≡ some a3)
      × (policy.evidence_scarcity_floors signature.evidence_scarcity ≡ some a4)
      × (policy.search_space_floors signature.search_space ≡ some a5)
      × (tier
          ≡ highest
              (is_critical signature.consequence)
              (is_critical signature.irreversibility)
              a1
              a2
              a3
              a4
              a5)
unfolding select_tier highest
select_tier_inv signature policy tier h =
    let (a1, e1, h1) =
      >>=-eq-ok (or_key_error (policy.consequence_floors signature.consequence)) _ h in
    let (a2, e2, h2) =
      >>=-eq-ok (or_key_error (policy.irreversibility_floors signature.irreversibility)) _ h1 in
    let (a3, e3, h3) =
      >>=-eq-ok (or_key_error (policy.ambiguity_floors signature.ambiguity)) _ h2 in
    let (a4, e4, h4) =
      >>=-eq-ok (or_key_error (policy.evidence_scarcity_floors signature.evidence_scarcity)) _ h3 in
    let (a5, e5, h5) =
      >>=-eq-ok (or_key_error (policy.search_space_floors signature.search_space)) _ h4 in
    (
      a1,
      a2,
      a3,
      a4,
      a5,
      or_key_error-ok _ e1,
      or_key_error-ok _ e2,
      or_key_error-ok _ e3,
      or_key_error-ok _ e4,
      or_key_error-ok _ e5,
      ground arith,
    )

-- With a floor for each dimension there is a tier.
pub select_tier_total :
    {F : Type 0} (signature : TaskSignature) (policy : TierPolicy F)
    (a1 a2 a3 a4 a5 : ReasoningTier)
    → policy.consequence_floors signature.consequence ≡ some a1
    → policy.irreversibility_floors signature.irreversibility ≡ some a2
    → policy.ambiguity_floors signature.ambiguity ≡ some a3
    → policy.evidence_scarcity_floors signature.evidence_scarcity ≡ some a4
    → policy.search_space_floors signature.search_space ≡ some a5
    → (tier : ReasoningTier) × (select_tier signature policy ≡ ok tier)
unfolding select_tier highest
select_tier_total signature policy a1 a2 a3 a4 a5 e1 e2 e3 e4 e5 = (
  highest (is_critical signature.consequence) (is_critical signature.irreversibility) a1 a2 a3 a4
      a5,
  ground arith,
)

highest-order :
    (c i : Bool) (a1 a2 a3 a4 a5 : ReasoningTier)
    → (c && i ≡ true) × (tier_order (highest c i a1 a2 a3 a4 a5) ≡ 5)
      ⊎ (c && i ≡ false)
        × (tier_order (highest c i a1 a2 a3 a4 a5)
            ≡ max
                (max (max (max (tier_order a1) (tier_order a2)) (tier_order a3)) (tier_order a4))
                (tier_order a5))
unfolding highest
highest-order c i a1 a2 a3 a4 a5 = elim (Bool-cases (c && i)) [
  | inl e ↦ inl (e, rw e)
  | inr e ↦ inr (
    e,
    rw e (
        omega (
          arith,
          max_tier-order a1 a2,
          max_tier-order (max_tier a1 a2) a3,
          max_tier-order (max_tier (max_tier a1 a2) a3) a4,
          max_tier-order (max_tier (max_tier (max_tier a1 a2) a3) a4) a5,
        )),
  )
]

highest_upper :
    (c i : Bool) (a1 a2 a3 a4 a5 : ReasoningTier)
    → let t = tier_order (highest c i a1 a2 a3 a4 a5) in
      (tier_order a1 ≤ t)
      × (tier_order a2 ≤ t)
      × (tier_order a3 ≤ t)
      × (tier_order a4 ≤ t)
      × (tier_order a5 ≤ t)
highest_upper c i a1 a2 a3 a4 a5 = omega (
  arith,
  highest-order c i a1 a2 a3 a4 a5,
  tier_order-le a1,
  tier_order-le a2,
  tier_order-le a3,
  tier_order-le a4,
  tier_order-le a5,
)

Keeps-of_le :
    (floor : Option ReasoningTier) (a tier : ReasoningTier)
    → floor ≡ some a
    → tier_order a ≤ tier_order tier
    → Keeps floor tier
Keeps-of_le floor a tier e h required e' =
    let same : a ≡ required = ground arith in subst (λ x. tier_order x ≤ tier_order tier) same h

pub select_tier-IsFloor :
    {F : Type 0} (signature : TaskSignature) (policy : TierPolicy F) (tier : ReasoningTier)
    → select_tier signature policy ≡ ok tier
    → IsFloor signature policy tier
select_tier-IsFloor signature policy tier h =
    let (a1, a2, a3, a4, a5, e1, e2, e3, e4, e5, same) = select_tier_inv signature policy tier h in
    let (u1, u2, u3, u4, u5) =
      highest_upper (is_critical signature.consequence) (is_critical signature.irreversibility) a1
        a2 a3 a4 a5 in
    subst (IsFloor signature policy) (sym same) (record {
      consequence = Keeps-of_le _ a1 _ e1 u1;
      irreversibility = Keeps-of_le _ a2 _ e2 u2;
      ambiguity = Keeps-of_le _ a3 _ e3 u3;
      evidence = Keeps-of_le _ a4 _ e4 u4;
      space = Keeps-of_le _ a5 _ e5 u5;
    })

abbrev pub ordinal_order : Ordinal4 → ℕ
ordinal_order Ordinal4.low = 0
ordinal_order Ordinal4.medium = 1
ordinal_order Ordinal4.high = 2
ordinal_order Ordinal4.critical = 3

abbrev pub space_order : SearchSpaceClass → ℕ
space_order SearchSpaceClass.closed = 0
space_order SearchSpaceClass.bounded = 1
space_order SearchSpaceClass.open_ended = 2

-- No dimension of `s` is above that of `s'`.
pub record IsBelow (s s' : TaskSignature) : Type 0 where
  pub consequence : ordinal_order s.consequence ≤ ordinal_order s'.consequence
  pub irreversibility : ordinal_order s.irreversibility ≤ ordinal_order s'.irreversibility
  pub ambiguity : ordinal_order s.ambiguity ≤ ordinal_order s'.ambiguity
  pub evidence : ordinal_order s.evidence_scarcity ≤ ordinal_order s'.evidence_scarcity
  pub space : space_order s.search_space ≤ space_order s'.search_space

-- A table of floors that does not fall as the dimension rises.
abbrev pub Rises : {D : Type 0} → (D → ℕ) → (D → Option ReasoningTier) → Type 0
Rises {D} order floors =
    (d d' : D) (a b : ReasoningTier)
    → order d ≤ order d'
    → floors d ≡ some a
    → floors d' ≡ some b
    → tier_order a ≤ tier_order b

pub record IsMonotone {F : Type 0} (policy : TierPolicy F) : Type 0 where
  pub consequence : Rises ordinal_order policy.consequence_floors
  pub irreversibility : Rises ordinal_order policy.irreversibility_floors
  pub ambiguity : Rises ordinal_order policy.ambiguity_floors
  pub evidence : Rises ordinal_order policy.evidence_scarcity_floors
  pub space : Rises space_order policy.search_space_floors

is_critical_rises :
    (s s' : TaskSignature)
    → IsBelow s s'
    → is_critical s.consequence && is_critical s.irreversibility ≡ true
    → is_critical s'.consequence && is_critical s'.irreversibility ≡ true
is_critical_rises s s' below h = ground arith

-- Under a policy whose floors do not fall as a dimension rises, a task that is nowhere below another
-- one is not given a lower tier.
pub select_tier_monotone :
    {F : Type 0} (policy : TierPolicy F) (s s' : TaskSignature) (tier tier' : ReasoningTier)
    → IsMonotone policy
    → IsBelow s s'
    → select_tier s policy ≡ ok tier
    → select_tier s' policy ≡ ok tier'
    → tier_order tier ≤ tier_order tier'
select_tier_monotone policy s s' tier tier' m below h h' =
    let (a1, a2, a3, a4, a5, e1, e2, e3, e4, e5, same) = select_tier_inv s policy tier h in
    let (b1, b2, b3, b4, b5, f1, f2, f3, f4, f5, same') = select_tier_inv s' policy tier' h' in
    let i1 = m.consequence s.consequence s'.consequence a1 b1 below.consequence e1 f1 in
    let i2 =
      m.irreversibility s.irreversibility s'.irreversibility a2 b2 below.irreversibility e2 f2 in
    let i3 = m.ambiguity s.ambiguity s'.ambiguity a3 b3 below.ambiguity e3 f3 in
    let i4 = m.evidence s.evidence_scarcity s'.evidence_scarcity a4 b4 below.evidence e4 f4 in
    let i5 = m.space s.search_space s'.search_space a5 b5 below.space e5 f5 in
    let o =
      highest-order (is_critical s.consequence) (is_critical s.irreversibility) a1 a2 a3 a4 a5 in
    let o' =
      highest-order (is_critical s'.consequence) (is_critical s'.irreversibility) b1 b2 b3 b4 b5 in
    rw same (rw same' (compare_cases s s' below _ _ _ _ o o' (tier_order-le _) (omega arith)))
  where
    compare_cases :
        (s s' : TaskSignature)
        → IsBelow s s'
        → (n n' k k' : ℕ)
        → (is_critical s.consequence && is_critical s.irreversibility ≡ true) × (n ≡ 5)
          ⊎ (is_critical s.consequence && is_critical s.irreversibility ≡ false) × (n ≡ k)
        → (is_critical s'.consequence && is_critical s'.irreversibility ≡ true) × (n' ≡ 5)
          ⊎ (is_critical s'.consequence && is_critical s'.irreversibility ≡ false) × (n' ≡ k')
        → n ≤ 5
        → k ≤ k'
        → n ≤ n'
    compare_cases s s' below n n' k k' (inl p) (inl q) h g = omega arith
    compare_cases s s' below n n' k k' (inr p) (inl q) h g = omega arith
    compare_cases s s' below n n' k k' (inr p) (inr q) h g = omega arith
    compare_cases s s' below n n' k k' (inl p) (inr q) h g = cc (is_critical_rises s s' below p.0)
