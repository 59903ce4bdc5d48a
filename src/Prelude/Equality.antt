-- ===== src/Prelude/Equality.antt =====
-- Equality of the values that the code keeps in sets and dictionaries.
use Prim.Native.Nat.{ℕ}
use mathlib.Core.Path.{◌≡◌, refl}
use mathlib.Core.Logic.{◌↔◌}
use mathlib.Core.Bool.{Bool, true}
use mathlib.Core.Option.{Option, none, some}
use mathlib.Core.List.{List, [], ◌∷◌}
use native.Mathlib.Omega.{arith}
use reasoning_engine.Prelude.Tests.{◌==◌, if◌then◌else◌}
use reasoning_engine.Prelude.Lists.{In, any, any_true→In, In→any_true}

pub record Eq (A : Type 0) : Type 0 where
  pub beq : A → A → Bool
  pub beq_iff : (a b : A) → (beq a b ≡ true) ↔ (a ≡ b)

pub nat_beq_iff : (a b : ℕ) → ((a == b) ≡ true) ↔ (a ≡ b)
nat_beq_iff a b = ground arith

instance abbrev pub nat_eq : Eq ℕ
nat_eq = record { beq = ◌==◌; beq_iff = nat_beq_iff }

module _ {A : Type 0} ⦃e : Eq A⦄ where
  -- `a in xs`
  abbrev pub mem : A → List A → Bool
  mem a xs = any (e.beq a) xs

  pub mem→In : (a : A) (xs : List A) → mem a xs ≡ true → In a xs
  mem→In a xs h = let (b, m, t) = any_true→In (e.beq a) xs h in rw ((e.beq_iff a b).0 t) m

  pub In→mem : (a : A) (xs : List A) → In a xs → mem a xs ≡ true
  In→mem a xs m = In→any_true (e.beq a) a xs m ((e.beq_iff a a).1 refl)

  -- `dictionary.get(key)`
  abbrev pub lookup {ℓ} : {V : Type ℓ} → A → List (A × V) → Option V
  lookup a [] = none
  lookup a ((k, v) ∷ d) = if e.beq a k then some v else lookup a d
