-- ===== src/Prelude/Sums.antt =====
-- Sums over a list under the operations that the code makes on it: appending, filtering, sorting.
use Prim.Native.Nat.{ℕ, ◌+◌, ◌≤◌}
use mathlib.Core.Path.{◌≡◌, refl}
use mathlib.Core.Logic.{inl, inr}
use mathlib.Core.Bool.{Bool, true, false, not}
use mathlib.Core.Option.{some}
use mathlib.Core.List.{List, [], ◌∷◌, ◌++◌}
use native.Mathlib.Omega.{arith}
use reasoning_engine.Prelude.Tests.{if◌then◌else◌, Bool-cases}
use reasoning_engine.Prelude.Lists.{sum_by, any, keep, find, In-keep, All-of_In, All-In}
use reasoning_engine.Prelude.Sort.{IsSorted}

module _ {A : Type 0} where
  -- how many elements pass the test
  abbrev pub count_by : (A → Bool) → List A → ℕ
  count_by p = sum_by (λ x. if p x then 1 else 0)

  pub sum_by-append : (f : A → ℕ) (xs ys : List A) → sum_by f (xs ++ ys) ≡ sum_by f xs + sum_by f ys
  sum_by-append f [] ys = omega arith
  sum_by-append f (x ∷ xs) ys = omega (arith, sum_by-append f xs ys)

  pub count_by_zero : (p : A → Bool) (xs : List A) → any p xs ≡ false → count_by p xs ≡ 0
  count_by_zero p [] h = refl
  count_by_zero p (x ∷ xs) h = ground (arith, count_by_zero p xs)

  pub sum_by-keep-le : (f : A → ℕ) (p : A → Bool) (xs : List A) → sum_by f (keep p xs) ≤ sum_by f xs
  sum_by-keep-le f p [] = omega arith
  sum_by-keep-le f p (x ∷ xs) = ground (arith, sum_by-keep-le f p xs)

  pub keep_none : (p : A → Bool) (xs : List A) → any p xs ≡ false → keep (λ x. not (p x)) xs ≡ xs
  keep_none p [] h = refl
  keep_none p (x ∷ xs) h = ground (arith, keep_none p xs)

  pub any_of_count : (p : A → Bool) (xs : List A) → count_by p xs ≤ 0 → any p xs ≡ false
  any_of_count p [] h = refl
  any_of_count p (x ∷ xs) h = ground (arith, any_of_count p xs)

  -- Taking out what was found takes its amount out of the sum, at least,
  pub sum_by-keep_found :
      (f : A → ℕ) (p : A → Bool) (a : A) (xs : List A)
      → find p xs ≡ some a
      → sum_by f (keep (λ x. not (p x)) xs) + f a ≤ sum_by f xs
  sum_by-keep_found f p a [] h = cc
  sum_by-keep_found f p a (x ∷ xs) h = elim (Bool-cases (p x)) [
    | inl e ↦ ground (arith, sum_by-keep-le f (λ x. not (p x)) xs)
    | inr e ↦ ground (arith, sum_by-keep_found f p a xs)
  ]

  -- and exactly that amount where one element only passes the test.
  pub sum_by-keep_once :
      (f : A → ℕ) (p : A → Bool) (a : A) (xs : List A)
      → find p xs ≡ some a
      → count_by p xs ≤ 1
      → sum_by f (keep (λ x. not (p x)) xs) + f a ≡ sum_by f xs
  sum_by-keep_once f p a [] h once = cc
  sum_by-keep_once f p a (x ∷ xs) h once = elim (Bool-cases (p x)) [
    | inl e ↦ ground (arith, keep_none p xs, any_of_count p xs)
    | inr e ↦ ground (arith, sum_by-keep_once f p a xs)
  ]

  pub IsSorted-keep :
      (le : A → A → Bool) (p : A → Bool) (xs : List A) → IsSorted le xs → IsSorted le (keep p xs)
  IsSorted-keep le p [] s = tt
  IsSorted-keep le p (x ∷ xs) s = elim (Bool-cases (p x)) [
    | inl e ↦ rw e (
      All-of_In (λ y. le x y ≡ true) (keep p xs)
          (λ a m. All-In (λ y. le x y ≡ true) a xs s.0 (In-keep p a xs m).0),
      IsSorted-keep le p xs s.1,
    )
    | inr e ↦ rw e (IsSorted-keep le p xs s.1)
  ]
