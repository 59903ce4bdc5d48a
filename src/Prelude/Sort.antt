-- ===== src/Prelude/Sort.antt =====
-- Python's `sorted`, a stable sort by an order on keys.
use Prim.Native.Nat.{ℕ, ◌+◌}
use mathlib.Core.Path.{◌≡◌, refl, subst, sym, ap, ◌∙◌}
use mathlib.Core.Logic.{◌≢◌, ◌⊎◌, inl, inr}
use mathlib.Core.Bool.{◌||◌, Bool, true, false}
use mathlib.Core.List.{List, [], ◌∷◌, ◌++◌}
use native.Mathlib.Omega.{arith}
use reasoning_engine.Prelude.Tests.{if◌then◌else◌, Bool-cases}
use reasoning_engine.Prelude.Lists.{any, In, All, All-of_In, All-In, sum_by, keep, In-keep}

module _ {A : Type 0} (le : A → A → Bool) where
  pub insert_by : A → List A → List A
  insert_by x [] = x ∷ []
  insert_by x (y ∷ ys) = if le x y then x ∷ y ∷ ys else y ∷ insert_by x ys

  -- `sorted(xs, key=...)`, where `le x y` says that the key of `x` is at most that of `y`
  unfoldable pub sort_by : List A → List A
  unfolding insert_by
  sort_by [] = []
  sort_by (x ∷ xs) = insert_by x (sort_by xs)

  abbrev pub IsSorted : List A → Type 0
  IsSorted [] = Unit
  IsSorted (x ∷ xs) = All (λ y. le x y ≡ true) xs × IsSorted xs

  In-insert_by : (a x : A) (ys : List A) → In a (insert_by x ys) → (a ≡ x) ⊎ In a ys
  unfolding insert_by
  In-insert_by a x [] m = m
  In-insert_by a x (y ∷ ys) m = elim (Bool-cases (le x y)) [
    | inl e ↦ subst (λ b. In a (if b then x ∷ y ∷ ys else y ∷ insert_by x ys)) e m
    | inr e ↦
        later (subst (λ b. In a (if b then x ∷ y ∷ ys else y ∷ insert_by x ys)) e m)
          (In-insert_by a x ys)
  ]
    where
      later :
          In a (y ∷ insert_by x ys)
          → (In a (insert_by x ys) → (a ≡ x) ⊎ In a ys)
          → (a ≡ x) ⊎ In a (y ∷ ys)
      later (inl e) ih = inr (inl e)
      later (inr n) ih = elim (ih n) [ inl e ↦ inl e | inr k ↦ inr (inr k) ]

  In-of_insert_by : (a x : A) (ys : List A) → (a ≡ x) ⊎ In a ys → In a (insert_by x ys)
  unfolding insert_by
  In-of_insert_by a x [] m = m
  In-of_insert_by a x (y ∷ ys) m = elim (Bool-cases (le x y)) [
    | inl e ↦ rw e m
    | inr e ↦ rw e (later m (In-of_insert_by a x ys))
  ]
    where
      later :
          (a ≡ x) ⊎ In a (y ∷ ys)
          → ((a ≡ x) ⊎ In a ys → In a (insert_by x ys))
          → In a (y ∷ insert_by x ys)
      later (inl e) ih = inr (ih (inl e))
      later (inr (inl e)) ih = inl e
      later (inr (inr n)) ih = inr (ih (inr n))

  pub In-sort_by : (a : A) (xs : List A) → In a (sort_by xs) → In a xs
  unfolding sort_by
  In-sort_by a [] m = m
  In-sort_by a (x ∷ xs) m = elim (In-insert_by a x (sort_by xs) m) [
    | inl e ↦ inl e
    | inr n ↦ inr (In-sort_by a xs n)
  ]

  pub In-of_sort_by : (a : A) (xs : List A) → In a xs → In a (sort_by xs)
  unfolding sort_by
  In-of_sort_by a [] m = m
  In-of_sort_by a (x ∷ xs) (inl e) = In-of_insert_by a x (sort_by xs) (inl e)
  In-of_sort_by a (x ∷ xs) (inr n) = In-of_insert_by a x (sort_by xs) (inr (In-of_sort_by a xs n))

  pub All-sort_by : (P : A → Type 0) (xs : List A) → All P xs → All P (sort_by xs)
  All-sort_by P xs h = All-of_In P (sort_by xs) λ a m. All-In P a xs h (In-sort_by a xs m)

  sum_by-insert_by :
      (f : A → ℕ) (x : A) (ys : List A) → sum_by f (insert_by x ys) ≡ f x + sum_by f ys
  unfolding insert_by
  sum_by-insert_by f x [] = refl
  sum_by-insert_by f x (y ∷ ys) = ground (arith, sum_by-insert_by f x ys)

  pub sum_by-sort_by : (f : A → ℕ) (xs : List A) → sum_by f (sort_by xs) ≡ sum_by f xs
  unfolding sort_by
  sum_by-sort_by f [] = refl
  sum_by-sort_by f (x ∷ xs) = omega (arith, sum_by-insert_by f x (sort_by xs), sum_by-sort_by f xs)

  any-insert_by : (p : A → Bool) (x : A) (ys : List A) → any p (insert_by x ys) ≡ (p x || any p ys)
  unfolding insert_by
  any-insert_by p x [] = refl
  any-insert_by p x (y ∷ ys) = ground (arith, any-insert_by p x ys)

  pub any-sort_by : (p : A → Bool) (xs : List A) → any p (sort_by xs) ≡ any p xs
  unfolding sort_by
  any-sort_by p [] = refl
  any-sort_by p (x ∷ xs) = ground (arith, any-insert_by p x (sort_by xs), any-sort_by p xs)

  insert_by-ne-nil : (x : A) (ys : List A) → insert_by x ys ≢ []
  unfolding insert_by
  insert_by-ne-nil x [] h = cc
  insert_by-ne-nil x (y ∷ ys) h = ground arith

  pub sort_by-ne-nil : (x : A) (xs : List A) → sort_by (x ∷ xs) ≢ []
  unfolding sort_by
  sort_by-ne-nil x xs = insert_by-ne-nil x (sort_by xs)

  -- The order that the sort needs: any two compare, and `le` is transitive.
  module _ (total : (x y : A) → le x y ≡ false → le y x ≡ true)
      (trans : (x y z : A) → le x y ≡ true → le y z ≡ true → le x z ≡ true) where
    insert_by-IsSorted : (x : A) (ys : List A) → IsSorted ys → IsSorted (insert_by x ys)
    unfolding insert_by
    insert_by-IsSorted x [] s = (tt, tt)
    insert_by-IsSorted x (y ∷ ys) s = elim (Bool-cases (le x y)) [
      | inl e ↦ rw e (
        (
          e,
          All-of_In (λ z. le x z ≡ true) ys
              λ a m. trans x y a e (All-In (λ z. le y z ≡ true) a ys s.0 m),
        ),
        s,
      )
      | inr e ↦ rw e (
        All-of_In (λ z. le y z ≡ true) (insert_by x ys)
            (λ a m. elim (In-insert_by a x ys m) [
              | inl q ↦ rw q (total x y e)
              | inr n ↦ All-In (λ z. le y z ≡ true) a ys s.0 n
            ]),
        insert_by-IsSorted x ys s.1,
      )
    ]

    pub sort_by-IsSorted : (xs : List A) → IsSorted (sort_by xs)
    unfolding sort_by
    sort_by-IsSorted [] = tt
    sort_by-IsSorted (x ∷ xs) = insert_by-IsSorted x (sort_by xs) (sort_by-IsSorted xs)

    insert_by_least : (x : A) (ys : List A) → All (λ y. le x y ≡ true) ys → insert_by x ys ≡ x ∷ ys
    unfolding insert_by
    insert_by_least x [] h = refl
    insert_by_least x (y ∷ ys) h = rw (h.0)

    -- Filtering and inserting commute in a sorted list.
    keep-insert_by :
        (p : A → Bool) (x : A) (ys : List A)
        → IsSorted ys
        → p x ≡ true
        → keep p (insert_by x ys) ≡ insert_by x (keep p ys)
    unfolding insert_by
    keep-insert_by p x [] s h = rw h
    keep-insert_by p x (y ∷ ys) s h = elim (Bool-cases (le x y)) [
      | inl e ↦ rw e (
          rw h (
            sym (
              insert_by_least x (keep p (y ∷ ys)) (
                All-of_In (λ z. le x z ≡ true) (keep p (y ∷ ys))
                  (λ a m. least a (In-keep p a (y ∷ ys) m).0 e)))))
      | inr e ↦ elim (Bool-cases (p y)) [
        | inl f ↦ rw e (rw f (rw e (ap (◌∷◌ y) (keep-insert_by p x ys s.1 h))))
        | inr f ↦ rw e (rw f (keep-insert_by p x ys s.1 h))
      ]
    ]
      where
        least : (a : A) → In a (y ∷ ys) → le x y ≡ true → le x a ≡ true
        least a (inl q) e = rw q e
        least a (inr n) e = trans x y a e (All-In (λ z. le y z ≡ true) a ys s.0 n)

    pub sort_by_of_IsSorted : (xs : List A) → IsSorted xs → sort_by xs ≡ xs
    unfolding sort_by
    sort_by_of_IsSorted [] s = refl
    sort_by_of_IsSorted (x ∷ xs) s = rw (sort_by_of_IsSorted xs s.1) (insert_by_least x xs s.0)

    -- Sorting one more element in and filtering it out again gives the list back.
    pub keep-sort_by_added :
        (p : A → Bool) (a : A) (xs : List A)
        → IsSorted xs
        → All (λ x. p x ≡ true) xs
        → p a ≡ false
        → keep p (sort_by (xs ++ a ∷ [])) ≡ xs
    unfolding sort_by insert_by
    keep-sort_by_added p a [] s h e = rw e
    keep-sort_by_added p a (x ∷ xs) s h e =
        keep-insert_by p x (sort_by (xs ++ a ∷ [])) (sort_by-IsSorted (xs ++ a ∷ [])) h.0
        ∙ rw (keep-sort_by_added p a xs s.1 h.1 e) (insert_by_least x xs s.0)
