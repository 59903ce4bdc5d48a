-- ===== src/Context/Fields.antt =====
-- Dictionaries of fields under the operations of src/fre/modules/m12_context.py.
use reasoning_engine.Prelude.{
  ℕ, ◌≡◌, refl, false, none, some, List, [], ◌∷◌, ◌==◌, ==→eq, ==-refl, lookup, nat_eq, assign,
  add_to, union_from, mem, In, mem→In, In-append_left, In-append_right, Bool-cases, ◌⊎◌, inl, inr,
  arith,
}
use reasoning_engine.Context.{pop, keys_of}

module _ {J : Type 0} where
  pub lookup-assign_own :
      (key : ℕ) (v : J) (items : List (ℕ × J)) → lookup key (assign key v items) ≡ some v
  unfolding assign
  lookup-assign_own key v [] = rw (==-refl key) refl
  lookup-assign_own key v ((k, u) ∷ items) = elim (Bool-cases (key == k)) [
    | inl e ↦ rw e (rw e refl)
    | inr e ↦ rw e (rw e (lookup-assign_own key v items))
  ]

  pub lookup-assign_other :
      (key other : ℕ) (v : J) (items : List (ℕ × J))
      → (other == key) ≡ false
      → lookup other (assign key v items) ≡ lookup other items
  unfolding assign
  lookup-assign_other key other v [] h = rw h refl
  lookup-assign_other key other v ((k, u) ∷ items) h = elim (Bool-cases (key == k)) [
    | inl e ↦ let apart : (other == k) ≡ false = ground (arith, h, e) in rw e (rw apart refl)
    | inr e ↦ elim (Bool-cases (other == k)) [
      | inl o ↦ rw e (rw o refl)
      | inr o ↦ rw e (rw o (lookup-assign_other key other v items h))
    ]
  ]

  pub lookup-pop_own : (key : ℕ) (items : List (ℕ × J)) → lookup key (pop key items) ≡ none
  unfolding pop
  lookup-pop_own key [] = refl
  lookup-pop_own key ((k, u) ∷ items) = elim (Bool-cases (key == k)) [
    | inl e ↦ rw e (lookup-pop_own key items)
    | inr e ↦ rw e (rw e (lookup-pop_own key items))
  ]

  pub lookup-pop_other :
      (key other : ℕ) (items : List (ℕ × J))
      → (other == key) ≡ false
      → lookup other (pop key items) ≡ lookup other items
  unfolding pop
  lookup-pop_other key other [] h = refl
  lookup-pop_other key other ((k, u) ∷ items) h = elim (Bool-cases (key == k)) [
    | inl e ↦
        let apart : (other == k) ≡ false = ground (arith, h, e) in
        rw e (rw apart (lookup-pop_other key other items h))
    | inr e ↦ elim (Bool-cases (other == k)) [
      | inl o ↦ rw e (rw o refl)
      | inr o ↦ rw e (rw o (lookup-pop_other key other items h))
    ]
  ]

  -- A field is among the keys, or it is not there.
  pub lookup-keys_of :
      (key : ℕ) (items : List (ℕ × J)) → In key (keys_of items) ⊎ (lookup key items ≡ none)
  lookup-keys_of key [] = inr refl
  lookup-keys_of key ((k, u) ∷ items) = elim (Bool-cases (key == k)) [
    | inl e ↦ inl (inl (==→eq key k e))
    | inr e ↦ elim (lookup-keys_of key items) [ inl m ↦ inl (inr m) | inr n ↦ inr (rw e n) ]
  ]

In-add_to_old : (a b : ℕ) (xs : List ℕ) → In a xs → In a (add_to b xs)
In-add_to_old a b xs m = elim (Bool-cases (mem b xs)) [
  | inl e ↦ rw e m
  | inr e ↦ rw e (In-append_left a xs (b ∷ []) m)
]

In-add_to_new : (b : ℕ) (xs : List ℕ) → In b (add_to b xs)
In-add_to_new b xs = elim (Bool-cases (mem b xs)) [
  | inl e ↦ rw e (mem→In b xs e)
  | inr e ↦ rw e (In-append_right b xs (b ∷ []) (inl refl))
]

pub In-union_from_old : (a : ℕ) (xs ys : List ℕ) → In a xs → In a (union_from xs ys)
In-union_from_old a xs [] m = m
In-union_from_old a xs (y ∷ ys) m = In-union_from_old a (add_to y xs) ys (In-add_to_old a y xs m)

pub In-union_from_new : (a : ℕ) (xs ys : List ℕ) → In a ys → In a (union_from xs ys)
In-union_from_new a xs [] m = absurd m
In-union_from_new a xs (y ∷ ys) (inl e) =
    In-union_from_old a (add_to y xs) ys (rw e (In-add_to_new y xs))
In-union_from_new a xs (y ∷ ys) (inr m) = In-union_from_new a (add_to y xs) ys m
