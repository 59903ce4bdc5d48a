-- ===== src/Context/Deltas.antt =====
-- A delta of src/fre/modules/m12_context.py brings its base to its target.
use reasoning_engine.Prelude.{
  ℕ, ◌≡◌, refl, sym, subst, ap, ◌∙◌, true, false, not, Option, none, some, List, [], ◌∷◌, ◌++◌, leb,
  ◌==◌, ==→eq, ==-refl, if◌then◌else◌, lookup, nat_eq, assign, union_from, In, In-of_sort_by,
  Bool-cases, ◌⊎◌, inl, inr, ok, arith,
}
use reasoning_engine.Context.{
  DeltaOperation, ContextDeltaPacket, PacketModel, pop, keys_of, operation_for, operations_for,
  all_keys, unsealed, generate_delta, apply_operations, apply_delta,
}
use reasoning_engine.Context.Fields.{
  lookup-assign_own, lookup-assign_other, lookup-pop_own, lookup-pop_other, lookup-keys_of,
  In-union_from_old, In-union_from_new,
}

module _ {C J : Type 0} (packets : PacketModel C J) (null : J) where
  -- the effect of the operations on one field
  abbrev set_field : ℕ → Option J → Option J → List (ℕ × J) → List (ℕ × J)
  set_field key _ none data_ = pop key data_
  set_field key none (some new) data_ = assign key new data_
  set_field key (some old) (some new) data_ =
      if not (packets.same_json old new) then assign key new data_ else data_

  abbrev set_fields : List ℕ → List (ℕ × J) → List (ℕ × J) → List (ℕ × J) → List (ℕ × J)
  set_fields [] base_data target_data data_ = data_
  set_fields (key ∷ keys) base_data target_data data_ =
      set_fields keys base_data target_data
        (set_field key (lookup key base_data) (lookup key target_data) data_)

  module _ (seal : ContextDeltaPacket J → ℕ)
      (fields : (key : ℕ) → packets.is_field key ≡ true) where
    operation_for-set_field :
        (key : ℕ) (old new : Option J) (ops : List (DeltaOperation J)) (data_ : List (ℕ × J))
        → apply_operations packets seal null (operation_for packets key old new ++ ops) data_
          ≡ apply_operations packets seal null ops (set_field key old new data_)
    unfolding apply_operations operation_for
    operation_for-set_field key none none ops data_ = rw (fields key) refl
    operation_for-set_field key (some old) none ops data_ = rw (fields key) refl
    operation_for-set_field key none (some new) ops data_ = rw (fields key) refl
    operation_for-set_field key (some old) (some new) ops data_ =
        elim (Bool-cases (packets.same_json old new)) [
          | inl e ↦ rw e refl
          | inr e ↦ rw e (rw (fields key) refl)
        ]

    operations_for-set_fields :
        (keys : List ℕ) (base_data target_data data_ : List (ℕ × J))
        → apply_operations packets seal null
            (operations_for packets keys base_data target_data)
            data_
          ≡ ok (set_fields keys base_data target_data data_)
    unfolding apply_operations operations_for
    operations_for-set_fields [] base_data target_data data_ = refl
    operations_for-set_fields (key ∷ keys) base_data target_data data_ =
        operation_for-set_field key (lookup key base_data) (lookup key target_data)
          (operations_for packets keys base_data target_data) data_
        ∙ operations_for-set_fields keys base_data target_data
            (set_field key (lookup key base_data) (lookup key target_data) data_)

  set_field-other :
      (key other : ℕ) (old new : Option J) (data_ : List (ℕ × J))
      → (other == key) ≡ false
      → lookup other (set_field key old new data_) ≡ lookup other data_
  set_field-other key other none none data_ h = lookup-pop_other key other data_ h
  set_field-other key other (some old) none data_ h = lookup-pop_other key other data_ h
  set_field-other key other none (some new) data_ h = lookup-assign_other key other new data_ h
  set_field-other key other (some old) (some new) data_ h =
      elim (Bool-cases (packets.same_json old new)) [
        | inl e ↦ rw e refl
        | inr e ↦ rw e (lookup-assign_other key other new data_ h)
      ]

  -- A field that holds the old or the new value holds the new one afterwards, where the two are the
  -- same if they compare equal.
  set_field-own :
      (key : ℕ) (old new : Option J) (data_ : List (ℕ × J))
      → ((a b : J) → old ≡ some a → new ≡ some b → packets.same_json a b ≡ true → a ≡ b)
      → (lookup key data_ ≡ old) ⊎ (lookup key data_ ≡ new)
      → lookup key (set_field key old new data_) ≡ new
  set_field-own key none none data_ same h = lookup-pop_own key data_
  set_field-own key (some old) none data_ same h = lookup-pop_own key data_
  set_field-own key none (some new) data_ same h = lookup-assign_own key new data_
  set_field-own key (some old) (some new) data_ same h =
      elim (Bool-cases (packets.same_json old new)) [
        | inl e ↦ rw e (elim h [ inl k ↦ k ∙ ap some (same old new refl refl e) | inr k ↦ k ])
        | inr e ↦ rw e (lookup-assign_own key new data_)
      ]

  -- Values that stand under one key of the two dumps are the same if they compare equal.
  abbrev pub IsTold : List (ℕ × J) → List (ℕ × J) → Type 0
  IsTold base_data target_data =
      (key : ℕ) (old new : J)
      → lookup key base_data ≡ some old
      → lookup key target_data ≡ some new
      → packets.same_json old new ≡ true
      → old ≡ new

  module _ (base_data target_data : List (ℕ × J)) (same : IsTold base_data target_data) where
    abbrev Between : List (ℕ × J) → Type 0
    Between data_ =
        (k : ℕ) → (lookup k data_ ≡ lookup k base_data) ⊎ (lookup k data_ ≡ lookup k target_data)

    set_field-Between :
        (key : ℕ) (data_ : List (ℕ × J))
        → Between data_
        → Between (set_field key (lookup key base_data) (lookup key target_data) data_)
    set_field-Between key data_ h k = elim (Bool-cases (k == key)) [
      | inl e ↦ inr (
          subst
            (λ x.
              lookup x (set_field key (lookup key base_data) (lookup key target_data) data_)
              ≡ lookup x target_data)
            (sym (==→eq k key e))
            (set_field-own key (lookup key base_data) (lookup key target_data) data_ (same key)
              (h key)))
      | inr e ↦
          let kept =
            set_field-other key k (lookup key base_data) (lookup key target_data) data_ e in
          elim (h k) [ inl b ↦ inl (kept ∙ b) | inr t ↦ inr (kept ∙ t) ]
    ]

    -- Every field among the keys has the target's value in the end, and one that has it keeps it.
    set_fields-target :
        (keys : List ℕ) (data_ : List (ℕ × J)) (k : ℕ)
        → Between data_
        → In k keys ⊎ (lookup k data_ ≡ lookup k target_data)
        → lookup k (set_fields keys base_data target_data data_) ≡ lookup k target_data
    set_fields-target [] data_ k h (inl m) = absurd m
    set_fields-target [] data_ k h (inr t) = t
    set_fields-target (key ∷ keys) data_ k h m =
        set_fields-target keys (set_field key (lookup key base_data) (lookup key target_data) data_)
          k (set_field-Between key data_ h)
          (elim (Bool-cases (k == key)) [
            | inl e ↦ inr (
                subst
                  (λ x.
                    lookup x (set_field key (lookup key base_data) (lookup key target_data) data_)
                    ≡ lookup x target_data)
                  (sym (==→eq k key e))
                  (set_field-own key (lookup key base_data) (lookup key target_data) data_
                    (same key) (h key)))
            | inr e ↦ later e m
          ])
      where
        later :
            (k == key) ≡ false
            → In k (key ∷ keys) ⊎ (lookup k data_ ≡ lookup k target_data)
            → In k keys
              ⊎ (lookup k (set_field key (lookup key base_data) (lookup key target_data) data_)
                  ≡ lookup k target_data)
        later e (inl (inl q)) =
            let is : (k == key) ≡ true = ground (arith, q) in absurd (ground (arith, is, e))
        later e (inl (inr n)) = inl n
        later e (inr t) =
            inr (set_field-other key k (lookup key base_data) (lookup key target_data) data_ e ∙ t)

    set_fields-all :
        (k : ℕ)
        → lookup k
            (set_fields (all_keys packets base_data target_data) base_data target_data base_data)
          ≡ lookup k target_data
    set_fields-all k =
        set_fields-target (all_keys packets base_data target_data) base_data k (λ x. inl refl)
          (listed (lookup-keys_of k base_data) (lookup-keys_of k target_data))
      where
        first : List ℕ
        first = union_from [] (keys_of base_data)

        listed :
            In k (keys_of base_data) ⊎ (lookup k base_data ≡ none)
            → In k (keys_of target_data) ⊎ (lookup k target_data ≡ none)
            → In k (all_keys packets base_data target_data)
              ⊎ (lookup k base_data ≡ lookup k target_data)
        listed (inl m) _ = inl (
            In-of_sort_by leb k (union_from first (keys_of target_data)) (
              In-union_from_old k first (keys_of target_data)
                (In-union_from_new k [] (keys_of base_data) m)))
        listed (inr _) (inl m) = inl (
            In-of_sort_by leb k (union_from first (keys_of target_data))
              (In-union_from_new k first (keys_of target_data) m))
        listed (inr b) (inr t) = inr (b ∙ sym t)

  -- A delta that was generated takes its base to its target where no value of the base's dump compares
  -- equal to the target's under the same key without being the same. The fields' names have no slash,
  -- the target has the hash of its content, and `model_validate` gives the target back from every
  -- dictionary with the fields of its dump.
  pub apply_delta-generate_delta :
      (seal : ContextDeltaPacket J → ℕ) (base target : C)
      → IsTold (packets.model_dump base) (packets.model_dump target)
      → ((key : ℕ) → packets.is_field key ≡ true)
      → packets.content_hash target ≡ packets.packet_hash target
      → ((data_ : List (ℕ × J))
          → ((k : ℕ) → lookup k data_ ≡ lookup k (packets.model_dump target))
          → packets.model_validate data_ ≡ some target)
      → apply_delta packets seal null base (generate_delta packets seal base target) ≡ ok target
  unfolding apply_delta generate_delta
  apply_delta-generate_delta seal base target same fields hashed restores =
      let base_data = packets.model_dump base in
      let target_data = packets.model_dump target in
      let applied =
        operations_for-set_fields seal fields (all_keys packets base_data target_data) base_data
          target_data base_data in
      let valid =
        restores
          (set_fields (all_keys packets base_data target_data) base_data target_data base_data)
          (set_fields-all base_data target_data same) in
      rw (==-refl (seal (unsealed packets seal base target))) (
        rw (==-refl (packets.packet_hash base)) (
          rw applied (
            rw valid (
              rw (==-refl (packets.packet_hash target))
                (rw hashed (rw (==-refl (packets.packet_hash target)) refl))))))
