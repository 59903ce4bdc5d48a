-- ===== src/Classifier/Audit.antt =====
-- Every change of a value by `classify` of src/fre/modules/m01_classifier.py has its record, so the
-- validator of `ClassificationRecord` in src/fre/domain/task.py passes.
use reasoning_engine.Prelude.{
  ℕ, ◌≡◌, refl, sym, subst, ap, ◌∙◌, true, false, none, some, List, [], ◌∷◌, ◌++◌, not, any, map,
  keep, All, In, IsDistinct, ◌==◌, ==→eq, ==-refl, mem, In→mem, is_subset, nat_eq, if◌then◌else◌,
  Bool-cases, inl, inr, All→any_false, All-of_In, All-In, In-keep, arith,
}
use reasoning_engine.Classifier.{Axis, ClassificationPolicy, is_empty}
use reasoning_engine.Classifier.Dimensions.{
  ClassificationDimensionResult, FloorOverrideRecord, Trace, note,
}
use reasoning_engine.Classifier.Record.{
  axis_rank, same_value, ClassificationRecord, deviates, by_axis, matches, is_exhaustive,
}
use reasoning_engine.Classifier.Floors.{IsHonest, same_value_refl}

is_subset-In : (xs ys : List ℕ) → ((a : ℕ) → In a xs → In a ys) → is_subset xs ys ≡ true
is_subset-In [] ys h = refl
is_subset-In (x ∷ xs) ys h =
    let found : mem x ys ≡ true = In→mem x ys (h x (inl refl)) in
    rw found (is_subset-In xs ys (λ a m. h a (inr m)))

module _ {F : Type 0} (policy : ClassificationPolicy F) (policy_hash : ℕ) where
  abbrev Item : Type 0
  Item = Axis × ClassificationDimensionResult F

  -- the record of a change of one dimension
  abbrev override_for : Item → FloorOverrideRecord
  override_for item = record {
    axis = item.0;
    reason = item.1.override_basis;
    policy_version = policy.version;
    policy_hash = policy_hash;
    previous_floor = item.1.estimated;
    new_floor = item.1.effective;
    approving_rule = item.1.override_basis;
  }

  -- the records of all changes
  abbrev overrides_of : List Item → List FloorOverrideRecord
  overrides_of [] = []
  overrides_of (item ∷ items) =
      if is_empty item.1.override_basis
      then overrides_of items
      else override_for item ∷ overrides_of items

  overrides_of-append :
      (items : List Item) (item : Item)
      → overrides_of (items ++ item ∷ []) ≡ (
          if is_empty item.1.override_basis
          then overrides_of items
          else overrides_of items ++ override_for item ∷ [])
  overrides_of-append [] item = elim (Bool-cases (is_empty item.1.override_basis)) [
    | inl e ↦ rw e refl
    | inr e ↦ rw e refl
  ]
  overrides_of-append (x ∷ items) item = ground (arith, overrides_of-append items item)

  -- The trace holds the record of every change, and the dimensions with these numbers.
  pub record IsAudited (names : List ℕ) (trace : Trace F) : Type 0 where
    pub overrides : trace.floor_overrides ≡ overrides_of trace.dimensions
    pub honest : All (λ (item : Item). IsHonest item.1) trace.dimensions
    pub named : map (λ (item : Item). axis_rank item.0) trace.dimensions ≡ names

  All-append :
      (items : List Item) (item : Item)
      → All (λ (i : Item). IsHonest i.1) items
      → IsHonest item.1
      → All (λ (i : Item). IsHonest i.1) (items ++ item ∷ [])
  All-append [] item h k = (k, tt)
  All-append (x ∷ items) item h k = (h.0, All-append items item h.1 k)

  map-append :
      (items : List Item) (item : Item)
      → map (λ (i : Item). axis_rank i.0) (items ++ item ∷ [])
        ≡ map (λ (i : Item). axis_rank i.0) items ++ axis_rank item.0 ∷ []
  map-append [] item = refl
  map-append (x ∷ items) item = ap (◌∷◌ (axis_rank x.0)) (map-append items item)

  pub note-IsAudited :
      (names : List ℕ) (name : Axis) (result : ClassificationDimensionResult F) (trace : Trace F)
      → IsAudited names trace
      → IsHonest result
      → IsAudited (names ++ axis_rank name ∷ []) (note policy policy_hash name result trace)
  unfolding note
  note-IsAudited names name result trace a h = record {
    overrides =
        ap
          (λ os.
            if is_empty result.override_basis then os else os ++ override_for (name, result) ∷ [])
          a.overrides
        ∙ sym (overrides_of-append trace.dimensions (name, result));
    honest = All-append trace.dimensions (name, result) a.honest h;
    named =
        map-append trace.dimensions (name, result) ∙ ap (λ ns. ns ++ axis_rank name ∷ []) a.named;
  }

  -- The deviated dimensions are those that have a record.
  deviated-audited :
      (items : List Item)
      → All (λ (i : Item). IsHonest i.1) items
      → map (λ (i : Item). axis_rank i.0) (keep deviates items)
        ≡ map (λ override. axis_rank override.axis) (overrides_of items)
  deviated-audited [] h = refl
  deviated-audited (item ∷ items) h = elim (Bool-cases (is_empty item.1.override_basis)) [
    | inl e ↦
        let same : same_value item.1.effective item.1.estimated ≡ true = sym h.0 ∙ e in
        rw e (rw same (deviated-audited items h.1))
    | inr e ↦
        let apart : same_value item.1.effective item.1.estimated ≡ false = sym h.0 ∙ e in
        rw e (rw apart (ap (◌∷◌ (axis_rank item.0)) (deviated-audited items h.1)))
  ]

  by_axis-absent :
      (name : Axis) (items : List Item)
      → ¬ In (axis_rank name) (map (λ (i : Item). axis_rank i.0) items)
      → by_axis name (overrides_of items) ≡ none
  unfolding by_axis
  by_axis-absent name [] h = refl
  by_axis-absent name (item ∷ items) h =
      let rest = by_axis-absent name items (λ m. h (inr m)) in
      let apart : (axis_rank item.0 == axis_rank name) ≡ false =
        elim (Bool-cases (axis_rank item.0 == axis_rank name)) [
          | inl e ↦ absurd (h (inl (sym (==→eq (axis_rank item.0) (axis_rank name) e))))
          | inr e ↦ e
        ] in
      elim (Bool-cases (is_empty item.1.override_basis)) [
        | inl e ↦ rw e rest
        | inr e ↦ rw e (rw rest (rw apart refl))
      ]

  -- A deviated dimension has its own record.
  by_axis-own :
      (item : Item) (items : List Item)
      → In item items
      → is_empty item.1.override_basis ≡ false
      → IsDistinct (map (λ (i : Item). axis_rank i.0) items)
      → by_axis item.0 (overrides_of items) ≡ some (override_for item)
  unfolding by_axis
  by_axis-own item [] m e d = absurd m
  by_axis-own item (x ∷ items) (inl same) e d =
      subst (λ (i : Item). by_axis i.0 (overrides_of (x ∷ items)) ≡ some (override_for i))
        (sym same) (own (subst (λ (i : Item). is_empty i.1.override_basis ≡ false) same e))
    where
      own :
          is_empty x.1.override_basis ≡ false
          → by_axis x.0 (overrides_of (x ∷ items)) ≡ some (override_for x)
      own k = rw k (rw (by_axis-absent x.0 items d.0) (rw (==-refl (axis_rank x.0)) refl))
  by_axis-own item (x ∷ items) (inr m) e d =
      let rest = by_axis-own item items m e d.1 in
      elim (Bool-cases (is_empty x.1.override_basis)) [
        | inl k ↦ rw k rest
        | inr k ↦ rw k (rw rest refl)
      ]

  matches-own :
      (item : Item) (items : List Item)
      → In item items
      → is_empty item.1.override_basis ≡ false
      → IsDistinct (map (λ (i : Item). axis_rank i.0) items)
      → not (matches (overrides_of items) item) ≡ false
  unfolding matches
  matches-own item items m e d =
      rw (by_axis-own item items m e d, matches)
        (rw (same_value_refl item.1.estimated) (rw (same_value_refl item.1.effective) refl))

  -- A trace that holds every change under distinct names makes a record that passes.
  pub IsAudited-is_exhaustive :
      (names : List ℕ) (trace : Trace F) (r : ClassificationRecord F)
      → IsAudited names trace
      → IsDistinct names
      → r.dimensions ≡ trace.dimensions
      → r.floor_overrides ≡ trace.floor_overrides
      → is_exhaustive r ≡ true
  unfolding is_exhaustive
  IsAudited-is_exhaustive names trace r a d dims overrides =
      let items = trace.dimensions in
      let distinct : IsDistinct (map (λ (i : Item). axis_rank i.0) items) =
        subst IsDistinct (sym a.named) d in
      let lists = deviated-audited items a.honest in
      let held : r.floor_overrides ≡ overrides_of items = overrides ∙ a.overrides in
      let forth : is_subset (map (λ (i : Item). axis_rank i.0) (keep deviates items))
            (map (λ override. axis_rank override.axis) (overrides_of items))
          ≡ true =
        is_subset-In _ _ (λ n m. subst (In n) lists m) in
      let back : is_subset (map (λ override. axis_rank override.axis) (overrides_of items))
            (map (λ (i : Item). axis_rank i.0) (keep deviates items))
          ≡ true =
        is_subset-In _ _ (λ n m. subst (In n) (sym lists) m) in
      let all : any (λ item. not (matches (overrides_of items) item)) (keep deviates items)
          ≡ false =
        All→any_false (λ item. not (matches (overrides_of items) item)) (keep deviates items)
          (All-of_In _ (keep deviates items) (λ item m.
            let (inside, changed) = In-keep deviates item items m in
            matches-own item items inside
              (All-In (λ (i : Item). IsHonest i.1) item items a.honest inside
                ∙ ground (arith, changed))
              distinct)) in
      rw dims (rw held (rw forth (rw back (rw all refl))))
