-- ===== src/Ledger/Adjacency.antt =====
-- One round of the loop of `_adjacency` of src/fre/modules/m09_ledger.py, and its sorting.
use reasoning_engine.Prelude.{
  ◌++◌, ◌∙◌, ◌≡◌, refl, sym, subst, false, none, some, List, [], ◌∷◌, ◌⊎◌, inl, inr, In, map, mem,
  mem→In, In-append, In-append_left, In-append_right, add_to, lookup, sort_by, Bool-cases,
  if◌then◌else◌, arith,
}
use reasoning_engine.Ledger.Types.{LedgerNodeRef, ref_eq, ref_le, ref_has_eq, ref_eq_iff}
use reasoning_engine.Ledger.Edges.{Adjacency, add_dependent, sort_items}
use reasoning_engine.Graph.Cycles.{IsEdge}

In-add_to : (a d : LedgerNodeRef) (s : List LedgerNodeRef) → In a (add_to d s) → In a s ⊎ (a ≡ d)
In-add_to a d s m = elim (Bool-cases (mem d s)) [
  | inl e ↦ inl (subst (λ b. In a (if b then s else s ++ d ∷ [])) e m)
  | inr e ↦ elim (In-append a s (d ∷ []) (subst (λ b. In a (if b then s else s ++ d ∷ [])) e m)) [
    | inl l ↦ inl l
    | inr r ↦ elim r [ inl q ↦ inr q | inr n ↦ absurd n ]
  ]
]

In-add_to_old : (a d : LedgerNodeRef) (s : List LedgerNodeRef) → In a s → In a (add_to d s)
In-add_to_old a d s m = elim (Bool-cases (mem d s)) [
  | inl e ↦ rw e m
  | inr e ↦ rw e (In-append_left a s (d ∷ []) m)
]

In-add_to_new : (d : LedgerNodeRef) (s : List LedgerNodeRef) → In d (add_to d s)
In-add_to_new d s = elim (Bool-cases (mem d s)) [
  | inl e ↦ rw e (mem→In d s e)
  | inr e ↦ rw e (In-append_right d s (d ∷ []) (inl refl))
]

-- The entry of a key after an edge is added.
lookup-add_dependent_self :
    (p d : LedgerNodeRef) (values : Adjacency)
    → (lookup p values ≡ none) × (lookup p (add_dependent p d values) ≡ some (d ∷ []))
      ⊎ ((items : List LedgerNodeRef) × (lookup p values ≡ some items)
          × (lookup p (add_dependent p d values) ≡ some (add_to d items)))
unfolding add_dependent
lookup-add_dependent_self p d [] = inl (refl, ground (arith, (ref_eq_iff p p).1 refl))
lookup-add_dependent_self p d ((key, items) ∷ values) = elim (Bool-cases (ref_eq p key)) [
  | inl e ↦ inr (items, rw e, rw e (rw e))
  | inr e ↦ rw e (rw e (lookup-add_dependent_self p d values))
]

lookup-add_dependent_ne :
    (a p d : LedgerNodeRef) (values : Adjacency)
    → ref_eq a p ≡ false
    → lookup a (add_dependent p d values) ≡ lookup a values
unfolding add_dependent
lookup-add_dependent_ne a p d [] h = rw h
lookup-add_dependent_ne a p d ((key, items) ∷ values) h = elim (Bool-cases (ref_eq p key)) [
  | inl e ↦
      let same : ref_eq a key ≡ false =
        subst (λ k. ref_eq a k ≡ false) ((ref_eq_iff p key).0 e) h in
      ground (arith, e, same)
  | inr e ↦ ground (arith, e, lookup-add_dependent_ne a p d values h)
]

pub IsEdge-add_dependent_new :
    (p d : LedgerNodeRef) (values : Adjacency) → IsEdge (add_dependent p d values) p d
IsEdge-add_dependent_new p d values = elim (lookup-add_dependent_self p d values) [
  | inl (absent, now) ↦ (d ∷ [], now, inl refl)
  | inr (items, before, now) ↦ (add_to d items, now, In-add_to_new d items)
]

old_self :
    (p d b : LedgerNodeRef) (values : Adjacency)
    → IsEdge values p b
    → IsEdge (add_dependent p d values) p b
old_self p d b values (targets, entry, m) = elim (lookup-add_dependent_self p d values) [
  | inl (absent, now) ↦ absurd (ground (arith, absent, entry))
  | inr (items, before, now) ↦
      let same : targets ≡ items = ground (arith, before, entry) in
      (add_to d items, now, In-add_to_old b d items (subst (λ l. In b l) same m))
]

of_self :
    (p d b : LedgerNodeRef) (values : Adjacency)
    → IsEdge (add_dependent p d values) p b
    → IsEdge values p b ⊎ (b ≡ d)
of_self p d b values (targets, entry, m) = elim (lookup-add_dependent_self p d values) [
  | inl (absent, now) ↦
      let same : targets ≡ d ∷ [] = ground (arith, now, entry) in
      elim (let m' : In b (d ∷ []) = subst (λ l. In b l) same m in m') [
        | inl q ↦ inr q
        | inr n ↦ absurd n
      ]
  | inr (items, before, now) ↦
      let same : targets ≡ add_to d items = ground (arith, now, entry) in
      elim (In-add_to b d items (subst (λ l. In b l) same m)) [
        | inl n ↦ inl (items, before, n)
        | inr q ↦ inr q
      ]
]

pub IsEdge-add_dependent_old :
    (p d a b : LedgerNodeRef) (values : Adjacency)
    → IsEdge values a b
    → IsEdge (add_dependent p d values) a b
IsEdge-add_dependent_old p d a b values edge = elim (Bool-cases (ref_eq a p)) [
  | inl e ↦
      let same = (ref_eq_iff a p).0 e in
      subst (λ x. IsEdge (add_dependent p d values) x b) (sym same)
        (old_self p d b values (subst (λ x. IsEdge values x b) same edge))
  | inr e ↦ (edge.0, lookup-add_dependent_ne a p d values e ∙ edge.1, edge.2)
]

pub IsEdge-of_add_dependent :
    (p d a b : LedgerNodeRef) (values : Adjacency)
    → IsEdge (add_dependent p d values) a b
    → IsEdge values a b ⊎ (a ≡ p) × (b ≡ d)
IsEdge-of_add_dependent p d a b values edge = elim (Bool-cases (ref_eq a p)) [
  | inl e ↦
      let same = (ref_eq_iff a p).0 e in
      elim (of_self p d b values (subst (λ x. IsEdge (add_dependent p d values) x b) same edge)) [
        | inl old ↦ inl (subst (λ x. IsEdge values x b) (sym same) old)
        | inr q ↦ inr (same, q)
      ]
  | inr e ↦ inl (edge.0, sym (lookup-add_dependent_ne a p d values e) ∙ edge.1, edge.2)
]

pub lookup-sorted :
    (values : Adjacency) (a : LedgerNodeRef) (items : List LedgerNodeRef)
    → lookup a values ≡ some items
    → lookup a (map sort_items values) ≡ some (sort_by ref_le items)
lookup-sorted [] a items h = cc
lookup-sorted ((key, others) ∷ values) a items h = ground (arith, lookup-sorted values a items)

pub lookup-of_sorted :
    (values : Adjacency) (a : LedgerNodeRef) (items : List LedgerNodeRef)
    → lookup a (map sort_items values) ≡ some items
    → (raw : List LedgerNodeRef) × (lookup a values ≡ some raw) × (items ≡ sort_by ref_le raw)
lookup-of_sorted [] a items h = cc
lookup-of_sorted ((key, others) ∷ values) a items h = elim (Bool-cases (ref_eq a key)) [
  | inl e ↦ (others, ground arith, ground arith)
  | inr e ↦
      let (raw, entry, same) = lookup-of_sorted values a items (ground arith) in
      (raw, ground arith, same)
]
