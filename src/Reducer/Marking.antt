-- ===== src/Reducer/Marking.antt =====
-- What a marker of stale dependents has to name, in `RunReducer.apply` of
-- src/fre/runtime/reducer.py.
use reasoning_engine.Prelude.{
  ◌≡◌, refl, sym, subst, true, not, List, [], ◌∷◌, ◌++◌, inl, inr, In, ok, >>=-eq-ok, raise_if-ok,
  sort_by, mem, mem→In, add_to, union_from, In-append_left, In-append_right, In-sort_by,
  In-of_sort_by, Bool-cases, arith, keep,
}
use reasoning_engine.Ledger.Types.{LedgerNodeRef, LedgerProjection, ref_le, ref_eq_iff, ref_has_eq}
use reasoning_engine.Ledger.Dependencies.{Leads}
use reasoning_engine.Ledger.Status.{effective_status}
use reasoning_engine.Ledger.Closure.{descendants_exact}
use reasoning_engine.Reducer.Staleness.{
  marker_mismatch, from_ledger, same_refs, descendants_of, affected_by, expected_refs,
  mark_dependents_stale,
}

same_refs-eq : (left right : List LedgerNodeRef) → same_refs left right ≡ true → left ≡ right
same_refs-eq [] [] h = refl
same_refs-eq [] (b ∷ right) h = cc h
same_refs-eq (a ∷ left) [] h = cc h
same_refs-eq (a ∷ left) (b ∷ right) h =
    let first : a ≡ b = (ref_eq_iff a b).0 (ground (arith, h)) in
    let rest : left ≡ right = same_refs-eq left right (ground (arith, h)) in rw (first, rest)

In-union_from_old :
    (a : LedgerNodeRef) (s xs : List LedgerNodeRef) → In a s → In a (union_from s xs)
In-union_from_old a s [] m = m
In-union_from_old a s (x ∷ xs) m = elim (Bool-cases (mem x s)) [
  | inl e ↦ rw e (In-union_from_old a s xs m)
  | inr e ↦ rw e (In-union_from_old a (s ++ x ∷ []) xs (In-append_left a s (x ∷ []) m))
]

In-union_from : (a : LedgerNodeRef) (s xs : List LedgerNodeRef) → In a xs → In a (union_from s xs)
In-union_from a s [] m = absurd m
In-union_from a s (x ∷ xs) (inl q) = elim (Bool-cases (mem x s)) [
  | inl e ↦ rw e (In-union_from_old a s xs (subst (λ y. In y s) (sym q) (mem→In x s e)))
  | inr e ↦ rw e (In-union_from_old a (s ++ x ∷ []) xs (In-append_right a s (x ∷ []) (inl q)))
]
In-union_from a s (x ∷ xs) (inr m) = In-union_from a (add_to x s) xs m

module _ {F J : Type 0} (p q : LedgerProjection F J) (source : LedgerNodeRef)
    (affected_refs : List LedgerNodeRef) where
  -- A marker of stale dependents is accepted only if it names every node to which dependency edges of
  -- the ledger lead from the source.
  pub mark_dependents_stale-Leads :
      mark_dependents_stale p source affected_refs ≡ ok q
      → (b : LedgerNodeRef) → Leads p.edges source b
      → In b affected_refs
  unfolding mark_dependents_stale expected_refs descendants_of
  mark_dependents_stale-Leads h b path =
      let (status, known, h1) = >>=-eq-ok (from_ledger (effective_status p source)) _ h in
      let (affected, gathered, h2) =
        >>=-eq-ok
          (affected_by p []
            (keep (λ envelope. mem source envelope.changed_dependency_refs) p.stale_envelopes))
          _ h1 in
      let (matched, h3) =
        raise_if-ok
          (not (same_refs (sort_by ref_le affected_refs) (expected_refs p source affected)))
          marker_mismatch _ h2 in
      let (found, e, exact) = descendants_exact p source in
      let same : sort_by ref_le affected_refs ≡ expected_refs p source affected =
        same_refs-eq (sort_by ref_le affected_refs) (expected_refs p source affected)
          (ground (arith, matched)) in
      let listed : descendants_of p source ≡ found = ground (arith, e) in
      let member : In b (expected_refs p source affected) =
        In-of_sort_by ref_le b (union_from [] (affected ++ descendants_of p source)) (
          In-union_from b [] (affected ++ descendants_of p source) (
            In-append_right b affected (descendants_of p source)
              (subst (λ l. In b l) (sym listed) ((exact b).1 path)))) in
      In-sort_by ref_le b affected_refs (subst (λ l. In b l) (sym same) member)
