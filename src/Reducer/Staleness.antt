-- ===== src/Reducer/Staleness.antt =====
-- The branch on `LedgerDependentsMarkedStale` of `RunReducer.apply` in src/fre/runtime/reducer.py.
use reasoning_engine.Prelude.{
  ◌++◌, ◌+◌, Bool, true, false, none, some, List, [], ◌∷◌, ◌&&◌, not, any, keep, map, Result, ok,
  err, ◌>>=◌, ◌>>◌, raise_if, ◌==◌, sort_by, mem, add_to, union_from,
}
use reasoning_engine.Ledger.Types.{
  stale, LedgerNodeRef, LedgerEdge, DependencyConfidenceEnvelope, LedgerProjection, LedgerError,
  ref_eq, ref_le, ref_has_eq,
}
use reasoning_engine.Ledger.Edges.{is_supersedes}
use reasoning_engine.Ledger.Status.{effective_status, mark_all}
use reasoning_engine.Ledger.Search.{descendants}

-- What the branch raises: the ledger's exceptions, and the two texts of the `ValueError`.
pub data StaleError : Type 0 where
  ledger_error : LedgerError → StaleError
  malformed_envelope marker_mismatch : StaleError

abbrev pub from_ledger : {A : Type 0} → Result LedgerError A → Result StaleError A
from_ledger (ok value) = ok value
from_ledger (err error) = err (ledger_error error)

-- equality of two tuples of references
abbrev pub same_refs : List LedgerNodeRef → List LedgerNodeRef → Bool
same_refs [] [] = true
same_refs [] (_ ∷ _) = false
same_refs (_ ∷ _) [] = false
same_refs (a ∷ left) (b ∷ right) = ref_eq a b && same_refs left right

module _ {J : Type 0} where
  -- The sorted references are two consecutive revisions of a node, bound by SUPERSEDES.
  unfoldable pub is_revision_pair : List (LedgerEdge J) → List LedgerNodeRef → Bool
  is_revision_pair edges [] = false
  is_revision_pair edges (older ∷ []) = false
  is_revision_pair edges (older ∷ newer ∷ []) =
      (older.node_id == newer.node_id)
      && ((newer.revision == older.revision + 1)
          && any
              (λ (edge : LedgerEdge J).
                is_supersedes edge.relation
                && (ref_eq edge.source newer && ref_eq edge.target older))
              edges)
  is_revision_pair edges (older ∷ newer ∷ next ∷ more) = false

module _ {F J : Type 0} where
  -- `ledger.descendants(state.ledger, key)`
  unfoldable pub descendants_of : LedgerProjection F J → LedgerNodeRef → List LedgerNodeRef
  descendants_of projection key = elim (descendants projection key) [
    | none ↦ []
    | some found ↦ found
  ]

  -- the affected node is a descendant of the older of the two references
  abbrev pub affects_descendant : LedgerProjection F J → LedgerNodeRef → List LedgerNodeRef → Bool
  affects_descendant projection affected [] = false
  affects_descendant projection affected (older ∷ more) =
      mem affected (descendants_of projection older)

  -- `valid_revision_pair`
  unfoldable pub is_valid_envelope : LedgerProjection F J → DependencyConfidenceEnvelope F → Bool
  unfolding is_revision_pair descendants_of
  is_valid_envelope projection envelope =
      let changed = sort_by ref_le envelope.changed_dependency_refs in
      is_revision_pair projection.edges changed
      && affects_descendant projection envelope.affected_node_ref changed

  -- the loop over the matching envelopes
  unfoldable pub affected_by :
      LedgerProjection F J
      → List LedgerNodeRef
      → List (DependencyConfidenceEnvelope F)
      → Result StaleError (List LedgerNodeRef)
  unfolding is_valid_envelope
  affected_by projection affected [] = ok affected
  affected_by projection affected (envelope ∷ envelopes) =
      raise_if (not (is_valid_envelope projection envelope)) malformed_envelope >>= λ _.
      affected_by projection (add_to envelope.affected_node_ref affected) envelopes

  -- `expected`
  unfoldable pub expected_refs :
      LedgerProjection F J → LedgerNodeRef → List LedgerNodeRef → List LedgerNodeRef
  expected_refs projection source affected =
      sort_by ref_le (union_from [] (affected ++ descendants_of projection source))

  unfoldable pub mark_dependents_stale :
      LedgerProjection F J
      → LedgerNodeRef
      → List LedgerNodeRef
      → Result StaleError (LedgerProjection F J)
  unfolding affected_by expected_refs
  mark_dependents_stale projection source affected_refs = do
    status ← from_ledger (effective_status projection source)
    affected ←
        affected_by projection [] (
          keep (λ envelope. mem source envelope.changed_dependency_refs) projection.stale_envelopes)
    let supplied = sort_by ref_le affected_refs
    raise_if (not (same_refs supplied (expected_refs projection source affected))) marker_mismatch
    from_ledger (mark_all projection (map (λ key. (key, stale)) supplied))
