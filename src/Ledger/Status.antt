-- ===== src/Ledger/Status.antt =====
-- Statuses of nodes: `effective_status` and `mark_status` of src/fre/modules/m09_ledger.py.
use reasoning_engine.Prelude.{
  Bool, true, false, Option, none, some, List, [], ◌∷◌, not, Result, ok, err, ◌>>=◌, ◌>>◌, raise_if,
  sort_by, assign, dict_of, lookup,
}
use reasoning_engine.Ledger.Types.{
  EpistemicStatus, supported, provisional, contested, refuted, unresolved, stale, LedgerNodeRef,
  LedgerProjection, LedgerError, ref_le, ref_has_eq, dangling_ledger_reference,
  invalid_status_transition,
}
use reasoning_engine.Ledger.Nodes.{get_node, knows}

-- the table `allowed`
unfoldable pub allowed : EpistemicStatus → EpistemicStatus → Bool
allowed supported supported = true
allowed supported contested = true
allowed supported refuted = true
allowed supported stale = true
allowed supported _ = false
allowed provisional _ = true
allowed contested contested = true
allowed contested supported = true
allowed contested refuted = true
allowed contested stale = true
allowed contested _ = false
allowed refuted refuted = true
allowed refuted stale = true
allowed refuted _ = false
allowed unresolved _ = true
allowed stale _ = true

abbrev pub Overlays : Type 0
Overlays = List (LedgerNodeRef × EpistemicStatus)

-- `overlays.get(ref, status)`
abbrev pub overlay_or : Option EpistemicStatus → EpistemicStatus → EpistemicStatus
overlay_or none status = status
overlay_or (some overlay) status = overlay

abbrev pub overlay_le : LedgerNodeRef × EpistemicStatus → LedgerNodeRef × EpistemicStatus → Bool
overlay_le a b = ref_le a.0 b.0

module _ {F J : Type 0} where
  unfoldable pub effective_status :
      LedgerProjection F J → LedgerNodeRef → Result LedgerError EpistemicStatus
  effective_status projection key = elim (get_node key projection.nodes) [
    | none ↦ err dangling_ledger_reference
    | some node ↦ ok (
        overlay_or (lookup key (dict_of projection.status_overlays)) node.preimage.epistemic_status)
  ]

  unfoldable pub mark_status :
      LedgerProjection F J
      → LedgerNodeRef
      → EpistemicStatus
      → Result LedgerError (LedgerProjection F J)
  unfolding allowed
  mark_status projection key status = do
    raise_if (not (knows projection.nodes key)) dangling_ledger_reference
    current ← effective_status projection key
    raise_if (not (allowed current status)) invalid_status_transition
    ok (record projection {
      status_overlays = sort_by overlay_le (assign key status (dict_of projection.status_overlays));
    })

  -- `for ref, status in transitions: result = self.mark_status(result, ref, status)`
  unfoldable pub mark_all :
      LedgerProjection F J → Overlays → Result LedgerError (LedgerProjection F J)
  mark_all projection [] = ok projection
  mark_all projection ((key, status) ∷ transitions) =
      mark_status projection key status >>= λ marked. mark_all marked transitions
