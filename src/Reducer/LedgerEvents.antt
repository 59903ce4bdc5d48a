-- ===== src/Reducer/LedgerEvents.antt =====
-- The branches of `RunReducer.apply` in src/fre/runtime/reducer.py that change the ledger's edges and
-- statuses. Those that add and revise nodes are not modelled.
use reasoning_engine.Prelude.{List, Result}
use reasoning_engine.Ledger.Types.{
  EpistemicStatus, LedgerNodeRef, LedgerEdge, ContradictionResolution, LedgerProjection,
}
use reasoning_engine.Ledger.Edges.{append_edge}
use reasoning_engine.Ledger.Status.{mark_status}
use reasoning_engine.Ledger.Contradictions.{resolve_contradiction}
use reasoning_engine.Reducer.Staleness.{StaleError, from_ledger, mark_dependents_stale}

pub data LedgerPayload (J : Type 0) : Type 0 where
  ledger_edge_added : LedgerEdge J → LedgerPayload J
  ledger_node_status_changed : LedgerNodeRef → EpistemicStatus → LedgerPayload J
  ledger_dependents_marked_stale : LedgerNodeRef → List LedgerNodeRef → LedgerPayload J
  ledger_contradiction_resolved : ContradictionResolution → LedgerEdge J → LedgerPayload J

unfoldable pub apply_ledger :
    {F J : Type 0}
    → LedgerProjection F J
    → LedgerPayload J
    → Result StaleError (LedgerProjection F J)
apply_ledger ledger (ledger_edge_added edge) = from_ledger (append_edge ledger edge)
apply_ledger ledger (ledger_node_status_changed key status) =
    from_ledger (mark_status ledger key status)
apply_ledger ledger (ledger_dependents_marked_stale source affected_refs) =
    mark_dependents_stale ledger source affected_refs
apply_ledger ledger (ledger_contradiction_resolved resolution edge) =
    from_ledger (resolve_contradiction ledger resolution edge)
