-- ===== src/Reducer/Graphs.antt =====
-- The dependency graph under the ledger branches of `RunReducer.apply` in
-- src/fre/runtime/reducer.py.
use reasoning_engine.Prelude.{
  ◌≡◌, subst, true, List, [], ◌∷◌, map, Result, ok, err, >>=-eq-ok, sort_by, leb, union_from,
  nat_eq, ◌++◌, arith,
}
use reasoning_engine.Ledger.Types.{
  EpistemicStatus, stale, LedgerNodeRef, LedgerEdge, ContradictionResolution, LedgerProjection,
  LedgerError, ref_le, ref_has_eq,
}
use reasoning_engine.Ledger.Edges.{insert_edge, validate_graph, append_edge}
use reasoning_engine.Ledger.Status.{Overlays, mark_status, mark_all}
use reasoning_engine.Ledger.Contradictions.{link_and_mark, resolve_contradiction}
use reasoning_engine.Ledger.Admission.{IsGraph, append_edge-IsGraph, validate_graph-ok}
use reasoning_engine.Reducer.Staleness.{from_ledger, mark_dependents_stale}
use reasoning_engine.Reducer.LedgerEvents.{
  LedgerPayload, ledger_edge_added, ledger_node_status_changed, ledger_dependents_marked_stale,
  ledger_contradiction_resolved, apply_ledger,
}

from_ledger-ok : {A : Type 0} (m : Result LedgerError A) (a : A) → from_ledger m ≡ ok a → m ≡ ok a
from_ledger-ok (ok b) a h = ground (arith, h)
from_ledger-ok (err e) a h = cc h

module _ {F J : Type 0} where
  -- A change of statuses keeps the graph.
  IsGraph-overlays :
      (p : LedgerProjection F J) (overlays : Overlays)
      → IsGraph p
      → IsGraph (record p { status_overlays = overlays })
  IsGraph-overlays p overlays g = record { anchored = g.anchored; acyclic = g.acyclic }

  mark_status-IsGraph :
      (p q : LedgerProjection F J) (key : LedgerNodeRef) (status : EpistemicStatus)
      → IsGraph p
      → mark_status p key status ≡ ok q
      → IsGraph q
  unfolding mark_status
  mark_status-IsGraph p q key status g h =
      let same : record p { status_overlays = q.status_overlays } ≡ q = ground (arith, h) in
      subst IsGraph same (IsGraph-overlays p q.status_overlays g)

  mark_all-IsGraph :
      (p q : LedgerProjection F J) (transitions : Overlays)
      → IsGraph p
      → mark_all p transitions ≡ ok q
      → IsGraph q
  unfolding mark_all
  mark_all-IsGraph p q [] g h = let same : p ≡ q = ground (arith, h) in subst IsGraph same g
  mark_all-IsGraph p q ((key, status) ∷ transitions) g h =
      let (marked, first, rest) =
        >>=-eq-ok (mark_status p key status) (λ marked. mark_all marked transitions) h in
      mark_all-IsGraph marked q transitions (mark_status-IsGraph p marked key status g first) rest

  mark_dependents_stale-IsGraph :
      (p q : LedgerProjection F J) (source : LedgerNodeRef) (affected_refs : List LedgerNodeRef)
      → IsGraph p
      → mark_dependents_stale p source affected_refs ≡ ok q
      → IsGraph q
  unfolding mark_dependents_stale
  mark_dependents_stale-IsGraph p q source affected_refs g h =
      let marked : mark_all p (map (λ key. (key, stale)) (sort_by ref_le affected_refs)) ≡ ok q =
        from_ledger-ok _ q (ground (arith, h)) in
      mark_all-IsGraph p q (map (λ key. (key, stale)) (sort_by ref_le affected_refs)) g marked

  link_and_mark-IsGraph :
      (p q : LedgerProjection F J) (resolution : ContradictionResolution) (edge : LedgerEdge J)
      → link_and_mark p resolution edge ≡ ok q
      → IsGraph q
  unfolding link_and_mark
  link_and_mark-IsGraph p q resolution edge h =
      let linked : LedgerProjection F J = record p { edges = insert_edge edge p.edges } in
      let (result, valid, h1) = >>=-eq-ok (validate_graph true linked) _ h in
      let (marked, changed, h2) =
        >>=-eq-ok (mark_all linked resolution.status_transitions)
          (λ (m : LedgerProjection F J). ok (record m {
            resolved_contradiction_edges = sort_by leb (
                union_from []
                  (m.resolved_contradiction_edges ++ resolution.contradiction_edge_ids));
          }))
          h1 in
      let g =
        mark_all-IsGraph linked marked resolution.status_transitions
          (validate_graph-ok linked result valid) changed in
      let same : record marked { resolved_contradiction_edges = q.resolved_contradiction_edges }
          ≡ q =
        ground (arith, h2) in
      subst IsGraph same (record { anchored = g.anchored; acyclic = g.acyclic })

  resolve_contradiction-IsGraph :
      (p q : LedgerProjection F J) (resolution : ContradictionResolution) (edge : LedgerEdge J)
      → resolve_contradiction p resolution edge ≡ ok q
      → IsGraph q
  unfolding resolve_contradiction
  resolve_contradiction-IsGraph p q resolution edge h =
      link_and_mark-IsGraph p q resolution edge (ground (arith, h))

  -- If the graph of the ledger is valid, it still is after a ledger event of one of these kinds that is
  -- accepted: an edge added, a status changed, dependents marked stale, a contradiction resolved.
  pub apply_ledger-IsGraph :
      (p q : LedgerProjection F J) (payload : LedgerPayload J)
      → IsGraph p
      → apply_ledger p payload ≡ ok q
      → IsGraph q
  unfolding apply_ledger
  apply_ledger-IsGraph p q (ledger_edge_added edge) g h =
      (append_edge-IsGraph p q edge (from_ledger-ok (append_edge p edge) q h)).0
  apply_ledger-IsGraph p q (ledger_node_status_changed key status) g h =
      mark_status-IsGraph p q key status g (from_ledger-ok (mark_status p key status) q h)
  apply_ledger-IsGraph p q (ledger_dependents_marked_stale source refs) g h =
      mark_dependents_stale-IsGraph p q source refs g h
  apply_ledger-IsGraph p q (ledger_contradiction_resolved resolution edge) g h =
      resolve_contradiction-IsGraph p q resolution edge
        (from_ledger-ok (resolve_contradiction p resolution edge) q h)
