-- ===== src/Ledger/Contradictions.antt =====
-- Contradictions and their resolution: `contradictions` and `resolve_contradiction` of
-- src/fre/modules/m09_ledger.py.
use reasoning_engine.Prelude.{
  ℕ, Bool, true, Option, none, some, List, [], ◌∷◌, ◌++◌, ◌&&◌, ◌||◌, not, map, any, keep, leb,
  Result, ok, ◌>>=◌, ◌>>◌, raise_if, sort_by, mem, nat_eq, is_subset, has_repeat, union_from,
}
use reasoning_engine.Ledger.Types.{
  EpistemicStatus, ContradictionState, open_state, resolved_state, LedgerNodeRef, LedgerEdge,
  LedgerProjection, ContradictionResolution, LedgerError, ref_eq, ref_has_eq,
  invalid_contradiction_resolution, dangling_ledger_reference,
}
use reasoning_engine.Ledger.Nodes.{knows}
use reasoning_engine.Ledger.Edges.{
  edge_le, insert_edge, is_contradicts, is_resolves, is_none, validate_graph, dangles,
}
use reasoning_engine.Ledger.Status.{mark_all}

-- the edges that are kept for a state, or all of them
abbrev pub in_state : {J : Type 0} → List ℕ → Option ContradictionState → LedgerEdge J → Bool
in_state resolved none edge = true
in_state resolved (some open_state) edge = not (mem edge.edge_id resolved)
in_state resolved (some resolved_state) edge = mem edge.edge_id resolved

module _ {F J : Type 0} where
  unfoldable pub contradictions :
      LedgerProjection F J → Option ContradictionState → List (LedgerEdge J)
  contradictions projection state = sort_by edge_le (
      keep (in_state projection.resolved_contradiction_edges state)
        (keep (λ edge. is_contradicts edge.relation) projection.edges))

  -- the references that the resolution names are not all in the ledger
  abbrev pub names_unknown : LedgerProjection F J → ContradictionResolution → Bool
  names_unknown projection resolution =
      any (λ key. not (knows projection.nodes key))
        (resolution.affected_refs
          ++ (map (λ (t : LedgerNodeRef × EpistemicStatus). t.0) resolution.status_transitions
              ++ resolution.resolver_ref ∷ []))

  -- the edge is added and validated, the statuses are changed, and the edges resolved are noted
  unfoldable pub link_and_mark :
      LedgerProjection F J
      → ContradictionResolution
      → LedgerEdge J
      → Result LedgerError (LedgerProjection F J)
  link_and_mark projection resolution edge = do
    let linked = record projection { edges = insert_edge edge projection.edges }
    result ← validate_graph true linked
    marked ← mark_all linked resolution.status_transitions
    ok (record marked {
      resolved_contradiction_edges = sort_by leb (
          union_from [] (marked.resolved_contradiction_edges ++ resolution.contradiction_edge_ids));
    })

  unfoldable pub resolve_contradiction :
      LedgerProjection F J
      → ContradictionResolution
      → LedgerEdge J
      → Result LedgerError (LedgerProjection F J)
  unfolding contradictions
  resolve_contradiction projection resolution edge = do
    let known =
        map (λ (item : LedgerEdge J). item.edge_id) (contradictions projection (some open_state))
    raise_if
        (is_none resolution.contradiction_edge_ids
          || not (is_subset resolution.contradiction_edge_ids known))
        invalid_contradiction_resolution
    raise_if (is_none resolution.status_transitions || not (is_resolves edge.relation))
        invalid_contradiction_resolution
    raise_if (not (ref_eq edge.source resolution.resolver_ref)) invalid_contradiction_resolution
    let affected = resolution.affected_refs
    let transitions =
        map (λ (t : LedgerNodeRef × EpistemicStatus). t.0) resolution.status_transitions
    raise_if (has_repeat affected || has_repeat transitions) invalid_contradiction_resolution
    raise_if (not (is_subset affected transitions && is_subset transitions affected))
        invalid_contradiction_resolution
    raise_if (names_unknown projection resolution) dangling_ledger_reference
    raise_if (dangles projection.nodes edge) dangling_ledger_reference
    link_and_mark projection resolution edge
