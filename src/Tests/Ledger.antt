-- ===== src/Tests/Ledger.antt =====
-- The ledger of src/fre/modules/m09_ledger.py on two nodes and their revisions.
use mathlib.Core.Logic.{◌↔◌}
use reasoning_engine.Ledger.Status.{effective_status, mark_all, mark_status, allowed}
use reasoning_engine.Ledger.Search.{
  items_of, explore, rounds, search, reverse_items, reverse_all, sorted_items, descendants,
  ancestors,
}
use reasoning_engine.Ledger.Closure.{descendants_exact}
use reasoning_engine.Reducer.Staleness.{
  descendants_of, affected_by, expected_refs, mark_dependents_stale,
}
use reasoning_engine.Reducer.LedgerEvents.{ledger_dependents_marked_stale, apply_ledger}
use reasoning_engine.Reducer.Graphs.{apply_ledger-IsGraph}
use reasoning_engine.Reducer.Marking.{mark_dependents_stale-Leads}
use reasoning_engine.Prelude.{
  dict_of, if◌then◌else◌, ◌==◌, ◌-◌, ℕ, ◌+◌, ◌*◌, ◌≡◌, refl, true, none, some, List, [], ◌∷◌, inl,
  In, ok, err, sort_by, arith,
}
use reasoning_engine.Ledger.Types.{
  stale, fact, provisional, LedgerNodeRef, RevisionPreimage, LedgerNode, LedgerEdge, LedgerRelation,
  supports, depends_on, LedgerProjection, ledger_cycle, ref_has_eq,
}
use reasoning_engine.Ledger.Nodes.{
  get_node, knows, node_le, unbound, append_node, verify_from, verify_revision_chain,
}
use reasoning_engine.Ledger.Edges.{
  lex_le, edge_key, edge_le, insert_edge, normalised, add_dependent, collect_one, collect,
  adjacency, key_order, has_cycle, dangling_errors, graph_errors, validate_graph,
  breaks_supersession, validated, append_edge,
}
use reasoning_engine.Graph.{
  visit_all, finish, visit, depth_first_traverse, refuse, accept, reject_cycles,
}
use reasoning_engine.Ledger.Dependencies.{Leads}
use reasoning_engine.Ledger.Admission.{IsGraph, append_edge-IsGraph, append_edge-cycle}
use reasoning_engine.Ledger.Revisions.{IsChain, append_node-IsChain}

-- A stand-in for the hash of a revision.
abbrev digest : RevisionPreimage ℕ ℕ → ℕ
digest x = 100 * x.node_id + x.revision

abbrev node : ℕ → ℕ → LedgerNode ℕ ℕ
node id revision = record {
  preimage = record {
    node_id = id;
    revision = revision;
    node_type = fact;
    content = 0;
    epistemic_status = provisional;
    confidence = none;
    source_refs = [];
    schema_version = "1.0";
    created_at = 0;
    created_by_action = 0;
    producing_module = "M04";
    provenance_refs = [];
    predecessor_revision_hash = if revision == 1 then none else some (100 * id + revision - 1);
  };
  revision_hash = 100 * id + revision;
}

abbrev at : ℕ → ℕ → LedgerNodeRef
at id revision = record { node_id = id; revision = revision }

abbrev edge : LedgerRelation → ℕ → ℕ → LedgerEdge ℕ
edge relation source target = record {
  edge_id = source;
  source = at source 1;
  target = at target 1;
  relation = relation;
  independence_group = none;
  metadata = [];
}

abbrev ledger : List (LedgerNode ℕ ℕ) → List (LedgerEdge ℕ) → LedgerProjection ℕ ℕ
ledger nodes edges = record {
  nodes = nodes;
  edges = edges;
  status_overlays = [];
  stale_envelopes = [];
  resolved_contradiction_edges = [];
}

abbrev pair : List (LedgerNode ℕ ℕ)
pair = node 1 1 ∷ node 2 1 ∷ []

abbrev before : LedgerProjection ℕ ℕ
before = ledger pair []

abbrev after : LedgerProjection ℕ ℕ
after = ledger pair (edge supports 1 2 ∷ [])

appended_run : append_edge before (edge supports 1 2) ≡ ok after
unfolding append_edge knows get_node breaks_supersession insert_edge edge_le edge_key lex_le sort_by
    validated validate_graph graph_errors dangling_errors has_cycle adjacency collect collect_one
    add_dependent normalised key_order reject_cycles depth_first_traverse visit visit_all finish
    accept refuse
appended_run = refl

refused_run : append_edge after (edge depends_on 1 2) ≡ err ledger_cycle
unfolding append_edge knows get_node breaks_supersession insert_edge edge_le edge_key lex_le sort_by
    validated validate_graph graph_errors dangling_errors has_cycle adjacency collect collect_one
    add_dependent normalised key_order reject_cycles depth_first_traverse visit visit_all finish
    accept refuse
refused_run = refl

append_edge-IsGraph_example :
    IsGraph after × (after ≡ record before { edges = insert_edge (edge supports 1 2) before.edges })
append_edge-IsGraph_example = append_edge-IsGraph before after (edge supports 1 2) appended_run

append_edge-cycle_example :
    (a : LedgerNodeRef) × Leads (insert_edge (edge depends_on 1 2) after.edges) a a
append_edge-cycle_example = append_edge-cycle after (edge depends_on 1 2) refused_run

first-IsChain : IsChain digest (node 1 1 ∷ [])
first-IsChain = record {
  hashed = λ n m. ground (arith, m);
  once = λ key. ground arith;
  bound = λ n m. inl (ground (arith, m));
}

revised_run :
    append_node digest (ledger (node 1 1 ∷ []) []) (node 1 2)
    ≡ ok (ledger (node 1 1 ∷ node 1 2 ∷ []) [])
unfolding append_node knows get_node unbound sort_by node_le
revised_run = refl

append_node-IsChain_example :
    IsChain digest (node 1 1 ∷ node 1 2 ∷ [])
    × In (node 1 2) (node 1 1 ∷ node 1 2 ∷ [])
    × ((n : LedgerNode ℕ ℕ) → In n (node 1 1 ∷ []) → In n (node 1 1 ∷ node 1 2 ∷ []))
append_node-IsChain_example =
    append_node-IsChain digest (ledger (node 1 1 ∷ []) []) (ledger (node 1 1 ∷ node 1 2 ∷ []) [])
      (node 1 2) first-IsChain (omega arith) revised_run

verified_run : verify_revision_chain digest (ledger (node 1 1 ∷ node 1 2 ∷ []) []) 1 1 ≡ ok true
unfolding verify_revision_chain verify_from unbound sort_by
verified_run = refl

descended_run : descendants after (at 1 1) ≡ some (at 2 1 ∷ [])
unfolding descendants search explore items_of rounds adjacency collect collect_one add_dependent
    normalised sort_by
descended_run = refl

ancestors_run : ancestors after (at 2 1) ≡ some (at 1 1 ∷ [])
unfolding ancestors search explore items_of rounds adjacency collect collect_one add_dependent
    normalised reverse_all reverse_items sorted_items sort_by
ancestors_run = refl

descendants_exact_example :
    (r : List LedgerNodeRef) × (descendants after (at 1 1) ≡ some r)
    × ((b : LedgerNodeRef) → In b r ↔ Leads after.edges (at 1 1) b)
descendants_exact_example = descendants_exact after (at 1 1)

abbrev marked : LedgerProjection ℕ ℕ
marked = record after { status_overlays = (at 2 1, stale) ∷ [] }

marked_run : mark_dependents_stale after (at 1 1) (at 2 1 ∷ []) ≡ ok marked
unfolding mark_dependents_stale affected_by expected_refs descendants_of effective_status get_node
    mark_all mark_status knows allowed dict_of sort_by descendants search explore items_of rounds
    adjacency collect collect_one add_dependent normalised
marked_run = refl

one-Leads-two : Leads after.edges (at 1 1) (at 2 1)
unfolding normalised
one-Leads-two = Leads.link (edge supports 1 2, inl refl, refl, refl, refl)

mark_dependents_stale-Leads_example : In (at 2 1) (at 2 1 ∷ [])
mark_dependents_stale-Leads_example =
    mark_dependents_stale-Leads after marked (at 1 1) (at 2 1 ∷ []) marked_run (at 2 1)
      one-Leads-two

after-IsGraph : IsGraph after
after-IsGraph = (append_edge-IsGraph before after (edge supports 1 2) appended_run).0

applied_run : apply_ledger after (ledger_dependents_marked_stale (at 1 1) (at 2 1 ∷ [])) ≡ ok marked
unfolding apply_ledger
applied_run = marked_run

apply_ledger-IsGraph_example : IsGraph marked
apply_ledger-IsGraph_example =
    apply_ledger-IsGraph after marked (ledger_dependents_marked_stale (at 1 1) (at 2 1 ∷ []))
      after-IsGraph applied_run
