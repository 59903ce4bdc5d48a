-- ===== src/Ledger/Admission.antt =====
-- `append_edge` and `validate_graph` of src/fre/modules/m09_ledger.py against the dependency graph.
use reasoning_engine.Prelude.{
  ◌≡◌, refl, sym, subst, true, false, List, [], ◌∷◌, ◌++◌, inl, inr, ◌&&◌, any, All,
  In-append_right, In-of_sort_by, ok, err, >>=-eq-ok, Bool-cases, arith,
}
use reasoning_engine.Ledger.Types.{
  ref_has_eq, ref_eq_iff, LedgerNodeRef, LedgerNode, LedgerEdge, LedgerProjection,
  GraphValidationResult, cycle_error, ledger_cycle, ref_eq,
}
use reasoning_engine.Ledger.Nodes.{knows}
use reasoning_engine.Ledger.Edges.{
  validated, normalised, adjacency, key_order, has_cycle, dangles, dangling_errors, graph_errors,
  is_none, validate_graph, append_edge, insert_edge, edge_le, is_cycle_error, is_dependency,
}
use reasoning_engine.Ledger.Dependencies.{
  Leads, Reaches-of_Leads, Leads-of_Reaches, key_order_covers,
}
use reasoning_engine.Graph.Acyclic.{reject_cycles_decides}
use mathlib.Core.List.{append-nil}

module _ {J : Type 0} (edges : List (LedgerEdge J)) where
  -- The traversal of the adjacency finds a cycle just where dependency edges lead back to a node.
  pub has_cycle-false :
      has_cycle (adjacency edges) ≡ false → (a : LedgerNodeRef) → ¬ (Leads edges a a)
  unfolding has_cycle
  has_cycle-false h a r =
      elim (reject_cycles_decides (adjacency edges) (key_order (adjacency edges))
        (key_order_covers (adjacency edges))) [
          | inl (w, returned, acyclic) ↦ acyclic a (Reaches-of_Leads edges r)
          | inr (k, refused, cycle) ↦ absurd (ground (arith, refused))
        ]

  pub has_cycle-true : has_cycle (adjacency edges) ≡ true → (a : LedgerNodeRef) × Leads edges a a
  unfolding has_cycle
  has_cycle-true h =
      elim (reject_cycles_decides (adjacency edges) (key_order (adjacency edges))
        (key_order_covers (adjacency edges))) [
          | inl (w, returned, acyclic) ↦ absurd (ground (arith, returned))
          | inr (k, refused, cycle) ↦ (k, Leads-of_Reaches edges cycle)
        ]

is_none-append_left : {A : Type 0} (xs ys : List A) → is_none (xs ++ ys) ≡ true → is_none xs ≡ true
is_none-append_left [] ys h = refl
is_none-append_left (x ∷ xs) ys h = cc

nothing_after : {A : Type 0} (xs : List A) (y : A) → ¬ (is_none (xs ++ y ∷ []) ≡ true)
nothing_after [] y h = cc
nothing_after (x ∷ xs) y h = cc

-- A dependency edge from a node to itself leads the node to itself.
self-Leads :
    {J : Type 0} (edges : List (LedgerEdge J)) (edge : LedgerEdge J)
    → is_dependency edge.relation ≡ true
    → edge.source ≡ edge.target
    → Leads (insert_edge edge edges) edge.source edge.source
unfolding insert_edge normalised
self-Leads edges edge d same = Leads.link (
  edge,
  In-of_sort_by edge_le edge (edges ++ edge ∷ [])
      (In-append_right edge edges (edge ∷ []) (inl refl)),
  d,
  ground arith,
  ground arith,
)

module _ {F J : Type 0} where
  -- Both ends of an edge are in the ledger.
  abbrev pub IsAnchored : List (LedgerNode F J) → LedgerEdge J → Type 0
  IsAnchored nodes edge = (knows nodes edge.source ≡ true) × (knows nodes edge.target ≡ true)

  dangling_errors_none :
      (nodes : List (LedgerNode F J)) (edges : List (LedgerEdge J))
      → is_none (dangling_errors nodes edges) ≡ true
      → All (IsAnchored nodes) edges
  unfolding dangling_errors
  dangling_errors_none nodes [] h = tt
  dangling_errors_none nodes (edge ∷ edges) h = elim (Bool-cases (dangles nodes edge)) [
    | inl e ↦ absurd (ground (arith, e))
    | inr e ↦ (ground (arith, e), dangling_errors_none nodes edges (ground (arith, e)))
  ]

  dangling_errors_no_cycle :
      (nodes : List (LedgerNode F J)) (edges : List (LedgerEdge J))
      → any is_cycle_error (dangling_errors nodes edges) ≡ false
  unfolding dangling_errors
  dangling_errors_no_cycle nodes [] = refl
  dangling_errors_no_cycle nodes (edge ∷ edges) =
      ground (arith, dangling_errors_no_cycle nodes edges)

  -- The graph of the ledger is valid: every edge is anchored, and no node leads to itself.
  pub record IsGraph (p : LedgerProjection F J) : Type 0 where
    pub anchored : All (IsAnchored p.nodes) p.edges
    pub acyclic : (a : LedgerNodeRef) → ¬ (Leads p.edges a a)

  graph_errors_none : (p : LedgerProjection F J) → is_none (graph_errors p) ≡ true → IsGraph p
  unfolding graph_errors
  graph_errors_none p h = elim (Bool-cases (has_cycle (adjacency p.edges))) [
    | inl e ↦
        absurd (nothing_after (dangling_errors p.nodes p.edges) cycle_error (ground (arith, e)))
    | inr e ↦ record {
      anchored =
          dangling_errors_none p.nodes p.edges
            (is_none-append_left (dangling_errors p.nodes p.edges) _ h);
      acyclic = has_cycle-false p.edges e;
    }
  ]

  graph_errors_cycle :
      (p : LedgerProjection F J)
      → any is_cycle_error (graph_errors p) ≡ true
      → (a : LedgerNodeRef) × Leads p.edges a a
  unfolding graph_errors
  graph_errors_cycle p h = elim (Bool-cases (has_cycle (adjacency p.edges))) [
    | inl e ↦ has_cycle-true p.edges e
    | inr e ↦ absurd (
        ground (
          arith,
          e,
          dangling_errors_no_cycle p.nodes p.edges,
          append-nil (dangling_errors p.nodes p.edges),
        ))
  ]

  pub validate_graph-ok :
      (p : LedgerProjection F J) (r : GraphValidationResult)
      → validate_graph true p ≡ ok r
      → IsGraph p
  unfolding validate_graph
  validate_graph-ok p r h = graph_errors_none p (ground arith)

  validated-ok : (c q : LedgerProjection F J) → validated c ≡ ok q → IsGraph c × (c ≡ q)
  unfolding validated
  validated-ok c q h =
      let (result, valid, h') = >>=-eq-ok (validate_graph true c) (λ _. ok c) h in
      (validate_graph-ok c result valid, ground arith)

  append_edge_inv :
      (p q : LedgerProjection F J) (edge : LedgerEdge J)
      → append_edge p edge ≡ ok q
      → validated (record p { edges = insert_edge edge p.edges }) ≡ ok q
  unfolding append_edge
  append_edge_inv p q edge h = ground arith

  -- An edge that is appended joins the edges that were there, and the ledger's graph is valid with it:
  -- whatever was valid before, both ends of every edge are in the ledger and no node leads to itself.
  pub append_edge-IsGraph :
      (p q : LedgerProjection F J) (edge : LedgerEdge J)
      → append_edge p edge ≡ ok q
      → IsGraph q × (q ≡ record p { edges = insert_edge edge p.edges })
  append_edge-IsGraph p q edge h =
      let candidate : LedgerProjection F J = record p { edges = insert_edge edge p.edges } in
      let (graph, same) = validated-ok candidate q (append_edge_inv p q edge h) in
      (subst IsGraph same graph, sym same)

  validated-cycle :
      (p : LedgerProjection F J)
      → validated p ≡ err ledger_cycle
      → any is_cycle_error (graph_errors p) ≡ true
  unfolding validated validate_graph
  validated-cycle p h = ground arith

  append_edge_refused :
      (p : LedgerProjection F J) (edge : LedgerEdge J)
      → append_edge p edge ≡ err ledger_cycle
      → is_dependency edge.relation && ref_eq edge.source edge.target ≡ false
      → validated (record p { edges = insert_edge edge p.edges }) ≡ err ledger_cycle
  unfolding append_edge
  append_edge_refused p edge h e = ground (arith, e)

  -- A refusal of an edge for a cycle is right: with the edge some node would lead to itself.
  pub append_edge-cycle :
      (p : LedgerProjection F J) (edge : LedgerEdge J)
      → append_edge p edge ≡ err ledger_cycle
      → (a : LedgerNodeRef) × Leads (insert_edge edge p.edges) a a
  append_edge-cycle p edge h =
      elim (Bool-cases (is_dependency edge.relation && ref_eq edge.source edge.target)) [
        | inl e ↦ (
          edge.source,
          self-Leads p.edges edge (ground (arith, e))
              ((ref_eq_iff edge.source edge.target).0 (ground (arith, e))),
        )
        | inr e ↦
            graph_errors_cycle (record p { edges = insert_edge edge p.edges })
              (validated-cycle (record p { edges = insert_edge edge p.edges })
                (append_edge_refused p edge h e))
      ]
