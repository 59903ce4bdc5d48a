-- ===== src/Ledger/Edges.antt =====
-- The edges of the ledger: `_edge_key`, `_normalised`, `append_edge`, `_adjacency` and
-- `validate_graph` of src/fre/modules/m09_ledger.py.
use reasoning_engine.Prelude.{
  ℕ, ◌+◌, Bool, true, false, Option, none, some, List, [], ◌∷◌, ◌++◌, ◌&&◌, ◌||◌, not, map, any,
  ltb, ◌==◌, if◌then◌else◌, Result, ok, err, ◌>>=◌, ◌>>◌, raise_if, sort_by, add_to,
}
use reasoning_engine.Ledger.Types.{
  LedgerRelation, supports, depends_on, derived_from, contradicts, supersedes, falsifies, resolves,
  observed_in, evaluates, selects, rejects, LedgerNodeRef, LedgerNode, LedgerEdge, LedgerProjection,
  LedgerError, ref_eq, ref_le, ref_has_eq, GraphError, dangling_error, cycle_error,
  GraphValidationResult, invalid_revision, invalid_ledger_relation, dangling_ledger_reference,
  ledger_cycle,
}
use reasoning_engine.Ledger.Nodes.{get_node, knows, option_is}
use reasoning_engine.Graph.{reject_cycles}

-- the place of a relation's text among the eleven in alphabetical order
abbrev pub relation_rank : LedgerRelation → ℕ
relation_rank contradicts = 0
relation_rank depends_on = 1
relation_rank derived_from = 2
relation_rank evaluates = 3
relation_rank falsifies = 4
relation_rank observed_in = 5
relation_rank rejects = 6
relation_rank resolves = 7
relation_rank selects = 8
relation_rank supersedes = 9
relation_rank supports = 10

-- Python's order of tuples of numbers.
unfoldable pub lex_le : List ℕ → List ℕ → Bool
lex_le [] ys = true
lex_le (x ∷ xs) [] = false
lex_le (x ∷ xs) (y ∷ ys) = if ltb x y then true else ((x == y) && lex_le xs ys)

module _ {J : Type 0} where
  -- `_edge_key`
  unfoldable pub edge_key : LedgerEdge J → List ℕ
  edge_key edge =
      relation_rank edge.relation
      ∷ edge.source.node_id
      ∷ edge.source.revision
      ∷ edge.target.node_id
      ∷ edge.target.revision
      ∷ edge.edge_id
      ∷ []

  unfoldable pub edge_le : LedgerEdge J → LedgerEdge J → Bool
  unfolding edge_key lex_le
  edge_le a b = lex_le (edge_key a) (edge_key b)

  -- `tuple(sorted((*edges, edge), key=_edge_key))`
  unfoldable pub insert_edge : LedgerEdge J → List (LedgerEdge J) → List (LedgerEdge J)
  unfolding edge_le
  insert_edge edge edges = sort_by edge_le (edges ++ edge ∷ [])

-- `DEPENDENCY_RELATIONS`
abbrev pub is_dependency : LedgerRelation → Bool
is_dependency supports = true
is_dependency depends_on = true
is_dependency derived_from = true
is_dependency _ = false

-- `_normalised`: the prerequisite and the dependent
abbrev pub is_reversed : LedgerRelation → Bool
is_reversed depends_on = true
is_reversed derived_from = true
is_reversed _ = false

unfoldable pub normalised : {J : Type 0} → LedgerEdge J → LedgerNodeRef × LedgerNodeRef
normalised edge =
    if is_reversed edge.relation then (edge.target, edge.source) else (edge.source, edge.target)

abbrev pub Adjacency : Type 0
Adjacency = List (LedgerNodeRef × List LedgerNodeRef)

-- `values.setdefault(prerequisite, set()).add(dependent)`
unfoldable pub add_dependent : LedgerNodeRef → LedgerNodeRef → Adjacency → Adjacency
add_dependent prerequisite dependent [] = (prerequisite, dependent ∷ []) ∷ []
add_dependent prerequisite dependent ((key, items) ∷ values) =
    if ref_eq prerequisite key
    then (key, add_to dependent items) ∷ values
    else (key, items) ∷ add_dependent prerequisite dependent values

-- one round of the loop of `_adjacency`
unfoldable pub collect_one : {J : Type 0} → Adjacency → LedgerEdge J → Adjacency
unfolding add_dependent normalised
collect_one values edge =
    if is_dependency edge.relation
    then add_dependent (normalised edge).0 (normalised edge).1 values
    else values

unfoldable pub collect : {J : Type 0} → Adjacency → List (LedgerEdge J) → Adjacency
unfolding collect_one
collect values [] = values
collect values (edge ∷ edges) = collect (collect_one values edge) edges

abbrev pub sort_items : LedgerNodeRef × List LedgerNodeRef → LedgerNodeRef × List LedgerNodeRef
sort_items (key, items) = (key, sort_by ref_le items)

-- `_adjacency`
unfoldable pub adjacency : {J : Type 0} → List (LedgerEdge J) → Adjacency
unfolding collect
adjacency edges = map sort_items (collect [] edges)

-- `sorted(adjacency, key=_ref_key)`
unfoldable pub key_order : Adjacency → List LedgerNodeRef
key_order values =
    sort_by ref_le (map (λ (entry : LedgerNodeRef × List LedgerNodeRef). entry.0) values)

-- the call of `depth_first_traverse` has raised
unfoldable pub has_cycle : Adjacency → Bool
unfolding key_order
has_cycle values = elim (reject_cycles values (key_order values)) [ ok _ ↦ false | err _ ↦ true ]

abbrev pub is_cycle_error : GraphError → Bool
is_cycle_error cycle_error = true
is_cycle_error dangling_error = false

abbrev pub is_none : {A : Type 0} → List A → Bool
is_none [] = true
is_none (_ ∷ _) = false

abbrev pub is_resolves : LedgerRelation → Bool
is_resolves resolves = true
is_resolves _ = false

abbrev pub is_supersedes : LedgerRelation → Bool
is_supersedes supersedes = true
is_supersedes _ = false

abbrev pub is_contradicts : LedgerRelation → Bool
is_contradicts contradicts = true
is_contradicts _ = false

module _ {F J : Type 0} where
  abbrev pub dangles : List (LedgerNode F J) → LedgerEdge J → Bool
  dangles nodes edge = not (knows nodes edge.source) || not (knows nodes edge.target)

  unfoldable pub dangling_errors : List (LedgerNode F J) → List (LedgerEdge J) → List GraphError
  dangling_errors nodes [] = []
  dangling_errors nodes (edge ∷ edges) =
      if dangles nodes edge
      then dangling_error ∷ dangling_errors nodes edges
      else dangling_errors nodes edges

  -- the list `errors` of `validate_graph`
  unfoldable pub graph_errors : LedgerProjection F J → List GraphError
  unfolding dangling_errors has_cycle
  graph_errors projection =
      dangling_errors projection.nodes projection.edges
      ++ (if has_cycle (adjacency projection.edges) then cycle_error ∷ [] else [])

  -- `validate_graph`; with `raise_on_error` it raises where there is an error
  unfoldable pub validate_graph :
      Bool → LedgerProjection F J → Result LedgerError GraphValidationResult
  unfolding graph_errors
  validate_graph raise_on_error projection =
      let errors = graph_errors projection in
      if raise_on_error && not (is_none errors)
      then err (if any is_cycle_error errors then ledger_cycle else dangling_ledger_reference)
      else ok (record { valid = is_none errors; errors = errors })

  -- SUPERSEDES does not bind consecutive revisions of one node
  unfoldable pub breaks_supersession :
      LedgerEdge J → Option (LedgerNode F J) → Option (LedgerNode F J) → Bool
  breaks_supersession edge (some source) (some target) =
      not (source.preimage.node_id == target.preimage.node_id)
      || (not (source.preimage.revision == target.preimage.revision + 1)
          || not (option_is source.preimage.predecessor_revision_hash target.revision_hash))
  breaks_supersession edge (some source) none = true
  breaks_supersession edge none target = true

  -- `self.validate_graph(candidate, raise_on_error=True)`, then `candidate`
  unfoldable pub validated : LedgerProjection F J → Result LedgerError (LedgerProjection F J)
  validated candidate = do result ← validate_graph true candidate; ok candidate

  unfoldable pub append_edge :
      LedgerProjection F J → LedgerEdge J → Result LedgerError (LedgerProjection F J)
  unfolding breaks_supersession
  append_edge projection edge = do
    raise_if (dangles projection.nodes edge) dangling_ledger_reference
    raise_if (is_resolves edge.relation) invalid_ledger_relation
    raise_if
        (is_supersedes edge.relation
          && breaks_supersession edge (get_node edge.source projection.nodes)
              (get_node edge.target projection.nodes))
        invalid_revision
    raise_if (is_dependency edge.relation && ref_eq edge.source edge.target) ledger_cycle
    let candidate = record projection { edges = insert_edge edge projection.edges }
    validated candidate
