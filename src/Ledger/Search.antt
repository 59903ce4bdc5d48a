-- ===== src/Ledger/Search.antt =====
-- The searches of src/fre/modules/m09_ledger.py: `descendants`, `ancestors`,
-- `unresolved_dependencies` and `query_by_type`. The set `found` is a list with the newest first, and
-- the loop over the queue recurs on fuel: each round takes one item off the queue, and the items of a
-- key are put on it once.
use reasoning_engine.Prelude.{
  ℕ, zero, suc, ◌+◌, Bool, true, false, Option, none, some, List, [], ◌∷◌, ◌++◌, keep, length,
  sum_by, if◌then◌else◌, Result, ok, ◌>>=◌, ◌==◌, sort_by, mem, lookup,
}
use reasoning_engine.Ledger.Types.{
  LedgerNodeType, fact, observation, inference, assumption_node, hypothesis, proposal, decision,
  unknown, challenge, evidence, artifact, contested_node, EpistemicStatus, supported, LedgerNodeRef,
  LedgerNode, LedgerProjection, LedgerError, ref_le, ref_has_eq,
}
use reasoning_engine.Ledger.Edges.{Adjacency, add_dependent, adjacency}
use reasoning_engine.Ledger.Status.{effective_status}

-- `adjacency.get(item, ())`
unfoldable pub items_of : Adjacency → LedgerNodeRef → List LedgerNodeRef
items_of values key = elim (lookup key values) [ none ↦ [] | some items ↦ items ]

-- the loop `while queue:`; `none` is a lack of fuel
unfoldable pub explore :
    Adjacency → ℕ → List LedgerNodeRef → List LedgerNodeRef → Option (List LedgerNodeRef)
unfolding items_of
explore values fuel found [] = some found
explore values zero found (item ∷ queue) = none
explore values (suc fuel) found (item ∷ queue) =
    if mem item found
    then explore values fuel found queue
    else explore values fuel (item ∷ found) (queue ++ items_of values item)

-- As many rounds as there are items on the queue and in the dictionary.
unfoldable pub rounds : Adjacency → LedgerNodeRef → ℕ
rounds values key =
    length (items_of values key)
    + sum_by (λ (entry : LedgerNodeRef × List LedgerNodeRef). length entry.1) values

-- the set and its loop for one dictionary
unfoldable pub search : Adjacency → LedgerNodeRef → Option (List LedgerNodeRef)
unfolding explore rounds
search values key = elim (explore values (rounds values key) [] (items_of values key)) [
  | none ↦ none
  | some found ↦ some (sort_by ref_le found)
]

-- the loops that fill `reverse`
unfoldable pub reverse_items : LedgerNodeRef → List LedgerNodeRef → Adjacency → Adjacency
unfolding add_dependent
reverse_items source [] reverse = reverse
reverse_items source (target ∷ targets) reverse =
    reverse_items source targets (add_dependent target source reverse)

unfoldable pub reverse_all : Adjacency → Adjacency → Adjacency
unfolding reverse_items
reverse_all [] reverse = reverse
reverse_all ((source, targets) ∷ entries) reverse =
    reverse_all entries (reverse_items source targets reverse)

-- `sorted(reverse.get(item, ()), key=_ref_key)` for every item
unfoldable pub sorted_items : Adjacency → Adjacency
sorted_items [] = []
sorted_items ((key, items) ∷ entries) = (key, sort_by ref_le items) ∷ sorted_items entries

module _ {F J : Type 0} where
  unfoldable pub descendants : LedgerProjection F J → LedgerNodeRef → Option (List LedgerNodeRef)
  unfolding search
  descendants projection key = search (adjacency projection.edges) key

  unfoldable pub ancestors : LedgerProjection F J → LedgerNodeRef → Option (List LedgerNodeRef)
  unfolding search reverse_all sorted_items
  ancestors projection key = search (sorted_items (reverse_all (adjacency projection.edges) [])) key

-- `status is not EpistemicStatus.SUPPORTED`, negated
abbrev pub is_supported : EpistemicStatus → Bool
is_supported supported = true
is_supported _ = false

-- the place of a node type in its enumeration
abbrev pub type_rank : LedgerNodeType → ℕ
type_rank fact = 0
type_rank observation = 1
type_rank inference = 2
type_rank assumption_node = 3
type_rank hypothesis = 4
type_rank proposal = 5
type_rank decision = 6
type_rank unknown = 7
type_rank challenge = 8
type_rank evidence = 9
type_rank artifact = 10
type_rank contested_node = 11

module _ {F J : Type 0} where
  -- the loop over the ancestors; the status of an unknown one raises
  unfoldable pub keep_unresolved :
      LedgerProjection F J → List LedgerNodeRef → Result LedgerError (List LedgerNodeRef)
  keep_unresolved projection [] = ok []
  keep_unresolved projection (item ∷ items) = do
    status ← effective_status projection item
    rest ← keep_unresolved projection items
    ok (if is_supported status then rest else item ∷ rest)

  unfoldable pub unresolved_dependencies :
      LedgerProjection F J → LedgerNodeRef → Option (Result LedgerError (List LedgerNodeRef))
  unfolding keep_unresolved
  unresolved_dependencies projection key = elim (ancestors projection key) [
    | none ↦ none
    | some items ↦ some (keep_unresolved projection items)
  ]

  unfoldable pub query_by_type : LedgerProjection F J → LedgerNodeType → List (LedgerNode F J)
  query_by_type projection node_type =
      keep (λ n. type_rank n.preimage.node_type == type_rank node_type) projection.nodes
