-- ===== src/Ledger/Nodes.antt =====
-- The nodes of the ledger: `revision_hash`, `make_node`, `_node_map`, `append_node` and
-- `verify_revision_chain` of src/fre/modules/m09_ledger.py.
use reasoning_engine.Prelude.{
  ℕ, ◌-◌, Bool, true, false, Option, none, some, List, [], ◌∷◌, ◌++◌, ◌&&◌, not, keep, ltb, leb,
  ◌==◌, if◌then◌else◌, Result, ok, err, ◌>>◌, raise_if, sort_by,
}
use reasoning_engine.Ledger.Types.{
  LedgerNodeRef, RevisionPreimage, LedgerNode, ref, LedgerProjection, LedgerError, ref_eq, ref_le,
  invalid_revision, revision_hash_mismatch, validation_error,
}

-- the hash is given, and is this one
abbrev pub option_is : Option ℕ → ℕ → Bool
option_is none h = false
option_is (some g) h = g == h

module _ {F J : Type 0} where
  -- `_node_map(projection).get(key)`: of two nodes with one key the later is found
  unfoldable pub get_node : LedgerNodeRef → List (LedgerNode F J) → Option (LedgerNode F J)
  get_node key [] = none
  get_node key (n ∷ ns) = elim (get_node key ns) [
    | some m ↦ some m
    | none ↦ if ref_eq key (ref n) then some n else none
  ]

  -- `_ref_key(ref) in nodes`
  unfoldable pub knows : List (LedgerNode F J) → LedgerNodeRef → Bool
  knows nodes key = elim (get_node key nodes) [ none ↦ false | some _ ↦ true ]

  unfoldable pub node_le : LedgerNode F J → LedgerNode F J → Bool
  node_le m n = ref_le (ref m) (ref n)

  -- the key of the immediate predecessor
  abbrev pub predecessor_ref : LedgerNode F J → LedgerNodeRef
  predecessor_ref n = record { node_id = n.preimage.node_id; revision = n.preimage.revision - 1 }

  -- the predecessor is missing, or its hash is not the one that the node carries
  unfoldable pub unbound : LedgerNode F J → Option (LedgerNode F J) → Bool
  unbound node none = true
  unbound node (some predecessor) =
      not (option_is node.preimage.predecessor_revision_hash predecessor.revision_hash)

-- `(revision == 1) != (predecessor_revision_hash is None)`
abbrev pub first_mismatch : Bool → Option ℕ → Bool
first_mismatch true none = false
first_mismatch true (some _) = true
first_mismatch false none = true
first_mismatch false (some _) = false

-- The parameter stands for `canonical_hash` on the dumped preimage.
module _ {F J : Type 0} (canonical_hash : RevisionPreimage F J → ℕ) where
  -- `revision_hash`
  abbrev pub hash_of : LedgerNode F J → ℕ
  hash_of node = canonical_hash node.preimage

  -- the chain of tests of `make_node` and of the validator of `LedgerNode`; `aware` says that the
  -- time stamp has a zone
  unfoldable pub make_node : Bool → RevisionPreimage F J → Result LedgerError (LedgerNode F J)
  make_node aware preimage = do
    raise_if (not aware) validation_error
    raise_if (preimage.revision == 0) validation_error
    raise_if (first_mismatch (preimage.revision == 1) preimage.predecessor_revision_hash)
        validation_error
    ok (record { preimage = preimage; revision_hash = canonical_hash preimage })

  unfoldable pub append_node :
      LedgerProjection F J → LedgerNode F J → Result LedgerError (LedgerProjection F J)
  unfolding knows unbound
  append_node projection node = do
    raise_if (not (hash_of node == node.revision_hash)) revision_hash_mismatch
    raise_if (knows projection.nodes (ref node)) invalid_revision
    raise_if
        (not (node.preimage.revision == 1)
          && unbound node (get_node (predecessor_ref node) projection.nodes))
        revision_hash_mismatch
    ok (record projection { nodes = sort_by node_le (projection.nodes ++ node ∷ []) })

  -- the loop of `verify_revision_chain`, over the nodes from the one after `previous`
  unfoldable pub verify_from :
      ℕ → Option (LedgerNode F J) → List (LedgerNode F J) → Result LedgerError Bool
  verify_from from_revision previous [] = ok true
  verify_from from_revision previous (node ∷ nodes) =
      let rest = verify_from from_revision (some node) nodes in
      if ltb node.preimage.revision from_revision
      then rest
      else if not (hash_of node == node.revision_hash)
      then err revision_hash_mismatch
      else if ltb 1 node.preimage.revision && unbound node previous
      then err revision_hash_mismatch
      else rest

  abbrev pub revision_le : LedgerNode F J → LedgerNode F J → Bool
  revision_le m n = leb m.preimage.revision n.preimage.revision

  unfoldable pub verify_revision_chain : LedgerProjection F J → ℕ → ℕ → Result LedgerError Bool
  unfolding verify_from
  verify_revision_chain projection node_id from_revision =
      verify_from from_revision none
        (sort_by revision_le (keep (λ node. node.preimage.node_id == node_id) projection.nodes))
