-- ===== src/Ledger/Revisions.antt =====
-- The hash chain of revisions under `append_node` of src/fre/modules/m09_ledger.py.
use reasoning_engine.Prelude.{
  ℕ, ◌+◌, ◌≤◌, ◌≡◌, refl, sym, subst, false, Option, none, some, List, [], ◌∷◌, ◌++◌, ◌⊎◌, inl, inr,
  In, any, In-append, In-append_left, In-append_right, In-sort_by, In-of_sort_by, sum_by-sort_by,
  sum_by-append, count_by, count_by_zero, sort_by, ok, ◌==◌, ==→eq, if◌then◌else◌, Bool-cases,
  Option-cases, arith,
}
use reasoning_engine.Ledger.Types.{
  LedgerNodeRef, RevisionPreimage, LedgerNode, ref, LedgerProjection, ref_eq, ref_eq_iff,
  ref_has_eq,
}
use reasoning_engine.Ledger.Nodes.{get_node, node_le, predecessor_ref, unbound, append_node}

module _ {F J : Type 0} where
  -- `m` is the immediate predecessor whose hash `n` carries.
  abbrev pub IsPredecessor : LedgerNode F J → LedgerNode F J → Type 0
  IsPredecessor m n =
      (m.preimage.node_id ≡ n.preimage.node_id)
      × (m.preimage.revision + 1 ≡ n.preimage.revision)
      × (n.preimage.predecessor_revision_hash ≡ some m.revision_hash)

  get_node-In :
      (key : LedgerNodeRef) (nodes : List (LedgerNode F J)) (m : LedgerNode F J)
      → get_node key nodes ≡ some m
      → In m nodes × (ref m ≡ key)
  unfolding get_node
  get_node-In key [] m h = cc
  get_node-In key (n ∷ nodes) m h = elim (Option-cases (get_node key nodes)) [
    | inl e ↦ elim (Bool-cases (ref_eq key (ref n))) [
      | inl f ↦ (
        inl (ground (arith, e, f)),
        let q : n ≡ m = ground (arith, e, f) in
            subst (λ (x : LedgerNode F J). ref x ≡ key) q (sym ((ref_eq_iff key (ref n)).0 f)),
      )
      | inr f ↦ absurd (ground (arith, e, f))
    ]
    | inr (m', e) ↦
        let same : m' ≡ m = ground (arith, e) in
        let (i, q) = get_node-In key nodes m (subst (λ x. get_node key nodes ≡ some x) same e) in
        (inr i, q)
  ]

  get_node-none :
      (key : LedgerNodeRef) (nodes : List (LedgerNode F J))
      → get_node key nodes ≡ none
      → any (λ n. ref_eq key (ref n)) nodes ≡ false
  unfolding get_node
  get_node-none key [] h = refl
  get_node-none key (n ∷ nodes) h = ground (arith, get_node-none key nodes)

module _ {F J : Type 0} (canonical_hash : RevisionPreimage F J → ℕ) where
  -- Every node carries the hash of its preimage, no revision is there twice, and every revision but
  -- the first has its immediate predecessor, whose hash it carries.
  pub record IsChain (nodes : List (LedgerNode F J)) : Type 0 where
    pub hashed : (n : LedgerNode F J) → In n nodes → canonical_hash n.preimage ≡ n.revision_hash
    pub once :
        (key : LedgerNodeRef) → count_by (λ (n : LedgerNode F J). ref_eq key (ref n)) nodes ≤ 1
    pub bound :
        (n : LedgerNode F J)
        → In n nodes
        → (n.preimage.revision ≡ 1) ⊎ ((m : LedgerNode F J) × In m nodes × IsPredecessor m n)

  unbound-false :
      (node : LedgerNode F J) (o : Option (LedgerNode F J))
      → unbound node o ≡ false
      → (m : LedgerNode F J) × (o ≡ some m)
        × (node.preimage.predecessor_revision_hash ≡ some m.revision_hash)
  unfolding unbound
  unbound-false node none h = cc
  unbound-false node (some m) h = (m, refl, ground arith)

  predecessor_found :
      (p q : LedgerProjection F J) (node : LedgerNode F J)
      → append_node canonical_hash p node ≡ ok q
      → (node.preimage.revision ≡ 1)
        ⊎ ((m : LedgerNode F J) × (get_node (predecessor_ref node) p.nodes ≡ some m)
            × (node.preimage.predecessor_revision_hash ≡ some m.revision_hash))
  unfolding append_node
  predecessor_found p q node h = elim (Bool-cases (node.preimage.revision == 1)) [
    | inl e ↦ inl (==→eq node.preimage.revision 1 e)
    | inr e ↦ inr (unbound-false node (get_node (predecessor_ref node) p.nodes) (ground (arith, e)))
  ]

  append_node_inv :
      (p q : LedgerProjection F J) (node : LedgerNode F J)
      → append_node canonical_hash p node ≡ ok q
      → (canonical_hash node.preimage ≡ node.revision_hash)
        × (get_node (ref node) p.nodes ≡ none)
        × ((node.preimage.revision ≡ 1)
            ⊎ (m : LedgerNode F J) × (get_node (predecessor_ref node) p.nodes ≡ some m)
              × (node.preimage.predecessor_revision_hash ≡ some m.revision_hash))
        × (q ≡ record p { nodes = sort_by node_le (p.nodes ++ node ∷ []) })
  unfolding append_node
  append_node_inv p q node h =
      (ground arith, ground arith, predecessor_found p q node h, ground arith)

  added_In :
      (nodes : List (LedgerNode F J)) (node n : LedgerNode F J)
      → In n (sort_by node_le (nodes ++ node ∷ []))
      → In n nodes ⊎ (n ≡ node)
  added_In nodes node n m =
      elim (In-append n nodes (node ∷ []) (In-sort_by node_le n (nodes ++ node ∷ []) m)) [
        | inl l ↦ inl l
        | inr r ↦ elim r [ inl q ↦ inr q | inr absent ↦ absurd absent ]
      ]

  old_In :
      (nodes : List (LedgerNode F J)) (node n : LedgerNode F J)
      → In n nodes
      → In n (sort_by node_le (nodes ++ node ∷ []))
  old_In nodes node n m =
      In-of_sort_by node_le n (nodes ++ node ∷ []) (In-append_left n nodes (node ∷ []) m)

  added_once :
      (nodes : List (LedgerNode F J)) (node : LedgerNode F J)
      → get_node (ref node) nodes ≡ none
      → ((key : LedgerNodeRef) → count_by (λ (n : LedgerNode F J). ref_eq key (ref n)) nodes ≤ 1)
      → (key : LedgerNodeRef)
      → count_by (λ (n : LedgerNode F J). ref_eq key (ref n)) (sort_by node_le (nodes ++ node ∷ []))
        ≤ 1
  added_once nodes node fresh once key =
      let total : count_by (λ (n : LedgerNode F J). ref_eq key (ref n))
            (sort_by node_le (nodes ++ node ∷ []))
          ≡ count_by (λ (n : LedgerNode F J). ref_eq key (ref n)) nodes
            + count_by (λ (n : LedgerNode F J). ref_eq key (ref n)) (node ∷ []) =
        omega (
          arith,
          sum_by-sort_by node_le (λ (n : LedgerNode F J). if ref_eq key (ref n) then 1 else 0)
              (nodes ++ node ∷ []),
          sum_by-append (λ (n : LedgerNode F J). if ref_eq key (ref n) then 1 else 0) nodes
              (node ∷ []),
        ) in
      elim (Bool-cases (ref_eq key (ref node))) [
        | inl e ↦
            let same = (ref_eq_iff key (ref node)).0 e in
            let absent : count_by (λ (n : LedgerNode F J). ref_eq key (ref n)) nodes ≡ 0 =
              count_by_zero (λ (n : LedgerNode F J). ref_eq key (ref n)) nodes
                (subst (λ k. any (λ (n : LedgerNode F J). ref_eq k (ref n)) nodes ≡ false)
                  (sym same) (get_node-none (ref node) nodes fresh)) in
            ground (arith, total, absent, e)
        | inr e ↦ ground (arith, total, once key, e)
      ]

  -- If the revisions of the ledger are a hash chain, the node's revision is positive and appending the
  -- node succeeds, they are a hash chain afterwards, with the node and with every node that was there.
  pub append_node-IsChain :
      (p q : LedgerProjection F J) (node : LedgerNode F J)
      → IsChain p.nodes
      → 1 ≤ node.preimage.revision
      → append_node canonical_hash p node ≡ ok q
      → IsChain q.nodes × In node q.nodes × ((n : LedgerNode F J) → In n p.nodes → In n q.nodes)
  append_node-IsChain p q node c pos h =
      let (hash, fresh, link, same) = append_node_inv p q node h in
      subst
        (λ (x : LedgerProjection F J).
          IsChain x.nodes × In node x.nodes × ((n : LedgerNode F J) → In n p.nodes → In n x.nodes))
        (sym same)
        (
          record {
            hashed = λ n m. elim (added_In p.nodes node n m) [
              | inl old ↦ c.hashed n old
              | inr q ↦
                  subst (λ (x : LedgerNode F J). canonical_hash x.preimage ≡ x.revision_hash)
                    (sym q) hash
            ];
            once = added_once p.nodes node fresh c.once;
            bound = λ n m. elim (added_In p.nodes node n m) [
              | inl old ↦ elim (c.bound n old) [
                | inl first ↦ inl first
                | inr (k, i, pred) ↦ inr (k, old_In p.nodes node k i, pred)
              ]
              | inr q ↦
                  subst
                    (λ (x : LedgerNode F J).
                      (x.preimage.revision ≡ 1)
                      ⊎ ((k : LedgerNode F J) × In k (sort_by node_le (p.nodes ++ node ∷ []))
                          × IsPredecessor k x))
                    (sym q)
                    (elim link [
                      | inl first ↦ inl first
                      | inr (k, found, bind) ↦
                          let (i, at) = get_node-In (predecessor_ref node) p.nodes k found in
                          inr (
                            k,
                            old_In p.nodes node k i,
                            (ground (arith, at), ground (arith, at), bind),
                          )
                    ])
            ];
          },
          In-of_sort_by node_le node (p.nodes ++ node ∷ [])
              (In-append_right node p.nodes (node ∷ []) (inl refl)),
          old_In p.nodes node,
        )
