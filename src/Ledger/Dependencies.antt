-- ===== src/Ledger/Dependencies.antt =====
-- The dictionary of `_adjacency` of src/fre/modules/m09_ledger.py and the dependency edges.
use reasoning_engine.Prelude.{
  ◌≡◌, refl, sym, subst, Bool, true, false, some, List, [], ◌∷◌, ◌⊎◌, inl, inr, In, map, lookup,
  sort_by, In-sort_by, In-of_sort_by, Bool-cases, if◌then◌else◌, arith,
}
use reasoning_engine.Ledger.Types.{
  LedgerNodeRef, LedgerEdge, ref_eq, ref_le, ref_has_eq, ref_eq_iff,
}
use reasoning_engine.Ledger.Edges.{
  collect_one, is_dependency, normalised, Adjacency, add_dependent, collect, adjacency, sort_items,
  key_order,
}
use reasoning_engine.Graph.Cycles.{IsEdge, IsKey, Reaches}
use reasoning_engine.Ledger.Adjacency.{
  IsEdge-add_dependent_new, IsEdge-add_dependent_old, IsEdge-of_add_dependent, lookup-sorted,
  lookup-of_sorted,
}

module _ {J : Type 0} where
  -- A dependency edge of the ledger leads from the prerequisite `a` to the dependent `b`.
  abbrev pub Links : List (LedgerEdge J) → LedgerNodeRef → LedgerNodeRef → Type 0
  Links edges a b =
      (edge : LedgerEdge J) × In edge edges
      × (is_dependency edge.relation ≡ true)
      × ((normalised edge).0 ≡ a)
      × ((normalised edge).1 ≡ b)

  -- one dependency edge or more
  pub data Leads (edges : List (LedgerEdge J)) : LedgerNodeRef → LedgerNodeRef → Type 0 where
    link : {a b : LedgerNodeRef} → Links edges a b → Leads edges a b
    chain : {a b c : LedgerNodeRef} → Links edges a b → Leads edges b c → Leads edges a c

  collect_one_old :
      (values : Adjacency) (x : LedgerEdge J) (a b : LedgerNodeRef)
      → IsEdge values a b
      → IsEdge (collect_one values x) a b
  unfolding collect_one
  collect_one_old values x a b edge = elim (Bool-cases (is_dependency x.relation)) [
    | inl e ↦ rw e (IsEdge-add_dependent_old (normalised x).0 (normalised x).1 a b values edge)
    | inr e ↦ rw e edge
  ]

  collect_one_new :
      (values : Adjacency) (x : LedgerEdge J)
      → is_dependency x.relation ≡ true
      → IsEdge (collect_one values x) (normalised x).0 (normalised x).1
  unfolding collect_one
  collect_one_new values x e =
      rw e (IsEdge-add_dependent_new (normalised x).0 (normalised x).1 values)

  of_collect_one :
      (values : Adjacency) (x : LedgerEdge J) (a b : LedgerNodeRef)
      → IsEdge (collect_one values x) a b
      → IsEdge values a b
        ⊎ (is_dependency x.relation ≡ true) × ((normalised x).0 ≡ a) × ((normalised x).1 ≡ b)
  unfolding collect_one
  of_collect_one values x a b edge = go (is_dependency x.relation) refl edge
    where
      go :
          (c : Bool)
          → is_dependency x.relation ≡ c
          → IsEdge
              (if c then add_dependent (normalised x).0 (normalised x).1 values else values)
              a
              b
          → IsEdge values a b
            ⊎ (is_dependency x.relation ≡ true) × ((normalised x).0 ≡ a) × ((normalised x).1 ≡ b)
      go true e m = elim (IsEdge-of_add_dependent (normalised x).0 (normalised x).1 a b values m) [
        | inl old ↦ inl old
        | inr (q, r) ↦ inr (e, sym q, sym r)
      ]
      go false e m = inl m

  collect_old :
      (values : Adjacency) (edges : List (LedgerEdge J)) (a b : LedgerNodeRef)
      → IsEdge values a b
      → IsEdge (collect values edges) a b
  unfolding collect
  collect_old values [] a b edge = edge
  collect_old values (x ∷ edges) a b edge =
      collect_old (collect_one values x) edges a b (collect_one_old values x a b edge)

  collect_new :
      (values : Adjacency) (edges : List (LedgerEdge J)) (edge : LedgerEdge J)
      → In edge edges
      → is_dependency edge.relation ≡ true
      → IsEdge (collect values edges) (normalised edge).0 (normalised edge).1
  unfolding collect
  collect_new values [] edge m d = absurd m
  collect_new values (x ∷ edges) edge (inl q) d =
      collect_old (collect_one values x) edges (normalised edge).0 (normalised edge).1 (
        subst
          (λ (y : LedgerEdge J).
            IsEdge (collect_one values y) (normalised edge).0 (normalised edge).1)
          q (collect_one_new values edge d))
  collect_new values (x ∷ edges) edge (inr m) d = collect_new (collect_one values x) edges edge m d

  of_collect :
      (values : Adjacency) (edges : List (LedgerEdge J)) (a b : LedgerNodeRef)
      → IsEdge (collect values edges) a b
      → IsEdge values a b ⊎ Links edges a b
  unfolding collect
  of_collect values [] a b edge = inl edge
  of_collect values (x ∷ edges) a b edge = elim (of_collect (collect_one values x) edges a b edge) [
    | inl earlier ↦ elim (of_collect_one values x a b earlier) [
      | inl old ↦ inl old
      | inr (d, q, r) ↦ inr (x, inl refl, d, q, r)
    ]
    | inr (y, m, d, q, r) ↦ inr (y, inr m, d, q, r)
  ]

  -- The adjacency has an edge just where the ledger has a dependency edge.
  pub IsEdge-adjacency :
      (edges : List (LedgerEdge J)) (a b : LedgerNodeRef)
      → Links edges a b
      → IsEdge (adjacency edges) a b
  unfolding adjacency
  IsEdge-adjacency edges a b (edge, m, d, q, r) =
      let (items, entry, n) = collect_new [] edges edge m d in
      let found : IsEdge (map sort_items (collect [] edges)) (normalised edge).0
          (normalised edge).1 =
        (
          sort_by ref_le items,
          lookup-sorted (collect [] edges) (normalised edge).0 items entry,
          In-of_sort_by ref_le (normalised edge).1 items n,
        ) in
      subst (λ x. IsEdge (map sort_items (collect [] edges)) x b) q
        (subst (λ y. IsEdge (map sort_items (collect [] edges)) (normalised edge).0 y) r found)

  pub Links-of_adjacency :
      (edges : List (LedgerEdge J)) (a b : LedgerNodeRef)
      → IsEdge (adjacency edges) a b
      → Links edges a b
  unfolding adjacency
  Links-of_adjacency edges a b (items, entry, m) =
      let (raw, entry', same) = lookup-of_sorted (collect [] edges) a items entry in
      elim (of_collect [] edges a b
        (raw, entry', In-sort_by ref_le b raw (subst (λ l. In b l) same m))) [
          | inl nothing ↦ absurd (ground (arith, nothing.1))
          | inr links ↦ links
        ]

  pub Reaches-of_Leads :
      (edges : List (LedgerEdge J)) {a b : LedgerNodeRef}
      → Leads edges a b
      → Reaches (adjacency edges) a b
  Reaches-of_Leads edges {a} {b} (link l) = Reaches.step (IsEdge-adjacency edges a b l)
  Reaches-of_Leads edges {a} (chain {b = c} l r) =
      Reaches.more (IsEdge-adjacency edges a c l) (Reaches-of_Leads edges r)

  pub Leads-of_Reaches :
      (edges : List (LedgerEdge J)) {a b : LedgerNodeRef}
      → Reaches (adjacency edges) a b
      → Leads edges a b
  Leads-of_Reaches edges {a} {b} (Reaches.step l) = link (Links-of_adjacency edges a b l)
  Leads-of_Reaches edges {a} (Reaches.more {b = c} l r) =
      chain (Links-of_adjacency edges a c l) (Leads-of_Reaches edges r)

key_listed :
    (values : Adjacency) (a : LedgerNodeRef) (items : List LedgerNodeRef)
    → lookup a values ≡ some items
    → In a (map (λ (entry : LedgerNodeRef × List LedgerNodeRef). entry.0) values)
key_listed [] a items h = cc
key_listed ((key, others) ∷ values) a items h = elim (Bool-cases (ref_eq a key)) [
  | inl e ↦ inl ((ref_eq_iff a key).0 e)
  | inr e ↦ inr (key_listed values a items (ground arith))
]

-- The order of the traversal has every key.
pub key_order_covers :
    (values : Adjacency) (a : LedgerNodeRef) → IsKey values a → In a (key_order values)
unfolding key_order
key_order_covers values a (items, entry) =
    In-of_sort_by ref_le a (map (λ (e : LedgerNodeRef × List LedgerNodeRef). e.0) values)
      (key_listed values a items entry)
