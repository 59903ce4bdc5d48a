-- ===== src/Ledger/Closure.antt =====
-- The searches of src/fre/modules/m09_ledger.py against paths in the dependency graph.
use mathlib.Core.Logic.{◌↔◌}
use reasoning_engine.Prelude.{
  length-append, ℕ, zero, suc, ◌+◌, ◌≤◌, ◌≡◌, refl, sym, subst, true, false, Option, none, some,
  List, [], ◌∷◌, ◌++◌, ◌⊎◌, inl, inr, In, length, sum_by, if◌then◌else◌, sort_by, mem, mem→In,
  lookup, In-append, In-append_left, In-append_right, In-sort_by, In-of_sort_by, Bool-cases, arith,
}
use reasoning_engine.Ledger.Types.{
  LedgerNodeRef, LedgerProjection, ref_eq, ref_le, ref_eq_iff, ref_has_eq,
}
use reasoning_engine.Ledger.Edges.{Adjacency, adjacency}
use reasoning_engine.Ledger.Dependencies.{Leads, Leads-of_Reaches, Reaches-of_Leads}
use reasoning_engine.Ledger.Search.{items_of, explore, rounds, search, descendants}
use reasoning_engine.Graph.Cycles.{IsEdge, Reaches, Reaches-snoc}

-- the items under keys that are not found yet
abbrev open_items : List LedgerNodeRef → Adjacency → ℕ
open_items found values =
    sum_by
      (λ (entry : LedgerNodeRef × List LedgerNodeRef).
        if mem entry.0 found then 0 else length entry.1)
      values

open_items-le :
    (values : Adjacency) (found : List LedgerNodeRef) (item : LedgerNodeRef)
    → open_items (item ∷ found) values ≤ open_items found values
open_items-le [] found item = omega arith
open_items-le (entry ∷ values) found item = ground (arith, open_items-le values found item)

open_items-found :
    (values : Adjacency) (found : List LedgerNodeRef) (item : LedgerNodeRef)
    → mem item found ≡ false
    → length (items_of values item) + open_items (item ∷ found) values ≤ open_items found values
unfolding items_of
open_items-found [] found item h = omega arith
open_items-found ((key, items) ∷ values) found item h = elim (Bool-cases (ref_eq item key)) [
  | inl e ↦
      let same : item ≡ key = (ref_eq_iff item key).0 e in
      let here : mem key found ≡ false = subst (λ x. mem x found ≡ false) same h in
      let there : ref_eq key item ≡ true = (ref_eq_iff key item).1 (sym same) in
      ground (arith, e, here, there, open_items-le values found item)
  | inr e ↦ ground (arith, e, open_items-found values found item h)
]

explore_total :
    (values : Adjacency) (fuel : ℕ) (found queue : List LedgerNodeRef)
    → length queue + open_items found values ≤ fuel
    → (r : List LedgerNodeRef) × (explore values fuel found queue ≡ some r)
unfolding explore
explore_total values fuel found [] h = (found, refl)
explore_total values zero found (item ∷ queue) h = absurd (ground arith)
explore_total values (suc fuel) found (item ∷ queue) h = elim (Bool-cases (mem item found)) [
  | inl e ↦ let (r, q) = explore_total values fuel found queue (ground arith) in (r, rw e q)
  | inr e ↦
      let (r, q) = explore_total values fuel (item ∷ found) (queue ++ items_of values item) (
        omega (
          arith,
          h,
          length-append queue (items_of values item),
          open_items-found values found item e,
        )) in
      (r, rw e q)
]

IsEdge-items_of :
    (values : Adjacency) (a b : LedgerNodeRef) → In b (items_of values a) → IsEdge values a b
unfolding items_of
IsEdge-items_of values a b m = from_entry (lookup a values) refl m
  where
    from_entry :
        (o : Option (List LedgerNodeRef))
        → lookup a values ≡ o
        → In b (elim o [ none ↦ [] | some items ↦ items ])
        → IsEdge values a b
    from_entry none e m = absurd m
    from_entry (some items) e m = (items, e, m)

items_of-IsEdge :
    (values : Adjacency) (a b : LedgerNodeRef) → IsEdge values a b → In b (items_of values a)
unfolding items_of
items_of-IsEdge values a b (items, e, m) =
    let same : items_of values a ≡ items = ground (arith, e) in subst (λ l. In b l) (sym same) m

module _ (values : Adjacency) (key : LedgerNodeRef) where
  -- All that is found or waits on the queue is reached.
  explore_sound :
      (fuel : ℕ) (found queue r : List LedgerNodeRef)
      → ((b : LedgerNodeRef) → In b found → Reaches values key b)
      → ((b : LedgerNodeRef) → In b queue → Reaches values key b)
      → explore values fuel found queue ≡ some r
      → (b : LedgerNodeRef) → In b r
      → Reaches values key b
  unfolding explore
  explore_sound fuel found [] r f q h =
      let same : found ≡ r = ground (arith, h) in λ b m. f b (subst (λ l. In b l) (sym same) m)
  explore_sound zero found (item ∷ queue) r f q h = cc h
  explore_sound (suc fuel) found (item ∷ queue) r f q h = elim (Bool-cases (mem item found)) [
    | inl e ↦
        explore_sound fuel found queue r f (λ b m. q b (inr m))
          (subst
            (λ c.
              (if c
                then explore values fuel found queue
                else explore values fuel (item ∷ found) (queue ++ items_of values item))
              ≡ some r)
            e h)
    | inr e ↦
        explore_sound fuel (item ∷ found) (queue ++ items_of values item) r
          (λ b m. elim m [
            | inl same ↦ subst (λ x. Reaches values key x) (sym same) (q item (inl refl))
            | inr old ↦ f b old
          ])
          (λ b m. elim (In-append b queue (items_of values item) m) [
            | inl old ↦ q b (inr old)
            | inr new ↦ Reaches-snoc values (q item (inl refl)) (IsEdge-items_of values item b new)
          ])
          (subst
            (λ c.
              (if c
                then explore values fuel found queue
                else explore values fuel (item ∷ found) (queue ++ items_of values item))
              ≡ some r)
            e h)
  ]

  -- What a found key lists, and what the search began with, is found or waits on the queue.
  record IsFrontier (found queue : List LedgerNodeRef) : Type 0 where
    begun : (b : LedgerNodeRef) → IsEdge values key b → In b found ⊎ In b queue
    closed : (a b : LedgerNodeRef) → In a found → IsEdge values a b → In b found ⊎ In b queue

  explore_closed :
      (fuel : ℕ) (found queue r : List LedgerNodeRef)
      → IsFrontier found queue
      → explore values fuel found queue ≡ some r
      → IsFrontier r []
  unfolding explore
  explore_closed fuel found [] r i h =
      let same : found ≡ r = ground (arith, h) in subst (λ l. IsFrontier l []) same i
  explore_closed zero found (item ∷ queue) r i h = cc h
  explore_closed (suc fuel) found (item ∷ queue) r i h = elim (Bool-cases (mem item found)) [
    | inl e ↦
        let skip : (b : LedgerNodeRef)
            → In b found ⊎ In b (item ∷ queue)
            → In b found ⊎ In b queue =
          λ b m. elim m [
            | inl old ↦ inl old
            | inr (inl same) ↦ inl (subst (λ x. In x found) (sym same) (mem→In item found e))
            | inr (inr old) ↦ inr old
          ] in
        explore_closed fuel found queue r
          (record {
            begun = λ b edge. skip b (i.begun b edge);
            closed = λ a b m edge. skip b (i.closed a b m edge);
          })
          (subst
            (λ c.
              (if c
                then explore values fuel found queue
                else explore values fuel (item ∷ found) (queue ++ items_of values item))
              ≡ some r)
            e h)
    | inr e ↦
        let rest = queue ++ items_of values item in
        let move : (b : LedgerNodeRef)
            → In b found ⊎ In b (item ∷ queue)
            → In b (item ∷ found) ⊎ In b rest =
          λ b m. elim m [
            | inl old ↦ inl (inr old)
            | inr (inl same) ↦ inl (inl same)
            | inr (inr old) ↦ inr (In-append_left b queue (items_of values item) old)
          ] in
        explore_closed fuel (item ∷ found) rest r
          (record {
            begun = λ b edge. move b (i.begun b edge);
            closed = λ a b m edge. elim m [
              | inl same ↦ inr (
                  In-append_right b queue (items_of values item)
                    (items_of-IsEdge values item b (subst (λ x. IsEdge values x b) same edge)))
              | inr old ↦ move b (i.closed a b old edge)
            ];
          })
          (subst
            (λ c.
              (if c
                then explore values fuel found queue
                else explore values fuel (item ∷ found) (queue ++ items_of values item))
              ≡ some r)
            e h)
  ]

  frontier_reached :
      (r : List LedgerNodeRef)
      → IsFrontier r []
      → {a b : LedgerNodeRef} → In a r
      → Reaches values a b
      → In b r
  frontier_reached r i {a} {b} m (Reaches.step edge) = elim (i.closed a b m edge) [
    | inl x ↦ x
    | inr x ↦ absurd x
  ]
  frontier_reached r i {a} m (Reaches.more {b = c} edge path) = elim (i.closed a c m edge) [
    | inl x ↦ frontier_reached r i x path
    | inr x ↦ absurd x
  ]

  reached_found :
      (r : List LedgerNodeRef)
      → IsFrontier r []
      → {b : LedgerNodeRef} → Reaches values key b
      → In b r
  reached_found r i {b} (Reaches.step edge) = elim (i.begun b edge) [ inl x ↦ x | inr x ↦ absurd x ]
  reached_found r i (Reaches.more {b = c} edge path) = elim (i.begun c edge) [
    | inl x ↦ frontier_reached r i x path
    | inr x ↦ absurd x
  ]

  search-some :
      (found : List LedgerNodeRef)
      → explore values (rounds values key) [] (items_of values key) ≡ some found
      → search values key ≡ some (sort_by ref_le found)
  unfolding search
  search-some found e = ground (arith, e)

  -- The search of a dictionary never runs out of rounds, and finds just what is reached.
  pub search_exact :
      (r : List LedgerNodeRef) × (search values key ≡ some r)
      × ((b : LedgerNodeRef) → In b r ↔ Reaches values key b)
  unfolding rounds
  search_exact =
      let (found, e) =
        explore_total values (rounds values key) [] (items_of values key) (omega arith) in
      let i : IsFrontier found [] =
        explore_closed (rounds values key) [] (items_of values key) found
          (record {
            begun = λ b edge. inr (items_of-IsEdge values key b edge);
            closed = λ a b m. absurd m;
          })
          e in
      (
        sort_by ref_le found,
        search-some found e,
        λ b. (
          λ m.
              explore_sound (rounds values key) [] (items_of values key) found (λ b m. absurd m)
                (λ b m. Reaches.step (IsEdge-items_of values key b m)) e b
                (In-sort_by ref_le b found m),
          λ path. In-of_sort_by ref_le b found (reached_found found i path),
        ),
      )

-- The descendants of a node are always found, and they are just the nodes to which dependency edges of
-- the ledger lead from it.
pub descendants_exact :
    {F J : Type 0} (p : LedgerProjection F J) (key : LedgerNodeRef)
    → (r : List LedgerNodeRef) × (descendants p key ≡ some r)
      × ((b : LedgerNodeRef) → In b r ↔ Leads p.edges key b)
unfolding descendants
descendants_exact p key =
    let (r, e, exact) = search_exact (adjacency p.edges) key in
    (
      r,
      e,
      λ b. (
        λ m. Leads-of_Reaches p.edges ((exact b).0 m),
        λ path. (exact b).1 (Reaches-of_Leads p.edges path),
      ),
    )
