-- ===== src/Graph/Acyclic.antt =====
-- Cycle detection by `depth_first_traverse` of src/fre/domain/graph.py against paths in the
-- dictionary.
use reasoning_engine.Prelude.{
  suc, ◌≤◌, ◌<◌, ◌≡◌, refl, sym, subst, not, List, [], ◌∷◌, ◌⊎◌, inl, inr, In, count_by, length,
  Result, ok, err, Eq, mem, arith,
}
use reasoning_engine.Graph.{Halt, out_of_fuel, raised, Walk, visit, refuse, accept, reject_cycles}
use reasoning_engine.Graph.Cycles.{IsKey, Reaches, Reaches-IsKey, IsStack, IsFinished-acyclic}
use reasoning_engine.Graph.Step.{Outcome, room, visit_all-Outcome, visit-Outcome}

room-le-length :
    {K : Type 0} ⦃e : Eq K⦄ (stack : List K) (entries : List (K × List K))
    → count_by (λ (entry : K × List K). not (mem entry.0 stack)) entries ≤ length entries
room-le-length stack [] = omega arith
room-le-length stack (entry ∷ entries) = ground (arith, room-le-length stack entries)

module _ {K : Type 0} ⦃e : Eq K⦄ (edges : List (K × List K)) (order : List K) where
  abbrev start : Walk K (Unit {0})
  start = record { visiting = []; visited = []; user = tt }

  reject_cycles-Outcome : Outcome edges (λ v. In v order) start (reject_cycles edges order)
  unfolding reject_cycles
  reject_cycles-Outcome =
      visit_all-Outcome edges (visit edges refuse accept (suc (length edges))) order start
        (λ k u m same s.
          visit-Outcome edges (suc (length edges)) k u s
            (subst (λ l. IsStack edges (k ∷ l)) (sym same) tt)
            (subst (λ l. room edges l < suc (length edges)) (sym same)
              (omega (arith, room-le-length ⦃e = e⦄ [] edges))))
        (record { apart = λ v m. absurd m; finished = tt })

  -- If the order lists every key of the dictionary, then either the traversal returns and no node is
  -- on a cycle, or it raises and the node that it names is on a cycle: it never runs out of fuel.
  pub reject_cycles_decides :
      ((k : K) → IsKey edges k → In k order)
      → ((w : Walk K (Unit {0})) × (reject_cycles edges order ≡ ok w)
          × ((a : K) → ¬ (Reaches edges a a)))
        ⊎ ((k : K) × (reject_cycles edges order ≡ err (raised k)) × Reaches edges k k)
  reject_cycles_decides covers = decide_from (reject_cycles edges order) refl reject_cycles-Outcome
    where
      decide_from :
          (r : Result (Halt K) (Walk K (Unit {0})))
          → reject_cycles edges order ≡ r
          → Outcome edges (λ v. In v order) start r
          → ((w : Walk K (Unit {0})) × (reject_cycles edges order ≡ ok w)
              × ((a : K) → ¬ (Reaches edges a a)))
            ⊎ ((k : K) × (reject_cycles edges order ≡ err (raised k)) × Reaches edges k k)
      decide_from (ok w) same o = inl (
        w,
        same,
        λ a r.
            IsFinished-acyclic edges w.visited a o.0.sound.finished
              (o.1 a (covers a (Reaches-IsKey edges r)) (Reaches-IsKey edges r)) r,
      )
      decide_from (err (raised k)) same o = inr (k, same, o)
      decide_from (err out_of_fuel) same o = absurd o
