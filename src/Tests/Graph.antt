-- ===== src/Tests/Graph.antt =====
-- The traversal of src/fre/domain/graph.py on dictionaries with and without a cycle.
use reasoning_engine.Prelude.{arith, ℕ, ◌≡◌, refl, List, [], ◌∷◌, ◌⊎◌, In, ok, err, nat_eq}
use reasoning_engine.Graph.{
  raised, Walk, visit_all, finish, visit, depth_first_traverse, refuse, accept, reject_cycles,
}
use reasoning_engine.Graph.Cycles.{IsKey, Reaches}
use reasoning_engine.Graph.Acyclic.{reject_cycles_decides}

abbrev diamond : List (ℕ × List ℕ)
diamond = (1, 2 ∷ 3 ∷ []) ∷ (2, 4 ∷ []) ∷ (3, 4 ∷ []) ∷ (4, []) ∷ []

abbrev looped : List (ℕ × List ℕ)
looped = (1, 2 ∷ []) ∷ (2, 3 ∷ []) ∷ (3, 2 ∷ []) ∷ []

diamond_run :
    reject_cycles diamond (1 ∷ 2 ∷ 3 ∷ 4 ∷ [])
    ≡ ok (record { visiting = []; visited = 1 ∷ 3 ∷ 2 ∷ 4 ∷ []; user = tt })
unfolding reject_cycles depth_first_traverse visit_all visit finish accept refuse
diamond_run = refl

looped_run : reject_cycles looped (1 ∷ 2 ∷ 3 ∷ []) ≡ err (raised 2)
unfolding reject_cycles depth_first_traverse visit_all visit finish accept refuse
looped_run = refl

looped_covers : (k : ℕ) → IsKey looped k → In k (1 ∷ 2 ∷ 3 ∷ [])
looped_covers k (targets, e) = ground arith

reject_cycles_decides_example :
    ((w : Walk ℕ (Unit {0})) × (reject_cycles looped (1 ∷ 2 ∷ 3 ∷ []) ≡ ok w)
      × ((a : ℕ) → ¬ (Reaches looped a a)))
    ⊎ ((k : ℕ) × (reject_cycles looped (1 ∷ 2 ∷ 3 ∷ []) ≡ err (raised k)) × Reaches looped k k)
reject_cycles_decides_example = reject_cycles_decides looped (1 ∷ 2 ∷ 3 ∷ []) looped_covers
