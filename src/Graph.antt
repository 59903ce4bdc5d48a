-- ===== src/Graph.antt =====
-- `depth_first_traverse` of src/fre/domain/graph.py. The dictionary `edges` is an association list,
-- the sets `visiting` and `visited` are lists with the newest first, and the callbacks take and
-- return the caller's own state. The nested `visit` recurs on fuel.

pub mod Cycles
pub mod Step
pub mod Acyclic
use reasoning_engine.Prelude.{
  ℕ, zero, suc, Bool, true, not, Option, none, some, List, [], ◌∷◌, keep, if◌then◌else◌, Result, ok,
  err, ◌>>=◌, Eq, mem, lookup, length,
}

pub data Halt (E : Type 0) : Type 0 where
  out_of_fuel : Halt E
  raised : E → Halt E

pub record Walk (K U : Type 0) : Type 0 where
  pub visiting : List K
  pub visited : List K
  pub user : U

-- A callback: it may change the caller's state, or raise.
abbrev pub Callback : Type 0 → Type 0 → Type 0 → Type 0
Callback K E U = K → U → Result (Halt E) U

-- `for target_id in targets: visit(target_id)`
unfoldable pub visit_all :
    {K E U : Type 0}
    → (K → Walk K U → Result (Halt E) (Walk K U))
    → List K
    → Walk K U
    → Result (Halt E) (Walk K U)
visit_all go [] w = ok w
visit_all go (k ∷ ks) w = go k w >>= visit_all go ks

module _ {K E U : Type 0} ⦃e : Eq K⦄ (edges : List (K × List K))
    (on_cycle on_finish : Callback K E U) where
  -- the end of `visit`, after the targets
  unfoldable pub finish : K → Walk K U → Result (Halt E) (Walk K U)
  finish node_id w = do
    user ← on_finish node_id w.user
    ok (record {
      visiting = keep (λ v. not (e.beq node_id v)) w.visiting;
      visited = node_id ∷ w.visited;
      user = user;
    })

  unfoldable pub visit : ℕ → K → Walk K U → Result (Halt E) (Walk K U)
  unfolding finish visit_all
  visit zero node_id w = err out_of_fuel
  visit (suc fuel) node_id w =
      if mem node_id w.visiting
      then (on_cycle node_id w.user >>= λ user. ok (record w { user = user }))
      else if mem node_id w.visited
      then ok w
      else elim (lookup node_id edges) [
        | none ↦ ok w
        | some targets ↦
            visit_all (visit fuel) targets (record w { visiting = node_id ∷ w.visiting })
            >>= finish node_id
      ]

  -- One more unit of fuel than there are keys.
  unfoldable pub depth_first_traverse : List K → U → Result (Halt E) (Walk K U)
  unfolding visit
  depth_first_traverse order user =
      visit_all (visit (suc (length edges))) order
        (record { visiting = []; visited = []; user = user })

-- `on_cycle` of both validating callers: it raises; they give no `on_finish`.
unfoldable pub refuse : {K : Type 0} → Callback K K (Unit {0})
refuse node_id _ = err (raised node_id)

unfoldable pub accept : {K : Type 0} → Callback K K (Unit {0})
accept _ user = ok user

unfoldable pub reject_cycles :
    {K : Type 0} ⦃e : Eq K⦄ → List (K × List K) → List K → Result (Halt K) (Walk K (Unit {0}))
unfolding depth_first_traverse refuse accept
reject_cycles edges order = depth_first_traverse edges refuse accept order tt
