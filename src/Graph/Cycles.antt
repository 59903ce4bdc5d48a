-- ===== src/Graph/Cycles.antt =====
-- Paths in a dictionary of edges, and lists in which every node stands before its targets, as
-- src/fre/domain/graph.py finishes them.
use reasoning_engine.Prelude.{◌≡◌, sym, subst, some, List, [], ◌∷◌, inl, inr, In, Eq, lookup}

module _ {K : Type 0} ⦃e : Eq K⦄ (edges : List (K × List K)) where
  -- `b` is listed under `a`
  abbrev pub IsEdge : K → K → Type 0
  IsEdge a b = (targets : List K) × (lookup a edges ≡ some targets) × In b targets

  -- `a` is a key of the dictionary
  abbrev pub IsKey : K → Type 0
  IsKey a = (targets : List K) × (lookup a edges ≡ some targets)

  -- one edge or more
  pub data Reaches : K → K → Type 0 where
    step : {a b : K} → IsEdge a b → Reaches a b
    more : {a b c : K} → IsEdge a b → Reaches b c → Reaches a c

  pub Reaches-snoc : {a b c : K} → Reaches a b → IsEdge b c → Reaches a c
  Reaches-snoc (step p) q = more p (step q)
  Reaches-snoc (more p r) q = more p (Reaches-snoc r q)

  pub Reaches-IsKey : {a b : K} → Reaches a b → IsKey a
  Reaches-IsKey (step p) = (p.0, p.1)
  Reaches-IsKey (more p r) = (p.0, p.1)

  -- The list is in finishing order: what a node lists was finished before it, and no node is twice.
  abbrev pub IsFinished : List K → Type 0
  IsFinished [] = Unit
  IsFinished (v ∷ vs) = ((t : K) → IsEdge v t → IsKey t → In t vs) × (¬ (In v vs)) × IsFinished vs

  edge_closed : (vs : List K) (a b : K) → IsFinished vs → In a vs → IsEdge a b → IsKey b → In b vs
  edge_closed [] a b f m p k = absurd m
  edge_closed (v ∷ vs) a b f (inl q) p k = inr (f.0 b (subst (λ x. IsEdge x b) q p) k)
  edge_closed (v ∷ vs) a b f (inr m) p k = inr (edge_closed vs a b f.2 m p k)

  reach_closed : (vs : List K) {a b : K} → IsFinished vs → In a vs → Reaches a b → IsKey b → In b vs
  reach_closed vs {a} {b} f m (step p) k = edge_closed vs a b f m p k
  reach_closed vs {a} f m (more {b = c} p r) k =
      reach_closed vs f (edge_closed vs a c f m p (Reaches-IsKey r)) r k

  head_closed :
      (v : K) (vs : List K) {b : K} → IsFinished (v ∷ vs) → Reaches v b → IsKey b → In b vs
  head_closed v vs {b} f (step p) k = f.0 b p k
  head_closed v vs f (more {b = c} p r) k = reach_closed vs f.2 (f.0 c p (Reaches-IsKey r)) r k

  -- No node of a list in finishing order reaches itself.
  pub IsFinished-acyclic : (vs : List K) (a : K) → IsFinished vs → In a vs → ¬ (Reaches a a)
  IsFinished-acyclic [] a f m r = m
  IsFinished-acyclic (v ∷ vs) a f (inl q) r = f.1 (
      head_closed v vs f (subst (λ x. Reaches x x) q r)
        (Reaches-IsKey (subst (λ x. Reaches x x) q r)))
  IsFinished-acyclic (v ∷ vs) a f (inr m) r = IsFinished-acyclic vs a f.2 m r

  -- Each node of the stack is listed under the one below it.
  abbrev pub IsStack : List K → Type 0
  IsStack [] = Unit
  IsStack (v ∷ []) = Unit
  IsStack (v ∷ u ∷ vs) = IsEdge u v × IsStack (u ∷ vs)

  -- A node on the stack reaches the one on its top.
  pub stack-Reaches : (v : K) (vs : List K) (a : K) → IsStack (v ∷ vs) → In a vs → Reaches a v
  stack-Reaches v [] a s m = absurd m
  stack-Reaches v (u ∷ vs) a s (inl q) = step (subst (λ x. IsEdge x v) (sym q) s.0)
  stack-Reaches v (u ∷ vs) a s (inr m) = Reaches-snoc (stack-Reaches u vs a s.1 m) s.0
