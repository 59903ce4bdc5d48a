-- ===== src/Graph/Step.antt =====
-- What one call of `visit` of src/fre/domain/graph.py does to the sets, on every outcome.
use reasoning_engine.Prelude.{
  ℕ, zero, suc, ◌≤◌, ◌<◌, ◌≡◌, refl, sym, subst, ◌∙◌, ◌⊎◌, true, false, not, none, some, List, [],
  ◌∷◌, inl, inr, In, keep, count_by, Result, ok, err, ◌>>=◌, Eq, mem, mem→In, In→mem, In-keep,
  lookup, Bool-cases, Option-cases, keep_none, arith,
}
use reasoning_engine.Graph.{
  refuse, accept, Halt, out_of_fuel, raised, Walk, visit_all, visit, finish,
}
use reasoning_engine.Graph.Cycles.{IsEdge, IsKey, Reaches, IsFinished, IsStack, stack-Reaches}

module _ {K : Type 0} ⦃e : Eq K⦄ (edges : List (K × List K)) where
  -- the keys that are not on the stack
  abbrev pub room : List K → ℕ
  room stack = count_by (λ (entry : K × List K). not (mem entry.0 stack)) edges

  -- A node on the stack is not finished, and what is finished is in finishing order.
  pub record IsSound (w : Walk K (Unit {0})) : Type 0 where
    pub apart : (v : K) → In v w.visiting → ¬ (In v w.visited)
    pub finished : IsFinished edges w.visited

  -- What a successful call leaves behind.
  pub record Extends (w w' : Walk K (Unit {0})) : Type 0 where
    pub sound : IsSound w'
    pub same_stack : w'.visiting ≡ w.visiting
    pub grows : (v : K) → In v w.visited → In v w'.visited

  -- The outcome of a call: the nodes in `done` are finished, or there is a cycle. Fuel never runs out.
  abbrev pub Outcome :
      (K → Type 0) → Walk K (Unit {0}) → Result (Halt K) (Walk K (Unit {0})) → Type 0
  Outcome done w (ok w') = Extends w w' × ((v : K) → done v → IsKey edges v → In v w'.visited)
  Outcome done w (err (raised k)) = Reaches edges k k
  Outcome done w (err out_of_fuel) = ⊥

  abbrev pub Step : Type 0
  Step = K → Walk K (Unit {0}) → Result (Halt K) (Walk K (Unit {0}))

  Outcome-after :
      (first rest done : K → Type 0) (w w' : Walk K (Unit {0}))
      (r : Result (Halt K) (Walk K (Unit {0})))
      → Extends w w'
      → ((v : K) → first v → IsKey edges v → In v w'.visited)
      → ((v : K) → done v → first v ⊎ rest v)
      → Outcome rest w' r
      → Outcome done w r
  Outcome-after first rest done w w' (ok u) x f split o = (
    record {
      sound = o.0.sound;
      same_stack = o.0.same_stack ∙ x.same_stack;
      grows = λ v m. o.0.grows v (x.grows v m);
    },
    λ v d k. elim (split v d) [ inl l ↦ o.0.grows v (f v l k) | inr l ↦ o.1 v l k ],
  )
  Outcome-after first rest done w w' (err (raised c)) x f split o = o
  Outcome-after first rest done w w' (err out_of_fuel) x f split o = o

  -- Two calls in a row.
  Outcome-bind :
      (first rest done : K → Type 0) (w : Walk K (Unit {0}))
      (r : Result (Halt K) (Walk K (Unit {0})))
      (go : Walk K (Unit {0}) → Result (Halt K) (Walk K (Unit {0})))
      → ((v : K) → done v → first v ⊎ rest v)
      → Outcome first w r
      → ((u : Walk K (Unit {0})) → Extends w u → Outcome rest u (go u))
      → Outcome done w (r >>= go)
  Outcome-bind first rest done w (ok u) go split o next =
      Outcome-after first rest done w u (go u) o.0 o.1 split (next u o.0)
  Outcome-bind first rest done w (err (raised c)) go split o next = o
  Outcome-bind first rest done w (err out_of_fuel) go split o next = absurd o

  -- A loop over targets, when a call for each of them has its outcome.
  pub visit_all-Outcome :
      (go : Step) (ks : List K) (w : Walk K (Unit {0}))
      → ((k : K) (u : Walk K (Unit {0}))
          → In k ks
          → u.visiting ≡ w.visiting
          → IsSound u
          → Outcome (λ v. v ≡ k) u (go k u))
      → IsSound w
      → Outcome (λ v. In v ks) w (visit_all go ks w)
  unfolding visit_all
  visit_all-Outcome go [] w each s =
      (record { sound = s; same_stack = refl; grows = λ v m. m }, λ v m k. absurd m)
  visit_all-Outcome go (k ∷ ks) w each s =
      Outcome-bind (λ v. v ≡ k) (λ v. In v ks) (λ v. In v (k ∷ ks)) w (go k w) (visit_all go ks)
        (λ v m. m) (each k w (inl refl) refl s)
        (λ u x.
          visit_all-Outcome go ks u (λ t u' m same s'. each t u' (inr m) (same ∙ x.same_stack) s')
            x.sound)

  room-le :
      (k : K) (stack : List K) (entries : List (K × List K))
      → count_by (λ (entry : K × List K). not (mem entry.0 (k ∷ stack))) entries
        ≤ count_by (λ (entry : K × List K). not (mem entry.0 stack)) entries
  room-le k stack [] = omega arith
  room-le k stack (entry ∷ entries) = ground (arith, room-le k stack entries)

  -- Pushing a key that is not on the stack takes room.
  room-lt :
      (k : K) (stack : List K) (targets : List K) (entries : List (K × List K))
      → lookup k entries ≡ some targets
      → mem k stack ≡ false
      → count_by (λ (entry : K × List K). not (mem entry.0 (k ∷ stack))) entries
        < count_by (λ (entry : K × List K). not (mem entry.0 stack)) entries
  room-lt k stack targets [] h fresh = cc
  room-lt k stack targets ((j, ts) ∷ entries) h fresh = elim (Bool-cases (e.beq k j)) [
    | inl same ↦
        let q : k ≡ j = (e.beq_iff k j).0 same in
        let at_j : e.beq j k ≡ true = (e.beq_iff j k).1 (sym q) in
        let out : mem j stack ≡ false = subst (λ x. mem x stack ≡ false) q fresh in
        ground (arith, room-le k stack entries, at_j, out)
    | inr other ↦ ground (arith, room-lt k stack targets entries, other)
  ]

  push-IsSound :
      (k : K) (w : Walk K (Unit {0}))
      → IsSound w
      → ¬ (In k w.visited)
      → IsSound (record w { visiting = k ∷ w.visiting })
  push-IsSound k w s fresh = record { apart = apart; finished = s.finished }
    where
      apart : (v : K) → In v (k ∷ w.visiting) → ¬ (In v w.visited)
      apart v (inl q) m = fresh (subst (λ x. In x w.visited) q m)
      apart v (inr n) m = s.apart v n m

  abbrev keep_off : K → List K → List K
  keep_off k = keep (λ v. not (e.beq k v))

  keep_off_head : (k : K) (stack : List K) → mem k stack ≡ false → keep_off k (k ∷ stack) ≡ stack
  keep_off_head k stack fresh =
      let here : e.beq k k ≡ true = (e.beq_iff k k).1 refl in
      rw here (keep_none (e.beq k) stack fresh)

  off_top : (k v : K) (stack : List K) → In v (keep_off k stack) → ¬ (v ≡ k)
  off_top k v stack m q =
      let kept = (In-keep (λ y. not (e.beq k y)) v stack m).1 in
      let same : e.beq k v ≡ true = (e.beq_iff k v).1 (sym q) in ground (arith, kept, same)

  listed :
      (k t : K) (targets : List K) → IsEdge edges k t → lookup k edges ≡ some targets → In t targets
  listed k t targets (others, entry', m) entry =
      let same : others ≡ targets = ground arith in subst (λ l. In t l) same m

  -- Taking the node off the stack once its targets are finished.
  finish-Outcome :
      (k : K) (targets : List K) (w : Walk K (Unit {0})) (r : Result (Halt K) (Walk K (Unit {0})))
      → lookup k edges ≡ some targets
      → mem k w.visiting ≡ false
      → IsSound w
      → Outcome (λ v. In v targets) (record w { visiting = k ∷ w.visiting }) r
      → Outcome (λ v. v ≡ k) w (r >>= finish edges refuse accept k)
  unfolding finish accept
  finish-Outcome k targets w (ok u) entry fresh s (x, finished) = (
    record {
      sound = record {
        apart = λ v m n. elim n [
          | inl q ↦ off_top k v u.visiting m q
          | inr n' ↦ x.sound.apart v (In-keep (λ y. not (e.beq k y)) v u.visiting m).0 n'
        ];
        finished = (
          λ t p key. finished t (listed k t targets p entry) key,
          λ n. x.sound.apart k (subst (λ l. In k l) (sym x.same_stack) (inl refl)) n,
          x.sound.finished,
        );
      };
      same_stack =
          subst (λ l. keep_off k l ≡ w.visiting) (sym x.same_stack)
            (keep_off_head k w.visiting fresh);
      grows = λ v m. inr (x.grows v m);
    },
    λ v q key. inl q,
  )
  finish-Outcome k targets w (err (raised c)) entry fresh s o = o
  finish-Outcome k targets w (err out_of_fuel) entry fresh s o = o

  absent_key : {k v : K} {A : Type 0} → v ≡ k → IsKey edges v → lookup k edges ≡ none → A
  absent_key q (targets, entry) absent = ground (arith, q)

  pushed-IsStack :
      (k t : K) (below stack : List K)
      → stack ≡ k ∷ below
      → IsEdge edges k t
      → IsStack edges (k ∷ below)
      → IsStack edges (t ∷ stack)
  pushed-IsStack k t below stack same p s = subst (λ l. IsStack edges (t ∷ l)) (sym same) (p, s)

  -- `visit` on enough fuel has its outcome.
  pub visit-Outcome :
      (fuel : ℕ) (k : K) (w : Walk K (Unit {0}))
      → IsSound w
      → IsStack edges (k ∷ w.visiting)
      → room w.visiting < fuel
      → Outcome (λ v. v ≡ k) w (visit edges refuse accept fuel k w)
  unfolding visit refuse accept
  visit-Outcome zero k w s stack enough = elim enough [ ]
  visit-Outcome (suc fuel) k w s stack enough = elim (Bool-cases (mem k w.visiting)) [
    | inl on_stack ↦
        rw on_stack (stack-Reaches edges k w.visiting k stack (mem→In k w.visiting on_stack))
    | inr fresh ↦ rw fresh (elim (Bool-cases (mem k w.visited)) [
      | inl done ↦ rw done (
        record { sound = s; same_stack = refl; grows = λ v m. m },
        λ v q key. subst (λ y. In y w.visited) (sym q) (mem→In k w.visited done),
      )
      | inr new ↦ rw new (elim (Option-cases (lookup k edges)) [
        | inl absent ↦ rw absent (
          record { sound = s; same_stack = refl; grows = λ v m. m },
          λ v q key. absent_key q key absent,
        )
        | inr (targets, entry) ↦ rw entry (
            finish-Outcome k targets w
              (visit_all (visit edges refuse accept fuel) targets
                (record w { visiting = k ∷ w.visiting }))
              entry fresh s
              (visit_all-Outcome (visit edges refuse accept fuel) targets
                (record w { visiting = k ∷ w.visiting })
                (λ t u m same s'.
                  visit-Outcome fuel t u s'
                    (pushed-IsStack k t w.visiting u.visiting same (targets, entry, m) stack)
                    (subst (λ l. room l < fuel) (sym same)
                      (omega (arith, room-lt k w.visiting targets edges entry fresh))))
                (push-IsSound k w s (λ m. cc (In→mem k w.visited m)))))
      ])
    ])
  ]
