-- ===== src/Budget/Bounds.antt =====
-- Well-formed budget projections, under the operations of src/fre/runtime/budget_meter.py.
use reasoning_engine.Prelude.{
  if◌then◌else◌, Bool-cases, ==→eq, inl, inr, ℕ, ◌+◌, ◌≤◌, ◌≡◌, sym, subst, Bool, true, false, some,
  List, [], ◌∷◌, ◌++◌, not, any, sum_by, count_by, ◌==◌, ok, IsSorted, sort_by, sort_by-IsSorted,
  sum_by-sort_by, sum_by-append, count_by_zero, sum_by-keep-le, sum_by-keep_found, IsSorted-keep,
  arith,
}
use reasoning_engine.Budget.Types.{
  Resource, ResourceVector, getattr, BudgetPlan, BudgetReservation, BudgetProjection,
  empty_projection,
}
use reasoning_engine.Budget.Meter.{
  add, by_reservation_id, consume, reserve, without, settle, release,
}
use reasoning_engine.Budget.Vectors.{getattr-add, held, getattr-no_resources}
use reasoning_engine.Budget.Inversion.{
  Fits, remaining-Splits, consume_inv, reserve_inv, settle_inv, release_inv,
}

pub record IsValid {F : Type 0} (p : BudgetProjection F) : Type 0 where
  -- committed and reserved amounts stay within the limits of the plan in force
  pub fits : (plan : BudgetPlan F) → p.plan ≡ some plan → Fits plan p
  -- what is committed is the sum of the recorded usage
  pub accounted :
      (name : Resource) → getattr p.committed name ≡ sum_by (λ u. getattr u name) p.usage_events
  -- no identifier and no action has two reservations
  pub ids_once : (id : ℕ) → count_by (λ r. r.reservation_id == id) p.reservations ≤ 1
  pub actions_once : (id : ℕ) → count_by (λ r. r.action_id == id) p.reservations ≤ 1
  pub sorted : IsSorted by_reservation_id p.reservations

pub empty_projection-IsValid : {F : Type 0} → IsValid (empty_projection {F = F})
unfolding empty_projection
empty_projection-IsValid = record {
  fits = λ plan e name. cc e;
  accounted = λ name. getattr-no_resources name;
  ids_once = λ id. omega arith;
  actions_once = λ id. omega arith;
  sorted = tt;
}

pub by_reservation_id_total :
    (r s : BudgetReservation) → by_reservation_id r s ≡ false → by_reservation_id s r ≡ true
unfolding by_reservation_id
by_reservation_id_total r s h = ground arith

pub by_reservation_id_trans :
    (r s t : BudgetReservation)
    → by_reservation_id r s ≡ true
    → by_reservation_id s t ≡ true
    → by_reservation_id r t ≡ true
unfolding by_reservation_id
by_reservation_id_trans r s t h k = ground arith

-- Usage that is recorded is added to what is committed.
accounted_add :
    (committed usage : ResourceVector) (events : List ResourceVector) (name : Resource)
    → getattr committed name ≡ sum_by (λ u. getattr u name) events
    → getattr (add committed usage) name ≡ sum_by (λ u. getattr u name) (events ++ usage ∷ [])
accounted_add committed usage events name h = omega (
  arith,
  getattr-add committed usage name,
  sum_by-append (λ u. getattr u name) events (usage ∷ []),
)

-- One more reservation of an identifier that has none.
count_by_added :
    (key : BudgetReservation → ℕ) (rs : List BudgetReservation) (r : BudgetReservation)
    → any (λ item. key item == key r) rs ≡ false
    → ((id : ℕ) → count_by (λ s. key s == id) rs ≤ 1)
    → (id : ℕ) → count_by (λ s. key s == id) (sort_by by_reservation_id (rs ++ r ∷ [])) ≤ 1
count_by_added key rs r fresh once id =
    let total : count_by (λ s. key s == id) (sort_by by_reservation_id (rs ++ r ∷ []))
        ≡ count_by (λ s. key s == id) rs + count_by (λ s. key s == id) (r ∷ []) =
      omega (
        arith,
        sum_by-sort_by by_reservation_id (λ s. if key s == id then 1 else 0) (rs ++ r ∷ []),
        sum_by-append (λ s. if key s == id then 1 else 0) rs (r ∷ []),
      ) in
    elim (Bool-cases (key r == id)) [
      | inl e ↦
          let none : count_by (λ s. key s == id) rs ≡ 0 =
            count_by_zero (λ s. key s == id) rs (rw (← ==→eq (key r) id e) fresh) in
          ground (arith, total, none)
      | inr e ↦ ground (arith, total, once id)
    ]

held_added :
    (rs : List BudgetReservation) (r : BudgetReservation) (name : Resource)
    → held name (sort_by by_reservation_id (rs ++ r ∷ [])) ≡ held name rs + getattr r.resources name
held_added rs r name = omega (
  arith,
  sum_by-sort_by by_reservation_id (λ s. getattr s.resources name) (rs ++ r ∷ []),
  sum_by-append (λ s. getattr s.resources name) rs (r ∷ []),
)

module _ {F : Type 0} (hash : BudgetProjection F → ℕ) (p q : BudgetProjection F)
    (v : IsValid p) where
  -- If the projection is valid and a consumption of it succeeds, the new projection is valid.
  pub consume-IsValid : (usage : ResourceVector) → consume hash p usage ≡ ok q → IsValid q
  consume-IsValid usage h =
      let (left, e, covers, same) = consume_inv hash p q usage h in
      subst IsValid (sym same) (record {
        fits = λ plan e' name. omega (
          arith,
          remaining-Splits hash plan p left e' e name,
          covers name,
          getattr-add p.committed usage name,
        );
        accounted = λ name. accounted_add p.committed usage p.usage_events name (v.accounted name);
        ids_once = v.ids_once;
        actions_once = v.actions_once;
        sorted = v.sorted;
      })

  -- If the projection is valid and a reservation in it succeeds, the new projection is valid.
  pub reserve-IsValid : (r : BudgetReservation) → reserve hash p r ≡ ok q → IsValid q
  reserve-IsValid r h =
      let (left, ids, actions, ceiling, e, covers, same) = reserve_inv hash p q r h in
      subst IsValid (sym same) (record {
        fits = λ plan e' name. omega (
          arith,
          remaining-Splits hash plan p left e' e name,
          covers name,
          held_added p.reservations r name,
        );
        accounted = v.accounted;
        ids_once = count_by_added (λ s. s.reservation_id) p.reservations r ids v.ids_once;
        actions_once = count_by_added (λ s. s.action_id) p.reservations r actions v.actions_once;
        sorted =
            sort_by-IsSorted by_reservation_id by_reservation_id_total by_reservation_id_trans
              (p.reservations ++ r ∷ []);
      })

module _ {F : Type 0} (p q : BudgetProjection F) (v : IsValid p) (id : ℕ) where
  abbrev others : BudgetReservation → Bool
  others item = not (item.reservation_id == id)

  -- If the projection is valid and settling one of its reservations succeeds, the new projection is
  -- valid.
  pub settle-IsValid : (actual : ResourceVector) → settle p id actual ≡ ok q → IsValid q
  unfolding without
  settle-IsValid actual h =
      let (r, found, covers, same) = settle_inv p q id actual h in
      subst IsValid (sym same) (record {
        fits = λ plan e name. omega (
          arith,
          v.fits plan e name,
          covers name,
          getattr-add p.committed actual name,
          sum_by-keep_found (λ s. getattr s.resources name) (λ s. s.reservation_id == id) r
              p.reservations found,
        );
        accounted = λ name. accounted_add p.committed actual p.usage_events name (v.accounted name);
        ids_once = λ i. omega (
          arith,
          v.ids_once i,
          sum_by-keep-le (λ s. if s.reservation_id == i then 1 else 0) others p.reservations,
        );
        actions_once = λ i. omega (
          arith,
          v.actions_once i,
          sum_by-keep-le (λ s. if s.action_id == i then 1 else 0) others p.reservations,
        );
        sorted = IsSorted-keep by_reservation_id others p.reservations v.sorted;
      })

  -- If the projection is valid and releasing one of its reservations succeeds, the new projection is
  -- valid.
  pub release-IsValid : release p id ≡ ok q → IsValid q
  unfolding without
  release-IsValid h =
      let (known, same) = release_inv p q id h in
      subst IsValid (sym same) (record {
        fits = λ plan e name. omega (
          arith,
          v.fits plan e name,
          sum_by-keep-le (λ s. getattr s.resources name) others p.reservations,
        );
        accounted = v.accounted;
        ids_once = λ i. omega (
          arith,
          v.ids_once i,
          sum_by-keep-le (λ s. if s.reservation_id == i then 1 else 0) others p.reservations,
        );
        actions_once = λ i. omega (
          arith,
          v.actions_once i,
          sum_by-keep-le (λ s. if s.action_id == i then 1 else 0) others p.reservations,
        );
        sorted = IsSorted-keep by_reservation_id others p.reservations v.sorted;
      })
