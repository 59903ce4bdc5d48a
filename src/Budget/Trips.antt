-- ===== src/Budget/Trips.antt =====
-- Sequences of calls on one reservation of src/fre/runtime/budget_meter.py.
use reasoning_engine.Prelude.{
  ℕ, ◌+◌, ◌≡◌, refl, sym, subst, Bool, true, false, some, List, [], ◌∷◌, ◌++◌, not, any, find, keep,
  ==-refl, All, In→any_true, ◌==◌, ok, sort_by, keep-sort_by_added, sum_by-keep_once, In-of_sort_by,
  In-append_right, inl, arith,
}
use reasoning_engine.Budget.Types.{
  Resource, ResourceVector, getattr, BudgetReservation, BudgetProjection, BudgetRemaining,
}
use reasoning_engine.Budget.Meter.{
  add, by_reservation_id, remaining, reserve, without, settle, release,
}
use reasoning_engine.Budget.Vectors.{getattr-add}
use reasoning_engine.Budget.Inversion.{
  Covers, any_of_Covers, remaining_inv, remaining_of_Fits, reserve_inv, settle_inv,
}
use reasoning_engine.Budget.Bounds.{
  IsValid, settle-IsValid, by_reservation_id_total, by_reservation_id_trans,
}

not_any→All :
    (test : BudgetReservation → Bool) (rs : List BudgetReservation)
    → any test rs ≡ false
    → All (λ s. not (test s) ≡ true) rs
not_any→All test [] h = tt
not_any→All test (s ∷ rs) h = (ground arith, not_any→All test rs (ground arith))

-- In a valid projection, releasing a reservation that was just made succeeds and gives the projection
-- before it back.
pub release-reserve :
    {F : Type 0} (hash : BudgetProjection F → ℕ) (p q : BudgetProjection F) (r : BudgetReservation)
    → IsValid p
    → reserve hash p r ≡ ok q
    → release q r.reservation_id ≡ ok p
unfolding release without
release-reserve hash p q r v h =
    let (left, fresh, actions, ceiling, e, covers, same) = reserve_inv hash p q r h in
    let id = r.reservation_id in
    let back : keep (λ s. not (s.reservation_id == id))
          (sort_by by_reservation_id (p.reservations ++ r ∷ []))
        ≡ p.reservations =
      keep-sort_by_added by_reservation_id by_reservation_id_total by_reservation_id_trans
        (λ s. not (s.reservation_id == id)) r p.reservations v.sorted
        (not_any→All (λ s. s.reservation_id == id) p.reservations fresh) (ground arith) in
    let known : any (λ s. s.reservation_id == id)
          (sort_by by_reservation_id (p.reservations ++ r ∷ []))
        ≡ true =
      In→any_true (λ s. s.reservation_id == id) r
        (sort_by by_reservation_id (p.reservations ++ r ∷ []))
        (In-of_sort_by by_reservation_id r (p.reservations ++ r ∷ [])
          (In-append_right r p.reservations (r ∷ []) (inl refl)))
        (==-refl r.reservation_id) in
    subst (λ x. release x id ≡ ok p) (sym same) (ground (arith, back, known))

-- A reservation in force can be settled by any usage that it covers, resource by resource.
pub settle_covered :
    {F : Type 0} (p : BudgetProjection F) (id : ℕ) (r : BudgetReservation) (actual : ResourceVector)
    → find (λ s. s.reservation_id == id) p.reservations ≡ some r
    → Covers r.resources actual
    → (q : BudgetProjection F) × (settle p id actual ≡ ok q)
unfolding settle
settle_covered p id r actual found covers =
    let fine = any_of_Covers r.resources actual covers in
    (
      record p {
        reservations = without id p.reservations;
        committed = add p.committed actual;
        usage_events = p.usage_events ++ actual ∷ [];
      },
      ground (arith, fine),
    )

-- When a reservation of a valid projection, in which what is left is defined, is settled, it is defined
-- afterwards too, and
-- with the actual usage it makes up, resource by resource, what was left before and what was reserved:
-- the part of the reservation that was not used is free again.
pub settle_frees :
    {F : Type 0} (hash : BudgetProjection F → ℕ) (p q : BudgetProjection F) (id : ℕ)
    (r : BudgetReservation) (actual : ResourceVector) (left : BudgetRemaining)
    → IsValid p
    → find (λ s. s.reservation_id == id) p.reservations ≡ some r
    → remaining hash p ≡ ok left
    → settle p id actual ≡ ok q
    → (left' : BudgetRemaining) × (remaining hash q ≡ ok left')
      × ((name : Resource)
          → getattr left'.resources name + getattr actual name
            ≡ getattr left.resources name + getattr r.resources name)
unfolding without
settle_frees {F} hash p q id r actual left v found e h =
    let (plan, has_plan, fits, splits) = remaining_inv hash p left e in
    let (r', found', covers, same) = settle_inv p q id actual h in
    let valid = subst IsValid same (settle-IsValid p q v id actual h) in
    let after : BudgetProjection F = record p {
      reservations = without id p.reservations;
      committed = add p.committed actual;
      usage_events = p.usage_events ++ actual ∷ [];
    } in
    let (left', e', splits') =
      remaining_of_Fits hash plan after has_plan (valid.fits plan has_plan) in
    (
      left',
      subst (λ x. remaining hash x ≡ ok left') (sym same) e',
      λ name. omega (
        arith,
        splits name,
        splits' name,
        getattr-add p.committed actual name,
        sum_by-keep_once (λ s. getattr s.resources name) (λ s. s.reservation_id == id) r
            p.reservations found (v.ids_once id),
      ),
    )
