-- ===== src/Budget/Meter.antt =====
-- `BudgetMeter` of src/fre/runtime/budget_meter.py, its rate report apart. A method that returns
-- `projection.model_copy(update=...)` returns the record with those fields replaced.
use reasoning_engine.Prelude.{
  ℕ, ◌+◌, ◌-◌, Bool, none, some, List, [], ◌∷◌, ◌++◌, not, any, keep, find, length, ltb, leb, ◌==◌,
  if◌then◌else◌, Result, ok, err, ◌>>=◌, ◌>>◌, raise_if, sort_by,
}
use reasoning_engine.Budget.Types.{
  ResourceVector, getattr, vector, any_resource, no_resources, limit_resources, BudgetPlan,
  BudgetReservation, BudgetProjection, BudgetRemaining, BudgetError, budget_exceeded,
  reservation_conflict, invalid_reservation_settlement, validation_error,
}

-- `_sum`
unfoldable pub add : ResourceVector → ResourceVector → ResourceVector
add left right = vector (λ name. getattr left name + getattr right name)

-- the loop of `_reserved`
unfoldable pub reserved_from : ResourceVector → List BudgetReservation → ResourceVector
reserved_from value [] = value
reserved_from value (r ∷ rs) = reserved_from (add value r.resources) rs

-- `_reserved`
unfoldable pub reserved : {F : Type 0} → BudgetProjection F → ResourceVector
unfolding reserved_from
reserved projection = reserved_from no_resources projection.reservations

-- the order of `sorted(..., key=lambda item: item.reservation_id)`
unfoldable pub by_reservation_id : BudgetReservation → BudgetReservation → Bool
by_reservation_id r s = leb r.reservation_id s.reservation_id

module _ {F : Type 0} (plan : BudgetPlan F) (projection : BudgetProjection F) where
  -- `getattr(allocated, name) - getattr(committed, name) - getattr(reserved, name)`, for each name
  unfoldable pub difference : ResourceVector
  difference = vector (λ name.
      getattr (limit_resources plan.limits) name
      - getattr projection.committed name
      - getattr (reserved projection) name)

  -- one of these is negative
  unfoldable pub overdrawn : Bool
  overdrawn = any_resource (λ name.
      ltb (getattr (limit_resources plan.limits) name)
        (getattr projection.committed name + getattr (reserved projection) name))

-- The first argument stands for `canonical_hash`.
module _ {F : Type 0} (canonical_hash : BudgetProjection F → ℕ) where
  -- `ResourceVector(...)` is refused if a difference is negative.
  unfoldable pub remaining_under :
      BudgetPlan F → BudgetProjection F → Result BudgetError BudgetRemaining
  remaining_under plan projection =
      if overdrawn plan projection
      then err validation_error
      else ok (record {
        resources = difference plan projection;
        active_concurrent_actions = length projection.reservations;
        projection_hash = canonical_hash projection;
      })

  unfoldable pub remaining : BudgetProjection F → Result BudgetError BudgetRemaining
  remaining projection = elim projection.plan [
    | none ↦ err budget_exceeded
    | some plan ↦ remaining_under plan projection
  ]

  unfoldable pub consume :
      BudgetProjection F → ResourceVector → Result BudgetError (BudgetProjection F)
  consume projection usage = do
    left ← remaining projection
    raise_if (any_resource (λ name. ltb (getattr left.resources name) (getattr usage name)))
        budget_exceeded
    ok (record projection {
      committed = add projection.committed usage;
      usage_events = projection.usage_events ++ usage ∷ [];
    })

  -- `projection.plan is None or len(projection.reservations) >= max_concurrent_actions`
  unfoldable pub at_ceiling : BudgetProjection F → Bool
  at_ceiling projection = elim projection.plan [
    | none ↦ Bool.true
    | some plan ↦ leb plan.limits.max_concurrent_actions (length projection.reservations)
  ]

  unfoldable pub reserve :
      BudgetProjection F → BudgetReservation → Result BudgetError (BudgetProjection F)
  reserve projection reservation = do
    raise_if
        (any (λ item. item.reservation_id == reservation.reservation_id) projection.reservations)
        reservation_conflict
    raise_if (any (λ item. item.action_id == reservation.action_id) projection.reservations)
        reservation_conflict
    raise_if (at_ceiling projection) reservation_conflict
    left ← remaining projection
    raise_if
        (any_resource
          (λ name. ltb (getattr left.resources name) (getattr reservation.resources name)))
        reservation_conflict
    ok (record projection {
      reservations = sort_by by_reservation_id (projection.reservations ++ reservation ∷ []);
    })

-- the reservations other than that of the identifier
unfoldable pub without : ℕ → List BudgetReservation → List BudgetReservation
without reservation_id = keep (λ item. not (item.reservation_id == reservation_id))

module _ {F : Type 0} where
  unfoldable pub settle :
      BudgetProjection F → ℕ → ResourceVector → Result BudgetError (BudgetProjection F)
  settle projection reservation_id actual =
      elim (find (λ item. item.reservation_id == reservation_id) projection.reservations) [
        | none ↦ err invalid_reservation_settlement
        | some reservation ↦ do
          raise_if
              (any_resource
                (λ name. ltb (getattr reservation.resources name) (getattr actual name)))
              invalid_reservation_settlement
          ok (record projection {
            reservations = without reservation_id projection.reservations;
            committed = add projection.committed actual;
            usage_events = projection.usage_events ++ actual ∷ [];
          })
      ]

  unfoldable pub release : BudgetProjection F → ℕ → Result BudgetError (BudgetProjection F)
  release projection reservation_id = do
    raise_if (not (any (λ item. item.reservation_id == reservation_id) projection.reservations))
        reservation_conflict
    ok (record projection { reservations = without reservation_id projection.reservations })
