-- ===== src/Tests/Budget.antt =====
-- The budget meter of src/fre/runtime/budget_meter.py on a small plan.
use reasoning_engine.Prelude.{
  ℕ, ◌+◌, ◌*◌, ◌-◌, ◌≤◌, ◌≡◌, refl, some, List, [], ◌∷◌, ◌++◌, min, length, drop, ok, err, sort_by,
  arith,
}
use reasoning_engine.Budget.Types.{
  t2, tier_order, Resource, ResourceVector, getattr, vector, any_resource, no_resources,
  limit_resources, BudgetPlan, BudgetReservation, BudgetProjection, BudgetRemaining,
  reservation_conflict,
}
use reasoning_engine.Budget.Meter.{
  add, reserved_from, reserved, difference, overdrawn, remaining_under, remaining, consume,
  at_ceiling, reserve, without, settle, release,
}
use reasoning_engine.Budget.Allocator.{limits_row, search_row, revise}
use reasoning_engine.Budget.Vectors.{getattr-no_resources}
use reasoning_engine.Budget.Inversion.{Covers}
use reasoning_engine.Budget.Bounds.{
  IsValid, consume-IsValid, reserve-IsValid, settle-IsValid, release-IsValid,
}
use reasoning_engine.Budget.Trips.{release-reserve, settle_frees}
use reasoning_engine.Budget.Plans.{revise-IsValid}
use reasoning_engine.Budget.Burn.{current_events, previous_events}
use reasoning_engine.Budget.Windows.{windows_split}

abbrev pub hash : BudgetProjection ℕ → ℕ
hash p = 7

abbrev pub plan : BudgetPlan ℕ
plan = record {
  tier = t2;
  limits = limits_row 4 6 1 65536 16384 4 2 300;
  search = search_row 4 2 1 1 2 0 16;
  acquisition_threshold = 75;
  stop_threshold = 0;
  policy_version = "test/1.0";
}

abbrev pub amount : ℕ → ℕ → ResourceVector
amount calls tokens = record {
  iterations = 1;
  llm_calls = calls;
  tool_calls = 0;
  input_tokens = tokens;
  output_tokens = tokens;
  candidates = 0;
  runtime_seconds = 10;
}

abbrev planned : BudgetProjection ℕ
planned = record {
  plan = some plan;
  policy_hash = some 3;
  committed = no_resources;
  reservations = [];
  usage_events = [];
}

abbrev booking : BudgetReservation
booking = record { reservation_id = 5; action_id = 9; resources = amount 2 1000 }

abbrev held : BudgetProjection ℕ
held = record planned { reservations = booking ∷ [] }

abbrev used : BudgetProjection ℕ
used = record planned { committed = amount 1 800; usage_events = amount 1 800 ∷ [] }

abbrev larger : BudgetPlan ℕ
larger = record plan { limits = limits_row 10 24 5 262144 65536 10 4 1200 }

planned-IsValid : IsValid planned
planned-IsValid = record {
  fits = λ plan e name. ground (arith, getattr-no_resources name);
  accounted = λ name. getattr-no_resources name;
  ids_once = λ id. omega arith;
  actions_once = λ id. omega arith;
  sorted = tt;
}

reserved_run : reserve hash planned booking ≡ ok held
unfolding reserve at_ceiling remaining remaining_under overdrawn any_resource getattr
    limit_resources vector reserved no_resources difference sort_by
reserved_run = refl

used_run : consume hash planned (amount 1 800) ≡ ok used
unfolding consume add remaining remaining_under overdrawn any_resource getattr limit_resources
    vector reserved no_resources difference
used_run = refl

held-IsValid : IsValid held
held-IsValid = reserve-IsValid hash planned held planned-IsValid booking reserved_run

-- A second reservation for the same action is a conflict.
second_run :
    reserve hash held (record { reservation_id = 6; action_id = 9; resources = amount 1 1 })
    ≡ err reservation_conflict
unfolding reserve
second_run = refl

settled_run : settle held 5 (amount 1 800) ≡ ok used
unfolding settle add without any_resource getattr vector no_resources
settled_run = refl

released_run : release held 5 ≡ ok planned
unfolding release without
released_run = refl

revised_run : revise held larger 4 ≡ ok (record held { plan = some larger; policy_hash = some 4 })
unfolding revise any_resource getattr limit_resources vector reserved reserved_from no_resources add
revised_run = refl

reserve-IsValid_example : IsValid held
reserve-IsValid_example = reserve-IsValid hash planned held planned-IsValid booking reserved_run

consume-IsValid_example : IsValid used
consume-IsValid_example = consume-IsValid hash planned used planned-IsValid (amount 1 800) used_run

settle-IsValid_example : IsValid used
settle-IsValid_example = settle-IsValid held used held-IsValid 5 (amount 1 800) settled_run

release-IsValid_example : IsValid planned
release-IsValid_example = release-IsValid held planned held-IsValid 5 released_run

revise-IsValid_example :
    (current : BudgetPlan ℕ) × (held.plan ≡ some current)
    × ((record held { plan = some larger; policy_hash = some 4 }).plan ≡ some larger)
    × IsValid (record held { plan = some larger; policy_hash = some 4 })
    × (tier_order current.tier ≤ tier_order larger.tier)
    × (current.search.independent_validation_branches
        ≤ larger.search.independent_validation_branches)
revise-IsValid_example =
    revise-IsValid held (record held { plan = some larger; policy_hash = some 4 }) larger 4
      held-IsValid revised_run

release-reserve_example : release held 5 ≡ ok planned
release-reserve_example = release-reserve hash planned held booking planned-IsValid reserved_run

booking-Covers : Covers (amount 2 1000) (amount 1 800)
unfolding getattr
booking-Covers Resource.iterations = omega arith
booking-Covers Resource.llm_calls = omega arith
booking-Covers Resource.tool_calls = omega arith
booking-Covers Resource.input_tokens = omega arith
booking-Covers Resource.output_tokens = omega arith
booking-Covers Resource.candidates = omega arith
booking-Covers Resource.runtime_seconds = omega arith

abbrev held_left : BudgetRemaining
held_left = record {
  resources = record {
    iterations = 3;
    llm_calls = 4;
    tool_calls = 1;
    input_tokens = 64536;
    output_tokens = 15384;
    candidates = 4;
    runtime_seconds = 290;
  };
  active_concurrent_actions = 1;
  projection_hash = 7;
}

held_left_run : remaining hash held ≡ ok held_left
unfolding remaining remaining_under overdrawn any_resource getattr limit_resources vector reserved
    reserved_from no_resources difference add
held_left_run = refl

settle_frees_example :
    (left' : BudgetRemaining) × (remaining hash used ≡ ok left')
    × ((name : Resource)
        → getattr left'.resources name + getattr (amount 1 800) name
          ≡ getattr held_left.resources name + getattr booking.resources name)
settle_frees_example =
    settle_frees hash held used 5 booking (amount 1 800) held_left held-IsValid refl held_left_run
      settled_run

abbrev events : List ResourceVector
events = amount 1 1 ∷ amount 2 2 ∷ amount 3 3 ∷ amount 4 4 ∷ amount 5 5 ∷ []

windows_split_example :
    (previous_events 2 events ++ current_events 2 events ≡ drop (length events - 2 * 2) events)
    × (length (current_events 2 events) ≡ min 2 (length events))
windows_split_example = windows_split 2 events (omega arith)
