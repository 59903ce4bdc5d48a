-- ===== src/Budget/Vectors.antt =====
-- Vectors of resources of src/fre/domain/budget.py, one resource at a time.
use reasoning_engine.Prelude.{ℕ, ◌+◌, ◌≡◌, refl, Bool, false, List, [], ◌∷◌, sum_by, arith}
use reasoning_engine.Budget.Types.{
  Resource, ResourceVector, getattr, vector, any_resource, no_resources, BudgetReservation,
  BudgetProjection,
}
use reasoning_engine.Budget.Meter.{add, reserved_from, reserved}

pub getattr-vector : (f : Resource → ℕ) (name : Resource) → getattr (vector f) name ≡ f name
unfolding getattr vector
getattr-vector f Resource.iterations = refl
getattr-vector f _ = refl

pub vector_ext :
    (v w : ResourceVector) → ((name : Resource) → getattr v name ≡ getattr w name) → v ≡ w
unfolding getattr
vector_ext v w h = ground (
  arith,
  h Resource.iterations,
  h Resource.llm_calls,
  h Resource.tool_calls,
  h Resource.input_tokens,
  h Resource.output_tokens,
  h Resource.candidates,
  h Resource.runtime_seconds,
)

-- A test that passes for no resource.
pub any_resource-false :
    (test : Resource → Bool) → any_resource test ≡ false → (name : Resource) → test name ≡ false
unfolding any_resource
any_resource-false test h Resource.iterations = ground arith
any_resource-false test h _ = ground arith

pub any_resource_intro :
    (test : Resource → Bool) → ((name : Resource) → test name ≡ false) → any_resource test ≡ false
unfolding any_resource
any_resource_intro test h = ground (
  arith,
  h Resource.iterations,
  h Resource.llm_calls,
  h Resource.tool_calls,
  h Resource.input_tokens,
  h Resource.output_tokens,
  h Resource.candidates,
  h Resource.runtime_seconds,
)

pub getattr-add :
    (left right : ResourceVector) (name : Resource)
    → getattr (add left right) name ≡ getattr left name + getattr right name
unfolding add
getattr-add left right name = getattr-vector _ name

-- what the reservations hold of a resource
abbrev pub held : Resource → List BudgetReservation → ℕ
held name = sum_by (λ r. getattr r.resources name)

pub getattr-no_resources : (name : Resource) → getattr no_resources name ≡ 0
unfolding no_resources
getattr-no_resources name = getattr-vector (λ _. 0) name

getattr-reserved_from :
    (value : ResourceVector) (rs : List BudgetReservation) (name : Resource)
    → getattr (reserved_from value rs) name ≡ getattr value name + held name rs
unfolding reserved_from
getattr-reserved_from value [] name = omega arith
getattr-reserved_from value (r ∷ rs) name = omega (
  arith,
  getattr-reserved_from (add value r.resources) rs name,
  getattr-add value r.resources name,
)

pub getattr-reserved :
    {F : Type 0} (projection : BudgetProjection F) (name : Resource)
    → getattr (reserved projection) name ≡ held name projection.reservations
unfolding reserved
getattr-reserved projection name = omega (
  arith,
  getattr-reserved_from no_resources projection.reservations name,
  getattr-no_resources name,
)
