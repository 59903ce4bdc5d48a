-- ===== src/Settlement.antt =====
-- `validate_semantic_reservation_admission` of src/fre/runtime/reducer.py: the check of a batch of
-- events before it is stored. The dictionary `pending` is a function from the reservation to its
-- queue, empty where there is no key: the code treats a missing queue and an empty one alike.
pub mod Pairing
use reasoning_engine.Prelude.{
  ℕ, Bool, true, false, Option, none, some, List, [], ◌∷◌, ◌++◌, not, ◌==◌, if◌then◌else◌, Result,
  ok, err, ◌>>=◌,
}
use reasoning_engine.Budget.Types.{ResourceVector, getattr, any_resource}

-- what the check reads of `record`
pub record SemanticCall : Type 0 where
  pub reservation_id : ℕ
  pub charged_usage : ResourceVector

-- The payloads of the events; the check passes over the others.
pub data Payload : Type 0 where
  budget_reservation_settled : ℕ → ResourceVector → Payload
  budget_reservation_released : ℕ → Payload
  model_call_recorded_v2 model_call_failed_v2 : SemanticCall → Payload
  other_payload : Payload

-- `("SETTLED", actual_usage)` and `("RELEASED", None)`
pub data Evidence : Type 0 where
  settled : ResourceVector → Evidence
  released : Evidence

-- The three texts of the `ValueError`.
pub data AdmissionError : Type 0 where
  evidence_missing release_not_settlement usage_mismatch : AdmissionError

abbrev pub Pending : Type 0
Pending = ℕ → List Evidence

-- the tests of the two passes on the type of a payload
unfoldable pub evidence_of : Payload → Option (ℕ × Evidence)
evidence_of (budget_reservation_settled id actual) = some (id, settled actual)
evidence_of (budget_reservation_released id) = some (id, released)
evidence_of (model_call_recorded_v2 _) = none
evidence_of (model_call_failed_v2 _) = none
evidence_of other_payload = none

unfoldable pub call_of : Payload → Option SemanticCall
call_of (budget_reservation_settled _ _) = none
call_of (budget_reservation_released _) = none
call_of (model_call_recorded_v2 call) = some call
call_of (model_call_failed_v2 call) = some call
call_of other_payload = none

-- `pending.setdefault(reservation_id, deque()).append(item)`
unfoldable pub push_evidence : ℕ → Evidence → Pending → Pending
push_evidence id item pending key = if id == key then pending key ++ item ∷ [] else pending key

-- the first pass
unfoldable pub gather : Pending → List Payload → Pending
gather pending [] = pending
gather pending (payload ∷ payloads) = elim (evidence_of payload) [
  | none ↦ gather pending payloads
  | some (id, item) ↦ gather (push_evidence id item pending) payloads
]

-- equality of two vectors, field by field
unfoldable pub same_usage : ResourceVector → ResourceVector → Bool
same_usage a b = not (any_resource (λ name. not (getattr a name == getattr b name)))

-- `queue.popleft()` and the tests on what it returns
unfoldable pub take_evidence : SemanticCall → Pending → Result AdmissionError Pending
take_evidence call pending = elim (pending call.reservation_id) [
  | [] ↦ err evidence_missing
  | released ∷ queue ↦ err release_not_settlement
  | settled actual ∷ queue ↦
      if same_usage actual call.charged_usage
      then ok (λ key. if call.reservation_id == key then queue else pending key)
      else err usage_mismatch
]

-- the second pass
unfoldable pub match_calls : Pending → List Payload → Result AdmissionError (Unit {0})
match_calls pending [] = ok tt
match_calls pending (payload ∷ payloads) = elim (call_of payload) [
  | none ↦ match_calls pending payloads
  | some call ↦ take_evidence call pending >>= λ rest. match_calls rest payloads
]

unfoldable pub validate_semantic_reservation_admission :
    List Payload → Result AdmissionError (Unit {0})
validate_semantic_reservation_admission payloads = match_calls (gather (λ _. []) payloads) payloads
