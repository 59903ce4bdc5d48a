-- ===== src/Semantic/Steps.antt =====
-- What the reducer of src/fre/runtime/reducer.py finds at the record of a model call: the artifacts that
-- are registered and the settlement that is noted before it.
use reasoning_engine.Prelude.{
  ℕ, ◌≡◌, refl, ap, Bool, true, false, Option, none, some, List, [], ◌∷◌, ◌++◌, mem, nat_eq, In→mem,
  In-append_left, In-append_right, ◌==◌, ==-refl, if◌then◌else◌, Bool-cases, Option-cases, inl, inr,
  Result, ok, ◌>>◌, arith,
}
use reasoning_engine.Budget.Types.{ResourceVector, BudgetProjection}
use reasoning_engine.Settlement.{SemanticCall}
use reasoning_engine.Reducer.{
  RunState, RunReducer, note_call, note_settlement, use_settlement, settle_call, apply_payload,
  guarded,
}
use reasoning_engine.Reducer.{
  model_call_recorded_v2 as run_recorded, model_call_failed_v2 as run_failed,
}
use reasoning_engine.Semantic.{
  CallPayload, CallIdentity, CallRecord, StructuredModelResult, is_success, proposal_of,
  registrations,
}
use reasoning_engine.Semantic.Guards.{
  is_recorded, validate_common, validate_success, validate_failure, validate_proposal,
}
use reasoning_engine.Semantic.Charge.{same_usage_refl}
use reasoning_engine.Semantic.Batch.{to_run, apply_payloads}

-- the artifacts of the state once the response, and the proposal where there is one, are registered
abbrev with_artifacts : List ℕ → ℕ → Option ℕ → List ℕ
with_artifacts artifacts raw none = artifacts ++ raw ∷ []
with_artifacts artifacts raw (some digest) = (artifacts ++ raw ∷ []) ++ digest ∷ []

mem-last : (a : ℕ) (xs : List ℕ) → mem a (xs ++ a ∷ []) ≡ true
mem-last a xs = In→mem a (xs ++ a ∷ []) (In-append_right a xs (a ∷ []) (inl refl))

mem-last_but : (a b : ℕ) (xs : List ℕ) → mem a ((xs ++ a ∷ []) ++ b ∷ []) ≡ true
mem-last_but a b xs =
    In→mem a ((xs ++ a ∷ []) ++ b ∷ [])
      (In-append_left a (xs ++ a ∷ []) (b ∷ []) (In-append_right a xs (a ∷ []) (inl refl)))

-- A new identity whose artifacts are registered passes the shared guards of a failed call,
pub failed_common :
    (calls : List CallIdentity) (artifacts : List ℕ) (key raw : ℕ) (proposal : Option ℕ)
    → is_recorded key calls ≡ false
    → validate_common false calls
        (with_artifacts artifacts raw proposal)
        (record { idempotency_key = key; raw_artifact = some raw; proposal_artifact = proposal })
      ≡ ok tt
unfolding validate_common
failed_common calls artifacts key raw none new = rw new (rw (mem-last raw artifacts) refl)
failed_common calls artifacts key raw (some digest) new =
    rw new
      (rw (mem-last_but raw digest artifacts) (rw (mem-last digest (artifacts ++ raw ∷ [])) refl))

-- and with a proposal those of a recorded one.
pub recorded_common :
    (calls : List CallIdentity) (artifacts : List ℕ) (key raw digest : ℕ)
    → is_recorded key calls ≡ false
    → validate_common true calls
        (with_artifacts artifacts raw (some digest))
        (record { idempotency_key = key; raw_artifact = some raw; proposal_artifact = some digest })
      ≡ ok tt
unfolding validate_common
recorded_common calls artifacts key raw digest new =
    rw new
      (rw (mem-last_but raw digest artifacts) (rw (mem-last digest (artifacts ++ raw ∷ [])) refl))

-- the proposal that a record names validates
proved :
    (validates : CallRecord → Bool) (r : CallRecord)
    → (is_success r.status ≡ true → validates r ≡ true)
    → validate_proposal validates r ≡ ok tt
unfolding validate_proposal
proved validates r h = elim (Bool-cases (is_success r.status)) [
  | inl e ↦
      let valid = h e in
      rw (valid, validate_proposal)
        (rw e (elim (Option-cases r.identity.proposal_artifact) [
          | inl p ↦ rw p refl
          | inr (digest, p) ↦ rw p refl
        ]))
  | inr e ↦ rw e refl
]

-- A record that was added is found.
pub recorded-last :
    (identity : CallIdentity) (calls : List CallIdentity)
    → is_recorded identity.idempotency_key (calls ++ identity ∷ []) ≡ true
unfolding is_recorded
recorded-last identity [] = rw (==-refl identity.idempotency_key) refl
recorded-last identity (call ∷ calls) = ground (arith, recorded-last identity calls)

module _ {F : Type 0} where
  -- the state once the settlement of a call is used up
  abbrev pub used_up : RunState F → ℕ → RunState F
  used_up state id = record state {
    pending_semantic_settlements =
        λ key. if id == key then none else state.pending_semantic_settlements key;
  }

  use_settlement-noted :
      (state : RunState F) (call : SemanticCall)
      → state.pending_semantic_settlements call.reservation_id ≡ some call.charged_usage
      → use_settlement state call ≡ ok (used_up state call.reservation_id)
  unfolding use_settlement
  use_settlement-noted state call h =
      rw (h, use_settlement) (rw (same_usage_refl call.charged_usage) refl)

  -- the state after the settlement of the call, with its budget
  abbrev pub settled_state : RunState F → ℕ → ResourceVector → BudgetProjection F → RunState F
  settled_state state id usage budget = record (note_settlement id usage state) { budget = budget }

  use_settlement-settled :
      (state : RunState F) (id : ℕ) (usage : ResourceVector) (budget : BudgetProjection F)
      → use_settlement
          (settled_state state id usage budget)
          (record { reservation_id = id; charged_usage = usage })
        ≡ ok (used_up (settled_state state id usage budget) id)
  unfolding note_settlement
  use_settlement-settled state id usage budget =
      use_settlement-noted (settled_state state id usage budget)
        (record { reservation_id = id; charged_usage = usage })
        (ap (λ b. if b then some usage else state.pending_semantic_settlements id) (==-refl id))

  abbrev pub registered : RunState F → ℕ → Option ℕ → RunState F
  registered state raw proposal = record state {
    artifacts = with_artifacts state.artifacts raw proposal;
  }

module _ {F : Type 0} (reducer : RunReducer F) where
  pub settle_call-settled :
      (state : RunState F) (r : CallRecord) (budget : BudgetProjection F)
      → (is_success r.status ≡ true → reducer.proposal_validates r ≡ true)
      → settle_call reducer (settled_state state r.reservation_id r.charged_usage budget) r
        ≡ ok (
            note_call r.identity (
              used_up
                (settled_state state r.reservation_id r.charged_usage budget)
                r.reservation_id))
  unfolding settle_call
  settle_call-settled state r budget valid =
      let uses = use_settlement-settled state r.reservation_id r.charged_usage budget in
      let valid' = proved reducer.proposal_validates r valid in rw uses (rw valid' refl)

  pub recorded_step :
      (s : RunState F) (r : CallRecord)
      → validate_common true s.model_calls s.artifacts r.identity ≡ ok tt
      → apply_payload reducer s (run_recorded r)
        ≡ (guarded (validate_success r) >> settle_call reducer s r)
  unfolding apply_payload
  recorded_step s r common = rw common refl

  pub failed_step :
      (s : RunState F) (r : CallRecord)
      → validate_common false s.model_calls s.artifacts r.identity ≡ ok tt
      → apply_payload reducer s (run_failed r)
        ≡ (guarded (validate_failure r) >> settle_call reducer s r)
  unfolding apply_payload
  failed_step s r common = rw common refl

module _ {F J : Type 0} (reducer : RunReducer F) (model_validate_json : J → Result (List ℕ) ℕ) where
  pub registrations-applied :
      (state : RunState F) (result : StructuredModelResult J) (rest : List CallPayload)
      → apply_payloads reducer state (registrations model_validate_json result ++ rest)
        ≡ apply_payloads reducer
            (registered state result.raw_response (proposal_of model_validate_json result))
            rest
  unfolding registrations apply_payloads to_run apply_payload
  registrations-applied state result rest =
      elim (Option-cases (proposal_of model_validate_json result)) [
        | inl p ↦ rw p refl
        | inr (digest, p) ↦ rw p refl
      ]
