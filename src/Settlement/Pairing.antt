-- ===== src/Settlement/Pairing.antt =====
-- The charges and the evidence of a batch, and the two passes of
-- `validate_semantic_reservation_admission` of src/fre/runtime/reducer.py.
use mathlib.Core.Logic.{◌↔◌}
use mathlib.Core.List.{append-nil}
use reasoning_engine.Prelude.{
  append-cons, ℕ, ◌≡◌, refl, sym, subst, ◌∙◌, Bool, true, false, none, some, List, [], ◌∷◌, ◌++◌,
  ◌&&◌, ◌==◌, if◌then◌else◌, ok, ◌>>=◌, >>=-eq-ok, ==→eq, ==-refl, Bool-cases, inl, inr, arith,
}
use reasoning_engine.Budget.Types.{ResourceVector}
use reasoning_engine.Settlement.{
  SemanticCall, Payload, budget_reservation_settled, budget_reservation_released,
  model_call_recorded_v2, model_call_failed_v2, other_payload, Evidence, settled, released, Pending,
  evidence_of, call_of, push_evidence, gather, same_usage, take_evidence, match_calls,
  validate_semantic_reservation_admission,
}

-- The evidence that a batch has on a reservation, in the order of the batch.
abbrev pub evidence_on : ℕ → List Payload → List Evidence
evidence_on id [] = []
evidence_on id (payload ∷ payloads) = elim (evidence_of payload) [
  | none ↦ evidence_on id payloads
  | some (key, item) ↦ if key == id then item ∷ evidence_on id payloads else evidence_on id payloads
]

-- The usages that the calls of a batch charge to a reservation, in the order of the batch.
abbrev pub charges_on : ℕ → List Payload → List ResourceVector
charges_on id [] = []
charges_on id (payload ∷ payloads) = elim (call_of payload) [
  | none ↦ charges_on id payloads
  | some call ↦
      if call.reservation_id == id
      then call.charged_usage ∷ charges_on id payloads
      else charges_on id payloads
]

-- The n-th charge has the n-th piece of evidence, a settlement of the same usage.
abbrev pub is_paired : List ResourceVector → List Evidence → Bool
is_paired [] items = true
is_paired (charge ∷ charges) [] = false
is_paired (charge ∷ charges) (released ∷ items) = false
is_paired (charge ∷ charges) (settled actual ∷ items) =
    same_usage actual charge && is_paired charges items

push_evidence_lem :
    (key : ℕ) (item : Evidence) (pending : Pending) (id : ℕ) (items : List Evidence)
    → push_evidence key item pending id ++ items
      ≡ pending id ++ (if key == id then item ∷ items else items)
unfolding push_evidence
push_evidence_lem key item pending id items = elim (Bool-cases (key == id)) [
  | inl e ↦ rw e (append-cons (pending id) items item)
  | inr e ↦ rw e
]

gather_lem :
    (payloads : List Payload) (pending : Pending) (id : ℕ)
    → gather pending payloads id ≡ pending id ++ evidence_on id payloads
unfolding gather evidence_of
gather_lem [] pending id = sym (append-nil (pending id))
gather_lem (budget_reservation_settled key actual ∷ payloads) pending id =
    gather_lem payloads (push_evidence key (settled actual) pending) id
    ∙ push_evidence_lem key (settled actual) pending id (evidence_on id payloads)
gather_lem (budget_reservation_released key ∷ payloads) pending id =
    gather_lem payloads (push_evidence key released pending) id
    ∙ push_evidence_lem key released pending id (evidence_on id payloads)
gather_lem (model_call_recorded_v2 _ ∷ payloads) pending id = gather_lem payloads pending id
gather_lem (model_call_failed_v2 _ ∷ payloads) pending id = gather_lem payloads pending id
gather_lem (other_payload ∷ payloads) pending id = gather_lem payloads pending id

take_evidence_inv :
    (call : SemanticCall) (pending rest : Pending)
    → take_evidence call pending ≡ ok rest
    → (actual : ResourceVector) × (queue : List Evidence) × (pending call.reservation_id
        ≡ settled actual ∷ queue)
      × (same_usage actual call.charged_usage ≡ true)
      × (rest ≡ λ key. if call.reservation_id == key then queue else pending key)
unfolding take_evidence
take_evidence_inv call pending rest h = from_queue (pending call.reservation_id) refl
  where
    from_queue :
        (o : List Evidence)
        → pending call.reservation_id ≡ o
        → (actual : ResourceVector) × (queue : List Evidence) × (pending call.reservation_id
            ≡ settled actual ∷ queue)
          × (same_usage actual call.charged_usage ≡ true)
          × (rest ≡ λ key. if call.reservation_id == key then queue else pending key)
    from_queue [] e = absurd (ground (arith, e, h))
    from_queue (released ∷ queue) e = absurd (ground (arith, e, h))
    from_queue (settled actual ∷ queue) e = (actual, queue, e, ground arith, ground arith)

-- What one call needs of the queues, and what it leaves to the calls after it.
call_paired :
    (call : SemanticCall) (payloads : List Payload) (pending : Pending)
    → ((rest : Pending)
        → match_calls rest payloads ≡ ok tt
        → (id : ℕ) → is_paired (charges_on id payloads) (rest id) ≡ true)
    → (take_evidence call pending >>= λ rest. match_calls rest payloads) ≡ ok tt
    → (id : ℕ)
    → is_paired
        (if call.reservation_id == id
          then call.charged_usage ∷ charges_on id payloads
          else charges_on id payloads)
        (pending id)
      ≡ true
call_paired call payloads pending later h id =
    let (rest, taken, h') =
      >>=-eq-ok (take_evidence call pending) (λ rest. match_calls rest payloads) h in
    let (actual, queue, q, same, r) = take_evidence_inv call pending rest taken in
    let next : is_paired (charges_on id payloads)
          (if call.reservation_id == id then queue else pending id)
        ≡ true =
      subst (λ (x : Pending). is_paired (charges_on id payloads) (x id) ≡ true) r
        (later rest h' id) in
    elim (Bool-cases (call.reservation_id == id)) [
      | inl e ↦
          let found : pending id ≡ settled actual ∷ queue =
            subst (λ x. pending x ≡ settled actual ∷ queue) (==→eq call.reservation_id id e) q in
          rw (e, found, same)
            (subst
              (λ b. is_paired (charges_on id payloads) (if b then queue else pending id) ≡ true) e
              next)
      | inr e ↦ rw e (
          subst (λ b. is_paired (charges_on id payloads) (if b then queue else pending id) ≡ true) e
            next)
    ]

match_calls_paired :
    (payloads : List Payload) (pending : Pending)
    → match_calls pending payloads ≡ ok tt
    → (id : ℕ) → is_paired (charges_on id payloads) (pending id) ≡ true
unfolding match_calls call_of
match_calls_paired [] pending h id = refl
match_calls_paired (budget_reservation_settled _ _ ∷ payloads) pending h id =
    match_calls_paired payloads pending h id
match_calls_paired (budget_reservation_released _ ∷ payloads) pending h id =
    match_calls_paired payloads pending h id
match_calls_paired (model_call_recorded_v2 call ∷ payloads) pending h id =
    call_paired call payloads pending (λ rest. match_calls_paired payloads rest) h id
match_calls_paired (model_call_failed_v2 call ∷ payloads) pending h id =
    call_paired call payloads pending (λ rest. match_calls_paired payloads rest) h id
match_calls_paired (other_payload ∷ payloads) pending h id =
    match_calls_paired payloads pending h id

take_evidence_settled :
    (call : SemanticCall) (pending : Pending) (actual : ResourceVector) (queue : List Evidence)
    → pending call.reservation_id ≡ settled actual ∷ queue
    → same_usage actual call.charged_usage ≡ true
    → take_evidence call pending
      ≡ ok (λ key. if call.reservation_id == key then queue else pending key)
unfolding take_evidence
take_evidence_settled call pending actual queue e same = ground (arith, e, same)

-- A call that finds its settlement, with the queues left for the calls after it.
paired_call :
    (call : SemanticCall) (payloads : List Payload) (pending : Pending)
    → ((rest : Pending)
        → ((id : ℕ) → is_paired (charges_on id payloads) (rest id) ≡ true)
        → match_calls rest payloads ≡ ok tt)
    → ((id : ℕ)
        → is_paired
            (if call.reservation_id == id
              then call.charged_usage ∷ charges_on id payloads
              else charges_on id payloads)
            (pending id)
          ≡ true)
    → (take_evidence call pending >>= λ rest. match_calls rest payloads) ≡ ok tt
paired_call call payloads pending later h = from_queue (pending call.reservation_id) refl (
    subst
      (λ b.
        is_paired
          (if b
            then call.charged_usage ∷ charges_on call.reservation_id payloads
            else charges_on call.reservation_id payloads)
          (pending call.reservation_id)
        ≡ true)
      (==-refl call.reservation_id) (h call.reservation_id))
  where
    left : List Evidence → Pending
    left queue key = if call.reservation_id == key then queue else pending key

    left_paired :
        (queue : List Evidence)
        → is_paired (charges_on call.reservation_id payloads) queue ≡ true
        → (id : ℕ) → is_paired (charges_on id payloads) (left queue id) ≡ true
    left_paired queue g id = elim (Bool-cases (call.reservation_id == id)) [
      | inl e ↦ rw e (
          subst (λ x. is_paired (charges_on x payloads) queue ≡ true)
            (==→eq call.reservation_id id e) g)
      | inr e ↦ let k = h id in rw e (ground (arith, k, e))
    ]

    from_queue :
        (o : List Evidence)
        → pending call.reservation_id ≡ o
        → is_paired
            (call.charged_usage ∷ charges_on call.reservation_id payloads)
            (pending call.reservation_id)
          ≡ true
        → (take_evidence call pending >>= λ rest. match_calls rest payloads) ≡ ok tt
    from_queue [] e g = absurd (ground (arith, e, g))
    from_queue (released ∷ queue) e g = absurd (ground (arith, e, g))
    from_queue (settled actual ∷ queue) e g =
        let both : same_usage actual call.charged_usage
              && is_paired (charges_on call.reservation_id payloads) queue
            ≡ true =
          subst
            (λ o. is_paired (call.charged_usage ∷ charges_on call.reservation_id payloads) o ≡ true)
            e g in
        let same : same_usage actual call.charged_usage ≡ true = ground (arith, both) in
        rw (take_evidence_settled call pending actual queue e same)
          (later (left queue) (left_paired queue (ground (arith, both))))

match_calls_of_paired :
    (payloads : List Payload) (pending : Pending)
    → ((id : ℕ) → is_paired (charges_on id payloads) (pending id) ≡ true)
    → match_calls pending payloads ≡ ok tt
unfolding match_calls call_of
match_calls_of_paired [] pending h = refl
match_calls_of_paired (budget_reservation_settled _ _ ∷ payloads) pending h =
    match_calls_of_paired payloads pending h
match_calls_of_paired (budget_reservation_released _ ∷ payloads) pending h =
    match_calls_of_paired payloads pending h
match_calls_of_paired (model_call_recorded_v2 call ∷ payloads) pending h =
    paired_call call payloads pending (λ rest. match_calls_of_paired payloads rest) h
match_calls_of_paired (model_call_failed_v2 call ∷ payloads) pending h =
    paired_call call payloads pending (λ rest. match_calls_of_paired payloads rest) h
match_calls_of_paired (other_payload ∷ payloads) pending h =
    match_calls_of_paired payloads pending h

-- A batch is let pass just if on every reservation the n-th charge of a call meets, as the n-th
-- piece of evidence of the whole batch, a settlement of the same usage.
pub admission_iff :
    (payloads : List Payload)
    → (validate_semantic_reservation_admission payloads ≡ ok tt)
      ↔ ((id : ℕ) → is_paired (charges_on id payloads) (evidence_on id payloads) ≡ true)
unfolding validate_semantic_reservation_admission
admission_iff payloads = (
  λ h id.
      subst (λ items. is_paired (charges_on id payloads) items ≡ true)
        (gather_lem payloads (λ _. []) id)
        (match_calls_paired payloads (gather (λ _. []) payloads) h id),
  λ h. match_calls_of_paired payloads (gather (λ _. []) payloads) (λ id.
      subst (λ items. is_paired (charges_on id payloads) items ≡ true)
        (sym (gather_lem payloads (λ _. []) id)) (h id)),
)
