-- ===== src/Tests/Context.antt =====
-- A delta of src/fre/modules/m12_context.py between two small packets.
use reasoning_engine.Prelude.{
  ℕ, ◌+◌, ◌≡◌, refl, Bool, true, false, Option, none, some, List, [], ◌∷◌, ◌==◌, ==→eq, lookup,
  nat_eq, ok, err, sort_by, length,
}
use reasoning_engine.Context.{
  replace, remove, target_mismatch, apply_operations, ContextDeltaPacket, PacketModel,
  operation_for, operations_for, generate_delta, apply_delta,
}
use reasoning_engine.Context.Deltas.{apply_delta-generate_delta}

-- A packet with a field 1 and perhaps a field 2.
abbrev Packet : Type 0
Packet = ℕ × Option ℕ

abbrev dump : Packet → List (ℕ × ℕ)
dump (a, none) = (1, a) ∷ []
dump (a, some b) = (1, a) ∷ (2, b) ∷ []

abbrev validate : List (ℕ × ℕ) → Option Packet
validate fields = elim (lookup 1 fields) [ none ↦ none | some a ↦ some (a, lookup 2 fields) ]

abbrev packets : PacketModel Packet ℕ
packets = record {
  model_dump = dump;
  packet_hash = λ p. p.0 + 100;
  compiler_version = λ p. 1;
  compression_policy_version = λ p. 1;
  profile = λ p. 0;
  model_validate = validate;
  content_hash = λ p. p.0 + 100;
  is_field = λ key. true;
  same_json = ◌==◌;
}

abbrev seal : ContextDeltaPacket ℕ → ℕ
seal delta = delta.base_packet_hash + length delta.operations

abbrev base : Packet
base = (3, some 4)

abbrev target : Packet
target = (5, none)

delta_run :
    (generate_delta packets seal base target).operations
    ≡ record { operation = replace; path = 1; value = some 5 }
      ∷ record { operation = remove; path = 2; value = none }
      ∷ []
unfolding generate_delta operations_for operation_for sort_by
delta_run = refl

restores :
    (fields : List (ℕ × ℕ))
    → ((k : ℕ) → lookup k fields ≡ lookup k (dump target))
    → validate fields ≡ some target
restores fields h = rw (h 1, validate) (rw (h 2) refl)

apply_delta-generate_delta_example :
    apply_delta packets seal 0 base (generate_delta packets seal base target) ≡ ok target
apply_delta-generate_delta_example =
    apply_delta-generate_delta packets 0 seal base target (λ key old new b t e. ==→eq old new e)
      (λ key. refl) refl restores

-- Two values of Python that compare equal, as True and 1 do.
data Json : Type 0 where
  number : ℕ → Json
  boolean : Bool → Json

abbrev as_number : Json → ℕ
as_number (number n) = n
as_number (boolean true) = 1
as_number (boolean false) = 0

-- their texts in canonical JSON differ, so that their hashes do
abbrev digest : Json → ℕ
digest (number n) = n
digest (boolean b) = 1000 + as_number (boolean b)

abbrev loose : PacketModel Json Json
loose = record {
  model_dump = λ p. (1, p) ∷ [];
  packet_hash = digest;
  compiler_version = λ p. 1;
  compression_policy_version = λ p. 1;
  profile = λ p. 0;
  model_validate = lookup 1;
  content_hash = digest;
  is_field = λ key. true;
  same_json = λ a b. as_number a == as_number b;
}

-- A target that has True where the base has 1 is not reached: the delta has no operation, and
-- `apply_delta` raises.
loose_run :
    apply_delta loose
      (λ delta. delta.base_packet_hash)
      (number 0)
      (number 1)
      (generate_delta loose (λ delta. delta.base_packet_hash) (number 1) (boolean true))
    ≡ err target_mismatch
unfolding apply_delta apply_operations generate_delta operations_for operation_for sort_by
loose_run = refl
