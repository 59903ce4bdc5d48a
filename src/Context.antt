-- ===== src/Context.antt =====
-- `generate_delta` and `apply_delta` of src/fre/modules/m12_context.py, with the delta packet of
-- src/fre/domain/context.py. A packet is what the functions use of `ContextPacket`: its JSON dump as a
-- dictionary of top-level fields, its hash and version fields, and `model_validate`.
pub mod Fields
pub mod Deltas
use reasoning_engine.Prelude.{
  ℕ, Bool, true, false, Option, none, some, List, [], ◌∷◌, ◌++◌, map, not, leb, ◌==◌, if◌then◌else◌,
  lookup, nat_eq, assign, union_from, sort_by, Result, ok, err, ◌>>=◌, ◌>>◌, raise_if,
}

pub data DeltaOperationType : Type 0 where
  add replace remove : DeltaOperationType

-- `path` is the field's name: the path is a slash before it.
pub record DeltaOperation (J : Type 0) : Type 0 where
  pub operation : DeltaOperationType
  pub path : ℕ
  pub value : Option J

pub record ContextDeltaPacket (J : Type 0) : Type 0 where
  pub base_packet_hash : ℕ
  pub target_packet_hash : ℕ
  pub compiler_version : ℕ
  pub compression_policy_version : ℕ
  pub profile : ℕ
  pub operations : List (DeltaOperation J)
  pub delta_hash : ℕ

-- The last four stand for `model_validate`, for `canonical_hash` of the dump without `packet_hash`, for
-- the test that a field's name is not empty and has no slash, and for equality of JSON values.
pub record PacketModel (C J : Type 0) : Type 0 where
  pub model_dump : C → List (ℕ × J)
  pub packet_hash : C → ℕ
  pub compiler_version : C → ℕ
  pub compression_policy_version : C → ℕ
  pub profile : C → ℕ
  pub model_validate : List (ℕ × J) → Option C
  pub content_hash : C → ℕ
  pub is_field : ℕ → Bool
  pub same_json : J → J → Bool

pub data DeltaError : Type 0 where
  delta_hash_mismatch base_mismatch path_not_field : DeltaError
  invalid_packet target_mismatch : DeltaError

module _ {J : Type 0} where
  -- `data.pop(key, None)`
  unfoldable pub pop : ℕ → List (ℕ × J) → List (ℕ × J)
  pop key [] = []
  pop key ((k, v) ∷ data_) = if key == k then pop key data_ else (k, v) ∷ pop key data_

  abbrev pub keys_of : List (ℕ × J) → List ℕ
  keys_of items = map (λ item. item.0) items

module _ {C J : Type 0} (packets : PacketModel C J) where
  -- the body of the loop of `generate_delta`, on what the two dumps hold under the key
  unfoldable pub operation_for : ℕ → Option J → Option J → List (DeltaOperation J)
  operation_for key none none = record { operation = remove; path = key; value = none } ∷ []
  operation_for key (some old) none = record { operation = remove; path = key; value = none } ∷ []
  operation_for key none (some new) = record { operation = add; path = key; value = some new } ∷ []
  operation_for key (some old) (some new) =
      if not (packets.same_json old new)
      then record { operation = replace; path = key; value = some new } ∷ []
      else []

  unfoldable pub operations_for : List ℕ → List (ℕ × J) → List (ℕ × J) → List (DeltaOperation J)
  unfolding operation_for
  operations_for [] base_data target_data = []
  operations_for (key ∷ keys) base_data target_data =
      operation_for key (lookup key base_data) (lookup key target_data)
      ++ operations_for keys base_data target_data

  -- `sorted(set(base_data) | set(target_data))`
  abbrev pub all_keys : List (ℕ × J) → List (ℕ × J) → List ℕ
  all_keys base_data target_data =
      sort_by leb (union_from (union_from [] (keys_of base_data)) (keys_of target_data))

  -- The parameter stands for `canonical_hash` of the packet without `delta_hash`.
  module _ (seal : ContextDeltaPacket J → ℕ) where
    -- the packet before its hash is known
    abbrev pub unsealed : C → C → ContextDeltaPacket J
    unsealed base target = record {
      base_packet_hash = packets.packet_hash base;
      target_packet_hash = packets.packet_hash target;
      compiler_version = packets.compiler_version target;
      compression_policy_version = packets.compression_policy_version target;
      profile = packets.profile target;
      operations =
          operations_for (all_keys (packets.model_dump base) (packets.model_dump target))
            (packets.model_dump base) (packets.model_dump target);
      delta_hash = 0;
    }

    unfoldable pub generate_delta : C → C → ContextDeltaPacket J
    generate_delta base target = record (unsealed base target) {
      delta_hash = seal (unsealed base target);
    }

    -- the loop of `apply_delta`; a value that is not given is written as null
    unfoldable pub apply_operations :
        J → List (DeltaOperation J) → List (ℕ × J) → Result DeltaError (List (ℕ × J))
    apply_operations null [] data_ = ok data_
    apply_operations null (op ∷ ops) data_ =
        raise_if (not (packets.is_field op.path)) path_not_field
        >> apply_operations null ops (elim op.operation [
          | remove ↦ pop op.path data_
          | add ↦ assign op.path (elim op.value [ none ↦ null | some v ↦ v ]) data_
          | replace ↦ assign op.path (elim op.value [ none ↦ null | some v ↦ v ]) data_
        ])

    unfoldable pub apply_delta : J → C → ContextDeltaPacket J → Result DeltaError C
    apply_delta null base delta = do
      raise_if (not (seal (record delta { delta_hash = 0 }) == delta.delta_hash))
          delta_hash_mismatch
      raise_if (not (packets.packet_hash base == delta.base_packet_hash)) base_mismatch
      data_ ← apply_operations null delta.operations (packets.model_dump base)
      result ← elim (packets.model_validate data_) [ none ↦ err invalid_packet | some c ↦ ok c ]
      raise_if (not (packets.packet_hash result == delta.target_packet_hash)) target_mismatch
      raise_if (not (packets.content_hash result == delta.target_packet_hash)) target_mismatch
      ok result
