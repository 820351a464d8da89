-- ===== src/Values/Runtime.antt =====
-- `ValEncoder::encode` and `read_value` of crates/wasmtime/src/codec.rs, for all types but
-- resources. An encoder gives the bytes that it puts behind the buffer and what its deferred
-- function writes: the futures and streams, each with the path of its sub-stream.
pub mod Handles
pub mod Encoder
pub mod Decoder
pub mod Paths
pub mod Sent
pub mod Cases
pub mod Options
pub mod Parts
pub mod RoundTrip
pub mod Sync
pub mod Subscribed
use wrpc.Prelude.{
  ℕ, zero, suc, ◌+◌, ◌*◌, ◌/◌, ◌==◌, Bool, true, false, List, [], ◌∷◌, ◌++◌, map, Option, none,
  some, Bytes, Result, ok, err, other, ◌>>=◌, invalid_input, unsupported, if◌then◌else◌, ltb,
  length,
}
use wrpc.Leb128.{Leb128, ReadLeb128}
use wrpc.Reader.{Reader}
use wrpc.Frame.Header.{CoreName}
use wrpc.Values.{
  NumTy, Ty, MaybeTy, Tys, FieldTys, CaseTys, Value, MaybeValue, Values, Fields, Source, size,
  num_tys, num_fields, num_field_tys, payload_supported, same_num, number, text, list_of, record_of,
  tuple_of, variant_of, enum_of, option_of, result_of, flags_of, future_of, stream_of,
  error_context, map_of, fixed_length_list, no_ty, some_ty, no_tys, ty, no_field_tys, field_ty,
  no_case_tys, case_ty, num, str, list, fields, tuple, variant, enum, option, result_ok, result_err,
  flags, future, stream, no_value, some_value, no_values, value, no_fields, entry, local, ready,
  ready_all, remote,
}
use wrpc.Values.Prims.{Prims}
use wrpc.Values.Flags.{has_bit, has_bit_at, of_le, marked, put_flags, flags_size}
use wrpc.Values.Discriminants.{or_err, enum_discriminant, variant_discriminant, get_name}
use wrpc.Values.Wave.{list_length, read_list, read_optional}

-- What the deferred functions write, by path.
abbrev pub Writes : Type 0
Writes = List (List ℕ × Source)

-- `write_deferred`, for the element at `i`.
unfoldable pub index_writes : ℕ → Writes → Writes
index_writes i [] = []
index_writes i ((path, source) ∷ writes) = (i ∷ path, source) ∷ index_writes i writes

-- Bytes in front of what an encoder gives.
abbrev pub prefixed : Bytes → Result (Bytes × Writes) → Result (Bytes × Writes)
prefixed b written = do (bytes, writes) ← written; ok (b ++ bytes, writes)
