-- ===== src/Values/Runtime/Encoder.antt =====
-- `ValEncoder::encode` of crates/wasmtime/src/codec.rs.
use wrpc.Prelude.{ℕ, suc, ◌==◌, [], ◌∷◌, ◌++◌, Bytes, Result, ok, err, other, ◌>>=◌, if◌then◌else◌}
use wrpc.Leb128.{Leb128}
use wrpc.Frame.Header.{CoreName}
use wrpc.Values.{
  Ty, MaybeTy, Source, Tys, FieldTys, Value, MaybeValue, Values, Fields, size, num_tys, num_fields,
  num_field_tys, payload_supported, same_num, number, text, list_of, record_of, tuple_of,
  variant_of, enum_of, option_of, result_of, flags_of, future_of, stream_of, no_ty, some_ty, no_tys,
  ty, no_field_tys, field_ty, num, str, list, fields, tuple, variant, enum, option, result_ok,
  result_err, flags, future, stream, no_value, some_value, no_values, value, no_fields, entry,
}
use wrpc.Values.Prims.{Prims}
use wrpc.Values.Flags.{put_flags}
use wrpc.Values.Discriminants.{enum_discriminant, variant_discriminant}
use wrpc.Values.Wave.{list_length}
use wrpc.Values.Runtime.Handles.{Host}
use wrpc.Values.Runtime.{Writes, index_writes, prefixed}

module _ {leb : Leb128} (p : Prims leb) (core_name : CoreName leb) (host : Host) where
  -- A future, and a stream: one byte, and what is piped of it is deferred.
  unfoldable pub encode_future : MaybeTy → Source → Result (Bytes × Writes)
  encode_future m source =
      if payload_supported m
      then (do piped ← host.pipe_future m source; ok (0 ∷ [], ([], piped) ∷ []))
      else err other

  unfoldable pub encode_stream : MaybeTy → Source → Result (Bytes × Writes)
  encode_stream no_ty source = err other
  encode_stream (some_ty t) source =
      if payload_supported (some_ty t)
      then (do piped ← host.pipe_stream t source; ok (0 ∷ [], ([], piped) ∷ []))
      else err other

  unfoldable mutual
    pub encode_val : Value → Ty → Result (Bytes × Writes)
    encode_val (num k n) (number j) = if same_num k j then ok (p.put k n, []) else err other
    encode_val (str s) text = do bytes ← core_name.encode s []; ok (bytes, [])
    encode_val (list vs) (list_of t) = do
      n ← list_length (size vs)
      prefixed (leb.encode n) (encode_val_list 0 vs t)
    encode_val (fields fs) (record_of ts) =
        let written = encode_val_record 0 fs ts in
        if num_fields fs == num_field_tys ts then written else err other
    encode_val (tuple vs) (tuple_of ts) =
        let written = encode_val_tuple 0 vs ts in
        if size vs == num_tys ts then written else err other
    encode_val (variant name v) (variant_of cases) = do
      (discriminant, m) ← variant_discriminant cases name
      prefixed (leb.encode discriminant) (encode_val_payload v m)
    encode_val (enum name) (enum_of names) = do
      discriminant ← enum_discriminant names name
      ok (leb.encode discriminant, [])
    encode_val (option no_value) (option_of t) = ok (0 ∷ [], [])
    encode_val (option (some_value v)) (option_of t) = prefixed (1 ∷ []) (encode_val v t)
    encode_val (result_ok v) (result_of ok_ty err_ty) =
        prefixed (0 ∷ []) (encode_val_payload v ok_ty)
    encode_val (result_err v) (result_of ok_ty err_ty) =
        prefixed (1 ∷ []) (encode_val_payload v err_ty)
    encode_val (flags fs) (flags_of names) = ok (put_flags names fs, [])
    encode_val (future source) (future_of m) = encode_future m source
    encode_val (stream source) (stream_of m) = encode_stream m source
    encode_val v t = err other

    -- The loops over elements, from position `i` on.
    pub encode_val_list : ℕ → Values → Ty → Result (Bytes × Writes)
    encode_val_list i no_values t = ok ([], [])
    encode_val_list i (value v vs) t = do
      (first, writes) ← encode_val v t
      (rest, later) ← encode_val_list (suc i) vs t
      ok (first ++ rest, index_writes i writes ++ later)

    pub encode_val_tuple : ℕ → Values → Tys → Result (Bytes × Writes)
    encode_val_tuple i no_values ts = ok ([], [])
    encode_val_tuple i (value v vs) no_tys = ok ([], [])
    encode_val_tuple i (value v vs) (ty t ts) = do
      (first, writes) ← encode_val v t
      (rest, later) ← encode_val_tuple (suc i) vs ts
      ok (first ++ rest, index_writes i writes ++ later)

    pub encode_val_record : ℕ → Fields → FieldTys → Result (Bytes × Writes)
    encode_val_record i no_fields ts = ok ([], [])
    encode_val_record i (entry n v fs) no_field_tys = ok ([], [])
    encode_val_record i (entry n v fs) (field_ty m t ts) = do
      (first, writes) ← encode_val v t
      (rest, later) ← encode_val_record (suc i) fs ts
      ok (first ++ rest, index_writes i writes ++ later)

    -- The payload of a case of a variant or of a result.
    pub encode_val_payload : MaybeValue → MaybeTy → Result (Bytes × Writes)
    encode_val_payload (some_value v) (some_ty t) = encode_val v t
    encode_val_payload no_value no_ty = ok ([], [])
    encode_val_payload (some_value v) no_ty = err other
    encode_val_payload no_value (some_ty t) = err other
