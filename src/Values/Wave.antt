-- ===== src/Values/Wave.antt =====
-- `ValueEncoder::encode` of crates/wave/src/encode.rs, and `read_value` and `decode_value` of
-- crates/wave/src/decode.rs. An encoder gives the bytes that it puts behind the buffer; capacities
-- are left out. A reader is the bytes up to its end.
pub mod Types
pub mod Cases
pub mod Parts
pub mod RoundTrip
pub mod Trailing
pub mod Reading
pub mod Sound
use wrpc.Prelude.{
  ℕ, zero, suc, ◌+◌, ◌/◌, ◌==◌, max, Bool, true, false, List, [], ◌∷◌, ◌++◌, Option, none, some,
  Bytes, Result, ok, err, other, ◌>>=◌, invalid_data, if◌then◌else◌, ltb, u32_mod, length,
}
use wrpc.Leb128.{Leb128, ReadLeb128}
use wrpc.Reader.{Reader}
use wrpc.Frame.Header.{CoreName}
use wrpc.Values.{
  Ty, MaybeTy, Tys, FieldTys, CaseTys, Value, MaybeValue, Values, Fields, size, number, text,
  list_of, record_of, tuple_of, variant_of, enum_of, option_of, result_of, flags_of, future_of,
  stream_of, error_context, map_of, fixed_length_list, no_ty, some_ty, no_tys, ty, no_field_tys,
  field_ty, no_case_tys, case_ty, num, str, list, fields, tuple, variant, enum, option, result_ok,
  result_err, flags, future, stream, no_value, some_value, no_values, value, no_fields, entry,
}
use wrpc.Values.Prims.{Prims}
use wrpc.Values.Flags.{has_bit_at, marked, put_flags}
use wrpc.Values.Discriminants.{or_err, enum_discriminant, variant_discriminant, get_name}
use wrpc.Values.Wave.Types.{WasmType}

-- `context` on a type that should be there.
abbrev pub required : MaybeTy → Result Ty
required no_ty = err other
required (some_ty t) = ok t

-- The length of a list, as a `u32`.
abbrev pub list_length : ℕ → Result ℕ
list_length n = if ltb n u32_mod then ok n else err other

module _ {leb : Leb128} (p : Prims leb) (core_name : CoreName leb) (types : WasmType) where
  unfoldable mutual
    pub encode_value : Value → Ty → Result Bytes
    encode_value (num k n) t = ok (p.put k n)
    encode_value (str s) t = core_name.encode s []
    encode_value (list vs) t = do
      n ← list_length (size vs)
      e ← required (types.list_element_type t)
      elements ← encode_list vs e
      ok (leb.encode n ++ elements)
    encode_value (fields fs) t = encode_record fs (types.record_fields t)
    encode_value (tuple vs) t = encode_tuple vs (types.tuple_element_types t)
    encode_value (variant name v) t = do
      (discriminant, m) ← variant_discriminant (types.variant_cases t) name
      payload ← encode_payload v m
      ok (leb.encode discriminant ++ payload)
    encode_value (enum name) t = do
      discriminant ← enum_discriminant (types.enum_cases t) name
      ok (leb.encode discriminant)
    encode_value (option v) t = encode_option v (types.option_some_type t)
    encode_value (result_ok v) t = do
      (ok_ty, err_ty) ← or_err other (types.result_types t)
      payload ← encode_payload v ok_ty
      ok (0 ∷ payload)
    encode_value (result_err v) t = do
      (ok_ty, err_ty) ← or_err other (types.result_types t)
      payload ← encode_payload v err_ty
      ok (1 ∷ payload)
    encode_value (flags fs) t = ok (put_flags (types.flags_names t) fs)
    encode_value (future source) t = err other
    encode_value (stream source) t = err other

    -- `for element in elements`.
    pub encode_list : Values → Ty → Result Bytes
    encode_list no_values e = ok []
    encode_list (value v vs) e = do
      first ← encode_value v e
      rest ← encode_list vs e
      ok (first ++ rest)

    -- The loops over `zip(values, types)`.
    pub encode_tuple : Values → Tys → Result Bytes
    encode_tuple no_values ts = ok []
    encode_tuple (value v vs) no_tys = ok []
    encode_tuple (value v vs) (ty t ts) = do
      first ← encode_value v t
      rest ← encode_tuple vs ts
      ok (first ++ rest)

    pub encode_record : Fields → FieldTys → Result Bytes
    encode_record no_fields ts = ok []
    encode_record (entry n v fs) no_field_tys = ok []
    encode_record (entry n v fs) (field_ty m t ts) = do
      first ← encode_value v t
      rest ← encode_record fs ts
      ok (first ++ rest)

    -- The payload of a case of a variant or of a result.
    pub encode_payload : MaybeValue → MaybeTy → Result Bytes
    encode_payload (some_value v) (some_ty t) = encode_value v t
    encode_payload no_value no_ty = ok []
    encode_payload (some_value v) no_ty = err other
    encode_payload no_value (some_ty t) = err other

    pub encode_option : MaybeValue → MaybeTy → Result Bytes
    encode_option no_value m = ok (0 ∷ [])
    encode_option (some_value v) no_ty = err other
    encode_option (some_value v) (some_ty t) = do payload ← encode_value v t; ok (1 ∷ payload)

-- `for _ in 0..n`.
unfoldable pub read_list : ℕ → (Bytes → Result (Value × Bytes)) → Bytes → Result (Values × Bytes)
read_list zero read rx = ok (no_values, rx)
read_list (suc n) read rx = do
  (v, rx') ← read rx
  (vs, rx'') ← read_list n read rx'
  ok (value v vs, rx'')

-- The value of an option, by its status.
unfoldable pub read_optional :
    Bool → (Bytes → Result (Value × Bytes)) → Bytes → Result (MaybeValue × Bytes)
read_optional false read rx = ok (no_value, rx)
read_optional true read rx = do (v, rx') ← read rx; ok (some_value v, rx')

module _ {leb : Leb128} (p : Prims leb) (leb_reader : ReadLeb128 leb) (reader : Reader)
    (types : WasmType) where
  -- `V::make_list` and the like, with `map_err(io_error)`.
  unfoldable pub make : Ty → Value → Bytes → Result (Value × Bytes)
  make t v rx = do made ← or_err invalid_data (types.make t v); ok (made, rx)

  unfoldable mutual
    pub read_value : Ty → Bytes → Result (Value × Bytes)
    read_value (number k) rx = do (n, rx') ← p.read k rx; ok (num k n, rx')
    read_value text rx = do (s, rx') ← p.read_core_name rx; ok (str s, rx')
    read_value (list_of t) rx = do
      (n, rx') ← leb_reader.read_u32 rx
      (elements, rx'') ← read_list n (read_value t) rx'
      make (list_of t) (list elements) rx''
    read_value (record_of ts) rx = do
      (values, rx') ← read_record ts rx
      make (record_of ts) (fields values) rx'
    read_value (tuple_of ts) rx = do
      (elements, rx') ← read_tuple ts rx
      make (tuple_of ts) (tuple elements) rx'
    read_value (variant_of cases) rx = do
      (discriminant, rx') ← leb_reader.read_u32 rx
      ((name, payload), rx'') ← read_case cases discriminant rx'
      make (variant_of cases) (variant name payload) rx''
    read_value (enum_of names) rx = do
      (discriminant, rx') ← leb_reader.read_u32 rx
      name ← or_err invalid_data (get_name names discriminant)
      make (enum_of names) (enum name) rx'
    read_value (option_of t) rx = do
      (status, rx') ← p.read_option_status rx
      (v, rx'') ← read_optional status (read_value t) rx'
      make (option_of t) (option v) rx''
    read_value (result_of ok_ty err_ty) rx = do
      (status, rx') ← p.read_result_status rx
      let read_ok = read_payload ok_ty
      let read_err = read_payload err_ty
      (payload, rx'') ← (if status then read_ok else read_err) rx'
      make (result_of ok_ty err_ty) (if status then result_ok payload else result_err payload) rx''
    read_value (flags_of names) rx = do
      (buf, rx') ← reader.read_exact (max ((length names + 7) / 8) 1) rx
      make (flags_of names) (flags (marked (λ i. has_bit_at i buf) 0 names)) rx'
    read_value (future_of m) rx = err invalid_data
    read_value (stream_of m) rx = err invalid_data
    read_value error_context rx = err invalid_data
    read_value map_of rx = err invalid_data
    read_value fixed_length_list rx = err invalid_data

    pub read_payload : MaybeTy → Bytes → Result (MaybeValue × Bytes)
    read_payload no_ty rx = ok (no_value, rx)
    read_payload (some_ty t) rx = do (v, rx') ← read_value t rx; ok (some_value v, rx')

    pub read_tuple : Tys → Bytes → Result (Values × Bytes)
    read_tuple no_tys rx = ok (no_values, rx)
    read_tuple (ty t ts) rx = do
      (v, rx') ← read_value t rx
      (vs, rx'') ← read_tuple ts rx'
      ok (value v vs, rx'')

    pub read_record : FieldTys → Bytes → Result (Fields × Bytes)
    read_record no_field_tys rx = ok (no_fields, rx)
    read_record (field_ty name t ts) rx = do
      (v, rx') ← read_value t rx
      (vs, rx'') ← read_record ts rx'
      ok (entry name v vs, rx'')

    -- `cases.get(i)`, and the payload of that case.
    pub read_case : CaseTys → ℕ → Bytes → Result ((Bytes × MaybeValue) × Bytes)
    read_case no_case_tys i rx = err invalid_data
    read_case (case_ty name m cases) zero rx = do
      (payload, rx') ← read_payload m rx
      ok ((name, payload), rx')
    read_case (case_ty name m cases) (suc i) rx = read_case cases i rx

  -- `decode_value`: the reader is a slice, so it never waits.
  unfoldable pub decode_value : Bytes → Ty → Result Value
  decode_value buf t = do
    (v, rest) ← read_value t buf
    if length rest == 0 then ok v else err invalid_data
