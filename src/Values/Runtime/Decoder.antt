-- ===== src/Values/Runtime/Decoder.antt =====
-- `read_value` of crates/wasmtime/src/codec.rs, with `read_future` and `read_stream`.
use wrpc.Prelude.{
  ℕ, zero, suc, ◌+◌, ◌/◌, Bool, true, false, List, [], ◌∷◌, ◌++◌, Option, none, some, Bytes, Result,
  ok, err, other, ◌>>=◌, invalid_input, unsupported, if◌then◌else◌, ltb, length,
}
use wrpc.Leb128.{Leb128, ReadLeb128}
use wrpc.Reader.{Reader}
use wrpc.Values.{
  Ty, MaybeTy, Tys, FieldTys, CaseTys, Value, MaybeValue, Values, Fields, Source, payload_supported,
  same_num, number, text, list_of, record_of, tuple_of, variant_of, enum_of, option_of, result_of,
  flags_of, future_of, stream_of, error_context, map_of, fixed_length_list, no_ty, some_ty, no_tys,
  ty, no_field_tys, field_ty, no_case_tys, case_ty, num, str, list, fields, tuple, variant, enum,
  option, result_ok, result_err, flags, future, stream, no_value, some_value, no_values, value,
  no_fields, entry, ready, ready_all, remote,
}
use wrpc.Values.Prims.{Prims}
use wrpc.Values.Flags.{has_bit, has_bit_at, of_le, marked, flags_size}
use wrpc.Values.Discriminants.{or_err, get_name}
use wrpc.Values.Wave.{read_list, read_optional}
use wrpc.Values.Runtime.Handles.{Host}

-- `map_err(std::io::Error::other)`.
abbrev pub or_other {ℓ} : {A : Type ℓ} → Result A → Result A
or_other (err e) = err other
or_other (ok a) = ok a

-- `Payload::from_val`, where the payload type is `m`.
abbrev pub from_val : MaybeTy → MaybeValue → Option MaybeValue
from_val no_ty no_value = some no_value
from_val (some_ty (number k)) (some_value (num j n)) =
    if same_num k j then some (some_value (num j n)) else none
from_val (some_ty text) (some_value (str s)) = some (some_value (str s))
from_val m v = none

-- The element that is read of the payload of a stream.
abbrev pub element : Ty → Value → Result Value
element t v = elim (from_val (some_ty t) (some_value v)) [
  | some (some_value w) ↦ ok w
  | some no_value ↦ err other
  | none ↦ err other
]

-- The loop over the elements of a list, from position `i` on.
unfoldable pub read_elements :
    ℕ → ℕ → (List ℕ → Bytes → Result (Value × Bytes)) → List ℕ → Bytes → Result (Values × Bytes)
read_elements i zero read path rx = ok (no_values, rx)
read_elements i (suc n) read path rx = do
  (v, rx') ← read (path ++ i ∷ []) rx
  (vs, rx'') ← read_elements (suc i) n read path rx'
  ok (value v vs, rx'')

-- `index` gives the sub-stream of a path, or fails.
module _ {leb : Leb128} (p : Prims leb) (leb_reader : ReadLeb128 leb) (reader : Reader)
    (host : Host) (index : List ℕ → Result (List ℕ)) where
  -- The end of `read_future` and of `read_stream` where the data is on a sub-stream.
  unfoldable pub open_source : (Source → Value) → List ℕ → Bytes → Result (Value × Bytes)
  open_source f path rx = do
    substream ← or_other (index path)
    source ← or_other (host.new_reader (remote substream))
    ok (f source, rx)

  unfoldable pub read_flags : List Bytes → Bytes → Result (Value × Bytes)
  read_flags names rx =
      if ltb (length names) 129
      then (do
        (buf, rx') ← reader.read_exact (flags_size (length names)) rx
        ok (flags (marked (λ i. has_bit i (of_le buf)) 0 names), rx'))
      else (do
        (buf, rx') ← reader.read_exact ((length names + 7) / 8) rx
        ok (flags (marked (λ i. has_bit_at i buf) 0 names), rx'))

  -- `read_future`, by the status and by how the payload is read.
  unfoldable pub read_future :
      Bool
      → MaybeTy
      → (Bytes → Result (MaybeValue × Bytes))
      → List ℕ
      → Bytes
      → Result (Value × Bytes)
  read_future false m read path rx = open_source future path rx
  read_future true m read path rx = do
    (v, rx') ← read rx
    payload ← or_err other (from_val m v)
    source ← or_other (host.new_reader (ready payload))
    ok (future source, rx')

  unfoldable pub read_stream :
      Bool → Ty → (Bytes → Result (Value × Bytes)) → List ℕ → Bytes → Result (Value × Bytes)
  read_stream false t read path rx = open_source stream path rx
  read_stream true t read path rx = do
    (n, rx') ← leb_reader.read_u32 rx
    (vs, rx'') ←
        read_list n (λ rx. do (v, rx') ← read rx; payload ← element t v; ok (payload, rx')) rx'
    source ← or_other (host.new_reader (ready_all vs))
    ok (stream source, rx'')

  unfoldable mutual
    pub read_val : Ty → List ℕ → Bytes → Result (Value × Bytes)
    read_val (number k) path rx = do (n, rx') ← p.read k rx; ok (num k n, rx')
    read_val text path rx = do (s, rx') ← p.read_core_name rx; ok (str s, rx')
    read_val (list_of t) path rx = do
      (n, rx') ← leb_reader.read_u32 rx
      (vs, rx'') ← read_elements 0 n (read_val t) path rx'
      ok (list vs, rx'')
    read_val (record_of ts) path rx = do
      (fs, rx') ← read_val_record 0 ts path rx
      ok (fields fs, rx')
    read_val (tuple_of ts) path rx = do (vs, rx') ← read_val_tuple 0 ts path rx; ok (tuple vs, rx')
    read_val (variant_of cases) path rx = do
      (discriminant, rx') ← leb_reader.read_u32 rx
      ((name, payload), rx'') ← read_val_case cases discriminant path rx'
      ok (variant name payload, rx'')
    read_val (enum_of names) path rx = do
      (discriminant, rx') ← leb_reader.read_u32 rx
      name ← or_err invalid_input (get_name names discriminant)
      ok (enum name, rx')
    read_val (option_of t) path rx = do
      (status, rx') ← p.read_option_status rx
      (v, rx'') ← read_optional status (read_val t path) rx'
      ok (option v, rx'')
    read_val (result_of ok_ty err_ty) path rx = do
      (status, rx') ← p.read_result_status rx
      let read_ok = read_val_payload ok_ty path
      let read_err = read_val_payload err_ty path
      (payload, rx'') ← (if status then read_ok else read_err) rx'
      ok (if status then result_ok payload else result_err payload, rx'')
    read_val (flags_of names) path rx = read_flags names rx
    read_val (future_of m) path rx =
        let read = read_val_payload m path in
        if payload_supported m
        then (do (status, rx') ← p.read_option_status rx; read_future status m read path rx')
        else err unsupported
    read_val (stream_of no_ty) path rx = err unsupported
    read_val (stream_of (some_ty t)) path rx =
        let read = read_val t path in
        if payload_supported (some_ty t)
        then (do (status, rx') ← p.read_option_status rx; read_stream status t read path rx')
        else err unsupported
    read_val error_context path rx = err unsupported
    read_val map_of path rx = err unsupported
    read_val fixed_length_list path rx = err unsupported

    pub read_val_payload : MaybeTy → List ℕ → Bytes → Result (MaybeValue × Bytes)
    read_val_payload no_ty path rx = ok (no_value, rx)
    read_val_payload (some_ty t) path rx = do (v, rx') ← read_val t path rx; ok (some_value v, rx')

    pub read_val_tuple : ℕ → Tys → List ℕ → Bytes → Result (Values × Bytes)
    read_val_tuple i no_tys path rx = ok (no_values, rx)
    read_val_tuple i (ty t ts) path rx = do
      (v, rx') ← read_val t (path ++ i ∷ []) rx
      (vs, rx'') ← read_val_tuple (suc i) ts path rx'
      ok (value v vs, rx'')

    pub read_val_record : ℕ → FieldTys → List ℕ → Bytes → Result (Fields × Bytes)
    read_val_record i no_field_tys path rx = ok (no_fields, rx)
    read_val_record i (field_ty name t ts) path rx = do
      (v, rx') ← read_val t (path ++ i ∷ []) rx
      (fs, rx'') ← read_val_record (suc i) ts path rx'
      ok (entry name v fs, rx'')

    -- `cases().nth(discriminant)`, and the value of that case.
    pub read_val_case : CaseTys → ℕ → List ℕ → Bytes → Result ((Bytes × MaybeValue) × Bytes)
    read_val_case no_case_tys i path rx = err invalid_input
    read_val_case (case_ty name m cases) zero path rx = do
      (payload, rx') ← read_val_payload m path rx
      ok ((name, payload), rx')
    read_val_case (case_ty name m cases) (suc i) path rx = read_val_case cases i path rx
