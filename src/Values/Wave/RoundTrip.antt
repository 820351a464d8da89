-- ===== src/Values/Wave/RoundTrip.antt =====
-- The encoder of crates/wave against its decoder, over all values of a type.
use wrpc.Prelude.{◌≡◌, refl, false, ◌++◌, some, Bytes, ok}
use wrpc.Leb128.{Leb128, ReadLeb128}
use wrpc.Reader.{Reader}
use wrpc.Frame.Header.{CoreName}
use wrpc.Values.{
  Ty, MaybeTy, Tys, FieldTys, Value, MaybeValue, Values, Fields, size, list_of, record_of, tuple_of,
  variant_of, enum_of, option_of, result_of, flags_of, num, str, list, fields, tuple, variant, enum,
  option, result_ok, result_err, flags, future, stream, no_value, some_value, no_values, value,
  no_fields, entry,
}
use wrpc.Values.Prims.{Prims}
use wrpc.Values.Typing.{HasType, HasMaybeType, AllHaveType, HasTypes, HasFieldTypes}
use wrpc.Values.Reads.{Carried}
use wrpc.Values.Wave.{
  encode_value, encode_list, encode_tuple, encode_record, encode_payload, read_list, read_value,
  read_payload, read_tuple, read_record,
}
use wrpc.Values.Wave.Cases.{
  encode, read, reads_num, reads_str, reads_list, reads_fields, reads_tuple, reads_variant,
  reads_enum, reads_none, reads_some, reads_ok, reads_err, reads_flags,
}
use wrpc.Values.Wave.Parts.{
  reads_list-nil, reads_tuple-nil, reads_record-nil, reads_list-cons, reads_tuple-cons,
  reads_record-cons, reads_payload, reads_no_payload,
}
use wrpc.Values.Wave.Types.{WasmType}

module _ {leb : Leb128} (p : Prims leb) (core_name : CoreName leb) (leb_reader : ReadLeb128 leb)
    (reader : Reader) (types : WasmType)
    (makes : (v : Value) (t : Ty) → HasType p false v t → types.make t v ≡ some v) where
  mutual
    pub reads_all :
        (v : Value) (t : Ty)
        → HasType p false v t
        → Carried
            (encode p core_name leb_reader reader types v t)
            (read p core_name leb_reader reader types t)
            v
    reads_all (num k n) t (e, h) = rw (e) (reads_num p core_name leb_reader reader types k n h)
    reads_all (str s) t (e, u, l) = rw (e) (reads_str p core_name leb_reader reader types s u l)
    reads_all (list vs) t (a, e, l, h) = rw (e) (
        reads_list p core_name leb_reader reader types vs a l
          (makes (list vs) (list_of a) (a, refl, l, h)) (reads_elements vs a h))
    reads_all (fields fs) t (ts, e, h) = rw (e) (
        reads_fields p core_name leb_reader reader types fs ts
          (makes (fields fs) (record_of ts) (ts, refl, h)) (reads_record fs ts h))
    reads_all (tuple vs) t (ts, e, h) = rw (e) (
        reads_tuple p core_name leb_reader reader types vs ts
          (makes (tuple vs) (tuple_of ts) (ts, refl, h)) (reads_parts vs ts h))
    reads_all (variant name v) t (cases, d, m, e, found, h) = rw (e) (
        reads_variant p core_name leb_reader reader types name v cases d m found
          (makes (variant name v) (variant_of cases) (cases, d, m, refl, found, h))
          (reads_maybe v m h))
    reads_all (enum name) t (names, d, e, found) = rw (e) (
        reads_enum p core_name leb_reader reader types name names d found
          (makes (enum name) (enum_of names) (names, d, refl, found)))
    reads_all (option no_value) t (a, e, h) = rw (e) (
        reads_none p core_name leb_reader reader types a
          (makes (option no_value) (option_of a) (a, refl, h)))
    reads_all (option (some_value v)) t (a, e, h) = rw (e) (
        reads_some p core_name leb_reader reader types v a
          (makes (option (some_value v)) (option_of a) (a, refl, h)) (reads_all v a h))
    reads_all (result_ok v) t (m, o, e, h) = rw (e) (
        reads_ok p core_name leb_reader reader types v m o
          (makes (result_ok v) (result_of m o) (m, o, refl, h)) (reads_maybe v m h))
    reads_all (result_err v) t (m, o, e, h) = rw (e) (
        reads_err p core_name leb_reader reader types v m o
          (makes (result_err v) (result_of o m) (m, o, refl, h)) (reads_maybe v m h))
    reads_all (flags fs) t (names, e, k) = rw (e) (
        reads_flags p core_name leb_reader reader types fs names k
          (makes (flags fs) (flags_of names) (names, refl, k)))
    reads_all (future source) t (m, e, sync, h, k) = cc
    reads_all (stream source) t (m, e, sync, h, k) = cc

    reads_maybe :
        (v : MaybeValue) (m : MaybeTy)
        → HasMaybeType p false v m
        → Carried
            (encode_payload p core_name types v m)
            (read_payload p leb_reader reader types m)
            v
    reads_maybe no_value m e = rw (e) (reads_no_payload p core_name leb_reader reader types)
    reads_maybe (some_value v) m (t, e, h) =
        rw (e) (reads_payload p core_name leb_reader reader types v t (reads_all v t h))

    reads_elements :
        (vs : Values) (t : Ty)
        → AllHaveType p false vs t
        → Carried
            (encode_list p core_name types vs t)
            (read_list (size vs) (read p core_name leb_reader reader types t))
            vs
    reads_elements no_values t h = reads_list-nil p core_name leb_reader reader types t
    reads_elements (value v vs) t (h, k) =
        reads_list-cons p core_name leb_reader reader types v vs t (reads_all v t h)
          (reads_elements vs t k)

    reads_parts :
        (vs : Values) (ts : Tys)
        → HasTypes p false vs ts
        → Carried
            (encode_tuple p core_name types vs ts)
            (read_tuple p leb_reader reader types ts)
            vs
    reads_parts no_values ts e = rw (e) (reads_tuple-nil p core_name leb_reader reader types)
    reads_parts (value v vs) ts (t, later, e, h, k) = rw (e) (
        reads_tuple-cons p core_name leb_reader reader types v vs t later (reads_all v t h)
          (reads_parts vs later k))

    reads_record :
        (fs : Fields) (ts : FieldTys)
        → HasFieldTypes p false fs ts
        → Carried
            (encode_record p core_name types fs ts)
            (read_record p leb_reader reader types ts)
            fs
    reads_record no_fields ts e = rw (e) (reads_record-nil p core_name leb_reader reader types)
    reads_record (entry n v fs) ts (t, later, e, h, k) = rw (e) (
        reads_record-cons p core_name leb_reader reader types n v fs t later (reads_all v t h)
          (reads_record fs later k))

  -- A value of its type is encoded, and the decoder reads it back from the bytes in front of any
  -- others, which it leaves.
  pub read_value-encode_value :
      (v : Value) (t : Ty)
      → HasType p false v t
      → (b : Bytes) × (encode_value p core_name types v t ≡ ok b)
        × ((rest : Bytes) → read_value p leb_reader reader types t (b ++ rest) ≡ ok (v, rest))
  read_value-encode_value v t h = reads_all v t h
