-- ===== src/Values/Runtime/RoundTrip.antt =====
-- The encoder of crates/wasmtime/src/codec.rs against its decoder, over all values of a type.
use wrpc.Prelude.{ℕ, suc, ◌≡◌, ap, sym, true, List, [], ◌++◌, Bytes, Result, ok}
use wrpc.Leb128.{Leb128, ReadLeb128}
use wrpc.Reader.{Reader}
use wrpc.Frame.Header.{CoreName}
use wrpc.Values.{
  Ty, MaybeTy, Tys, FieldTys, Value, MaybeValue, Values, Fields, size, num_tys, num_fields,
  num_field_tys, num, str, list, fields, tuple, variant, enum, option, result_ok, result_err, flags,
  future, stream, no_value, some_value, no_values, value, no_fields, entry, local, remote,
}
use wrpc.Values.Prims.{Prims}
use wrpc.Values.Typing.{HasType, HasMaybeType, AllHaveType, HasTypes, HasFieldTypes}
use wrpc.Values.Runtime.Handles.{Host}
use wrpc.Values.Runtime.Encoder.{encode_val}
use wrpc.Values.Runtime.Decoder.{read_val}
use wrpc.Values.Runtime.Paths.{sources, located}
use wrpc.Values.Runtime.Sent.{Opened, SentVal, SentPayload}
use wrpc.Values.Runtime.Cases.{
  got_num, got_str, got_list, got_record, got_tuple, got_variant, got_enum,
}
use wrpc.Values.Runtime.Options.{
  got_none, got_some, got_ok, got_err, got_flags, got_future, got_stream,
}
use wrpc.Values.Runtime.Parts.{
  SentList, SentTuple, SentRecord, got_list-nil, got_tuple-nil, got_record-nil, got_list-cons,
  got_tuple-cons, got_record-cons, got_payload, got_no_payload,
}

module _ {leb : Leb128} (p : Prims leb) (core_name : CoreName leb) (leb_reader : ReadLeb128 leb)
    (reader : Reader) (host : Host) (index : List ℕ → Result (List ℕ))
    (pipes_future : (m : MaybeTy) (i : ℕ) → host.pipe_future m (local i) ≡ ok (local i))
    (pipes_stream : (t : Ty) (i : ℕ) → host.pipe_stream t (local i) ≡ ok (local i))
    (makes : (path : List ℕ) → host.new_reader (remote path) ≡ ok (remote path)) where
  size-HasTypes : (vs : Values) (ts : Tys) → HasTypes p true vs ts → size vs ≡ num_tys ts
  size-HasTypes no_values ts e = ap num_tys (sym e)
  size-HasTypes (value v vs) ts (t, later, e, h, k) = rw (e) (ap suc (size-HasTypes vs later k))

  num_fields-HasFieldTypes :
      (fs : Fields) (ts : FieldTys) → HasFieldTypes p true fs ts → num_fields fs ≡ num_field_tys ts
  num_fields-HasFieldTypes no_fields ts e = ap num_field_tys (sym e)
  num_fields-HasFieldTypes (entry n v fs) ts (t, later, e, h, k) =
      rw (e) (ap suc (num_fields-HasFieldTypes fs later k))

  mutual
    got_all :
        (v : Value) (t : Ty)
        → HasType p true v t
        → SentVal p core_name leb_reader reader host index v t
    got_all (num k n) t (e, h) = rw (e) (got_num p core_name leb_reader reader host index k n h)
    got_all (str s) t (e, u, l) = rw (e) (got_str p core_name leb_reader reader host index s u l)
    got_all (list vs) t (a, e, l, h) =
        rw (e) (got_list p core_name leb_reader reader host index vs a l (got_elements 0 vs a h))
    got_all (fields fs) t (ts, e, h) = rw (e) (
        got_record p core_name leb_reader reader host index fs ts (num_fields-HasFieldTypes fs ts h)
          (got_fields 0 fs ts h))
    got_all (tuple vs) t (ts, e, h) = rw (e) (
        got_tuple p core_name leb_reader reader host index vs ts (size-HasTypes vs ts h)
          (got_parts 0 vs ts h))
    got_all (variant name v) t (cases, d, m, e, found, h) = rw (e) (
        got_variant p core_name leb_reader reader host index name v cases d m found
          (got_maybe v m h))
    got_all (enum name) t (names, d, e, found) =
        rw (e) (got_enum p core_name leb_reader reader host index name names d found)
    got_all (option no_value) t (a, e, h) =
        rw (e) (got_none p core_name leb_reader reader host index a)
    got_all (option (some_value v)) t (a, e, h) =
        rw (e) (got_some p core_name leb_reader reader host index v a (got_all v a h))
    got_all (result_ok v) t (m, o, e, h) =
        rw (e) (got_ok p core_name leb_reader reader host index v m o (got_maybe v m h))
    got_all (result_err v) t (m, o, e, h) =
        rw (e) (got_err p core_name leb_reader reader host index v m o (got_maybe v m h))
    got_all (flags fs) t (names, e, k) =
        rw (e) (got_flags p core_name leb_reader reader host index fs names k)
    got_all (future source) t (m, e, async, h, (i, e')) =
        rw (e, e')
          (got_future p core_name leb_reader reader host index i m h (pipes_future m i) makes)
    got_all (stream source) t (a, e, async, h, (i, e')) =
        rw (e, e')
          (got_stream p core_name leb_reader reader host index i a h (pipes_stream a i) makes)

    got_maybe :
        (v : MaybeValue) (m : MaybeTy)
        → HasMaybeType p true v m
        → SentPayload p core_name leb_reader reader host index v m
    got_maybe no_value m e = rw (e) (got_no_payload p core_name leb_reader reader host index)
    got_maybe (some_value v) m (t, e, h) =
        rw (e) (got_payload p core_name leb_reader reader host index v t (got_all v t h))

    got_elements :
        (i : ℕ) (vs : Values) (t : Ty)
        → AllHaveType p true vs t
        → SentList p core_name leb_reader reader host index i vs t
    got_elements i no_values t h = got_list-nil p core_name leb_reader reader host index i t
    got_elements i (value v vs) t (h, k) =
        got_list-cons p core_name leb_reader reader host index i v vs t (got_all v t h)
          (got_elements (suc i) vs t k)

    got_parts :
        (i : ℕ) (vs : Values) (ts : Tys)
        → HasTypes p true vs ts
        → SentTuple p core_name leb_reader reader host index i vs ts
    got_parts i no_values ts e = rw (e) (got_tuple-nil p core_name leb_reader reader host index i)
    got_parts i (value v vs) ts (t, later, e, h, k) = rw (e) (
        got_tuple-cons p core_name leb_reader reader host index i v vs t later (got_all v t h)
          (got_parts (suc i) vs later k))

    got_fields :
        (i : ℕ) (fs : Fields) (ts : FieldTys)
        → HasFieldTypes p true fs ts
        → SentRecord p core_name leb_reader reader host index i fs ts
    got_fields i no_fields ts e = rw (e) (got_record-nil p core_name leb_reader reader host index i)
    got_fields i (entry n v fs) ts (t, later, e, h, k) = rw (e) (
        got_record-cons p core_name leb_reader reader host index i n v fs t later (got_all v t h)
          (got_fields (suc i) fs later k))

  -- A value of its type is encoded, and what its encoder defers is each future and stream in it
  -- with the path it is at. The decoder reads the value back, at any path and in front of any
  -- bytes, where the sub-streams of these paths can be opened: each future and stream is then the
  -- sub-stream of its path.
  pub read_val-encode_val :
      (v : Value) (t : Ty)
      → HasType p true v t
      → (b : Bytes) × (encode_val p core_name host v t ≡ ok (b, sources [] v))
        × ((path : List ℕ)
            → Opened index (sources path v)
            → (rest : Bytes)
            → read_val p leb_reader reader host index t path (b ++ rest)
              ≡ ok (located path v, rest))
  read_val-encode_val v t h = got_all v t h
