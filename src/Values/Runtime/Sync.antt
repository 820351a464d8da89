-- ===== src/Values/Runtime/Sync.antt =====
-- The encoder of crates/wasmtime/src/codec.rs against that of crates/wave/src/encode.rs: values
-- without futures and streams.
use wrpc.Prelude.{
  ℕ, suc, ◌<◌, ◌≡◌, refl, ap, ◌∙◌, false, List, [], ◌∷◌, ◌++◌, Bytes, Result, ok, lt→ltb, length,
  u32_mod, arith,
}
use wrpc.Leb128.{Leb128}
use wrpc.Frame.Header.{CoreName}
use wrpc.Values.{
  NumTy, Ty, MaybeTy, Tys, FieldTys, CaseTys, Value, MaybeValue, Values, Fields, size, num_tys,
  num_fields, num_field_tys, number, text, list_of, record_of, tuple_of, variant_of, enum_of,
  option_of, result_of, flags_of, no_ty, some_ty, no_tys, ty, no_field_tys, field_ty, num, str,
  list, fields, tuple, variant, enum, option, result_ok, result_err, flags, future, stream,
  no_value, some_value, no_values, value, no_fields, entry,
}
use wrpc.Values.Prims.{Prims}
use wrpc.Values.Flags.{put_flags}
use wrpc.Values.Discriminants.{enum_discriminant, variant_discriminant}
use wrpc.Values.Typing.{HasType, HasMaybeType, AllHaveType, HasTypes, HasFieldTypes}
use wrpc.Values.Runtime.{Writes, index_writes}
use wrpc.Values.Runtime.Handles.{Host}
use wrpc.Values.Runtime.Encoder.{
  encode_val, encode_val_list, encode_val_tuple, encode_val_record, encode_val_payload,
}
use wrpc.Values.Wave.{encode_value, encode_list, encode_tuple, encode_record, encode_payload}
use wrpc.Values.Wave.Types.{WasmType}
use wrpc.Values.Runtime.Sent.{same_num_lem}

module _ {leb : Leb128} (p : Prims leb) (core_name : CoreName leb) (host : Host)
    (types : WasmType) where
  -- The same bytes, and nothing deferred.
  abbrev Agree : Result Bytes → Result (Bytes × Writes) → Type 0
  Agree bytes written = (b : Bytes) × (bytes ≡ ok b) × (written ≡ ok (b, []))

  abbrev AgreeVal : Value → Ty → Type 0
  AgreeVal v t = Agree (encode_value p core_name types v t) (encode_val p core_name host v t)

  abbrev AgreePayload : MaybeValue → MaybeTy → Type 0
  AgreePayload v m =
      Agree (encode_payload p core_name types v m) (encode_val_payload p core_name host v m)

  abbrev AgreeList : ℕ → Values → Ty → Type 0
  AgreeList i vs t =
      Agree (encode_list p core_name types vs t) (encode_val_list p core_name host i vs t)

  -- What a tuple or a record needs is that there are as many parts as types.
  abbrev AgreeTuple : ℕ → Values → Tys → Type 0
  AgreeTuple i vs ts =
      (size vs ≡ num_tys ts)
      × Agree (encode_tuple p core_name types vs ts) (encode_val_tuple p core_name host i vs ts)

  abbrev AgreeRecord : ℕ → Fields → FieldTys → Type 0
  AgreeRecord i fs ts =
      (num_fields fs ≡ num_field_tys ts)
      × Agree (encode_record p core_name types fs ts) (encode_val_record p core_name host i fs ts)

  both_num : (k : NumTy) (n : ℕ) → AgreeVal (num k n) (number k)
  unfolding encode_value encode_val
  both_num k n = (p.put k n, refl, rw (same_num_lem k) refl)

  both_str : (s : Bytes) → length s < u32_mod → AgreeVal (str s) text
  unfolding encode_value encode_val
  both_str s l = (
    leb.encode (length s) ++ s,
    core_name.encode_lem s [] l,
    rw (core_name.encode_lem s [] l) refl,
  )

  both_list :
      (vs : Values) (t : Ty) → size vs < u32_mod → AgreeList 0 vs t → AgreeVal (list vs) (list_of t)
  unfolding encode_value encode_val
  both_list vs t l (b, w, w') =
      let c = lt→ltb (size vs) u32_mod l in
      (
        leb.encode (size vs) ++ b,
        rw (c, types.list_element_type-list_of t, w) refl,
        rw (c, w') refl,
      )

  both_tuple : (vs : Values) (ts : Tys) → AgreeTuple 0 vs ts → AgreeVal (tuple vs) (tuple_of ts)
  unfolding encode_value encode_val
  both_tuple vs ts (e, (b, w, w')) = (
    b,
    ap (encode_tuple p core_name types vs) (types.tuple_element_types-tuple_of ts) ∙ w,
    rw (w') (ground arith),
  )

  both_record :
      (fs : Fields) (ts : FieldTys) → AgreeRecord 0 fs ts → AgreeVal (fields fs) (record_of ts)
  unfolding encode_value encode_val
  both_record fs ts (e, (b, w, w')) = (
    b,
    ap (encode_record p core_name types fs) (types.record_fields-record_of ts) ∙ w,
    rw (w') (ground arith),
  )

  both_variant :
      (name : Bytes) (v : MaybeValue) (cases : CaseTys) (d : ℕ) (m : MaybeTy)
      → variant_discriminant cases name ≡ ok (d, m)
      → AgreePayload v m
      → AgreeVal (variant name v) (variant_of cases)
  unfolding encode_value encode_val
  both_variant name v cases d m found (b, w, w') = (
    leb.encode d ++ b,
    rw (types.variant_cases-variant_of cases, found, w) refl,
    rw (found, w') refl,
  )

  both_enum :
      (name : Bytes) (names : List Bytes) (d : ℕ)
      → enum_discriminant names name ≡ ok d
      → AgreeVal (enum name) (enum_of names)
  unfolding encode_value encode_val
  both_enum name names d found =
      (leb.encode d, rw (types.enum_cases-enum_of names, found) refl, rw (found) refl)

  both_none : (t : Ty) → AgreeVal (option no_value) (option_of t)
  unfolding encode_value encode_val
  both_none t = (0 ∷ [], refl, refl)

  both_some : (v : Value) (t : Ty) → AgreeVal v t → AgreeVal (option (some_value v)) (option_of t)
  unfolding encode_value encode_val
  both_some v t (b, w, w') = (1 ∷ b, rw (types.option_some_type-option_of t, w) refl, rw (w') refl)

  both_ok :
      (v : MaybeValue) (m o : MaybeTy) → AgreePayload v m → AgreeVal (result_ok v) (result_of m o)
  unfolding encode_value encode_val
  both_ok v m o (b, w, w') = (0 ∷ b, rw (types.result_types-result_of m o, w) refl, rw (w') refl)

  both_err :
      (v : MaybeValue) (m o : MaybeTy) → AgreePayload v m → AgreeVal (result_err v) (result_of o m)
  unfolding encode_value encode_val
  both_err v m o (b, w, w') = (1 ∷ b, rw (types.result_types-result_of o m, w) refl, rw (w') refl)

  both_flags : (fs names : List Bytes) → AgreeVal (flags fs) (flags_of names)
  unfolding encode_value encode_val
  both_flags fs names = (put_flags names fs, rw (types.flags_names-flags_of names) refl, refl)

  both_payload : (v : Value) (t : Ty) → AgreeVal v t → AgreePayload (some_value v) (some_ty t)
  unfolding encode_value encode_val
  both_payload v t h = h

  both_no_payload : AgreePayload no_value no_ty
  unfolding encode_value encode_val
  both_no_payload = ([], refl, refl)

  both_list-nil : (i : ℕ) (t : Ty) → AgreeList i no_values t
  unfolding encode_value encode_val
  both_list-nil i t = ([], refl, refl)

  both_tuple-nil : (i : ℕ) → AgreeTuple i no_values no_tys
  unfolding encode_value encode_val
  both_tuple-nil i = (refl, ([], refl, refl))

  both_record-nil : (i : ℕ) → AgreeRecord i no_fields no_field_tys
  unfolding encode_value encode_val
  both_record-nil i = (refl, ([], refl, refl))

  both_list-cons :
      (i : ℕ) (v : Value) (vs : Values) (t : Ty)
      → AgreeVal v t
      → AgreeList (suc i) vs t
      → AgreeList i (value v vs) t
  unfolding encode_value encode_val index_writes
  both_list-cons i v vs t (b, w, w') (c, x, x') = (b ++ c, rw (w, x) refl, rw (w', x') refl)

  both_tuple-cons :
      (i : ℕ) (v : Value) (vs : Values) (t : Ty) (ts : Tys)
      → AgreeVal v t
      → AgreeTuple (suc i) vs ts
      → AgreeTuple i (value v vs) (ty t ts)
  unfolding encode_value encode_val index_writes
  both_tuple-cons i v vs t ts (b, w, w') (e, (c, x, x')) =
      (ap suc e, (b ++ c, rw (w, x) refl, rw (w', x') refl))

  both_record-cons :
      (i : ℕ) (n : Bytes) (v : Value) (fs : Fields) (t : Ty) (ts : FieldTys)
      → AgreeVal v t
      → AgreeRecord (suc i) fs ts
      → AgreeRecord i (entry n v fs) (field_ty n t ts)
  unfolding encode_value encode_val index_writes
  both_record-cons i n v fs t ts (b, w, w') (e, (c, x, x')) =
      (ap suc e, (b ++ c, rw (w, x) refl, rw (w', x') refl))

  mutual
    both_all : (v : Value) (t : Ty) → HasType p false v t → AgreeVal v t
    both_all (num k n) t (e, h) = rw (e) (both_num k n)
    both_all (str s) t (e, u, l) = rw (e) (both_str s l)
    both_all (list vs) t (a, e, l, h) = rw (e) (both_list vs a l (both_elements 0 vs a h))
    both_all (fields fs) t (ts, e, h) = rw (e) (both_record fs ts (both_fields 0 fs ts h))
    both_all (tuple vs) t (ts, e, h) = rw (e) (both_tuple vs ts (both_parts 0 vs ts h))
    both_all (variant name v) t (cases, d, m, e, found, h) =
        rw (e) (both_variant name v cases d m found (both_maybe v m h))
    both_all (enum name) t (names, d, e, found) = rw (e) (both_enum name names d found)
    both_all (option no_value) t (a, e, h) = rw (e) (both_none a)
    both_all (option (some_value v)) t (a, e, h) = rw (e) (both_some v a (both_all v a h))
    both_all (result_ok v) t (m, o, e, h) = rw (e) (both_ok v m o (both_maybe v m h))
    both_all (result_err v) t (m, o, e, h) = rw (e) (both_err v m o (both_maybe v m h))
    both_all (flags fs) t (names, e, k) = rw (e) (both_flags fs names)
    both_all (future source) t (m, e, sync, h, k) = cc
    both_all (stream source) t (a, e, sync, h, k) = cc

    both_maybe : (v : MaybeValue) (m : MaybeTy) → HasMaybeType p false v m → AgreePayload v m
    both_maybe no_value m e = rw (e) both_no_payload
    both_maybe (some_value v) m (t, e, h) = rw (e) (both_payload v t (both_all v t h))

    both_elements : (i : ℕ) (vs : Values) (t : Ty) → AllHaveType p false vs t → AgreeList i vs t
    both_elements i no_values t h = both_list-nil i t
    both_elements i (value v vs) t (h, k) =
        both_list-cons i v vs t (both_all v t h) (both_elements (suc i) vs t k)

    both_parts : (i : ℕ) (vs : Values) (ts : Tys) → HasTypes p false vs ts → AgreeTuple i vs ts
    both_parts i no_values ts e = rw (e) (both_tuple-nil i)
    both_parts i (value v vs) ts (t, later, e, h, k) =
        rw (e) (both_tuple-cons i v vs t later (both_all v t h) (both_parts (suc i) vs later k))

    both_fields :
        (i : ℕ) (fs : Fields) (ts : FieldTys) → HasFieldTypes p false fs ts → AgreeRecord i fs ts
    both_fields i no_fields ts e = rw (e) (both_record-nil i)
    both_fields i (entry n v fs) ts (t, later, e, h, k) =
        rw (e) (both_record-cons i n v fs t later (both_all v t h) (both_fields (suc i) fs later k))

  -- For a value of its type without futures and streams, the two encoders write the same bytes,
  -- and nothing is deferred.
  pub encode_val-encode_value :
      (v : Value) (t : Ty)
      → HasType p false v t
      → (b : Bytes) × (encode_value p core_name types v t ≡ ok b)
        × (encode_val p core_name host v t ≡ ok (b, []))
  encode_val-encode_value v t h = both_all v t h
