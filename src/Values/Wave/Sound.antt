-- ===== src/Values/Wave/Sound.antt =====
-- What `read_value` of crates/wave/src/decode.rs returns, whatever the bytes are.
use wrpc.Prelude.{
  ℕ, zero, suc, ◌+◌, ◌/◌, ◌<◌, ◌≡◌, refl, sym, subst, ◌==◌, max, arith, false, some, Bytes, Result,
  ok, err, bind_ok, length, u32_mod, invalid_data, if◌then◌else◌,
}
use wrpc.Leb128.{Leb128, ReadLeb128}
use wrpc.Reader.{Reader}
use wrpc.Values.{
  Ty, MaybeTy, Tys, FieldTys, CaseTys, Value, MaybeValue, Values, Fields, number, text, list_of,
  record_of, tuple_of, variant_of, enum_of, option_of, result_of, flags_of, future_of, stream_of,
  error_context, map_of, fixed_length_list, no_ty, some_ty, no_tys, ty, no_field_tys, field_ty,
  no_case_tys, case_ty, num, str, list, fields, tuple, variant, enum, option, flags, no_value,
  some_value, no_values, value, no_fields, entry,
}
use wrpc.Values.Prims.{Prims, ReadsValid}
use wrpc.Values.Flags.{has_bit_at, marked}
use wrpc.Values.Discriminants.{or_err, get_name, get_case}
use wrpc.Values.Distinct.{
  IsDistinct, MaybeDistinct, AllDistinct, FieldsDistinct, CasesDistinct, enum_discriminant-get_name,
  variant_discriminant-get_case, kept-marked,
}
use wrpc.Values.Typing.{HasType, HasMaybeType, HasTypes, HasFieldTypes}
use wrpc.Values.Wave.{
  encode_value, decode_value, read_list, read_optional, read_value, read_payload, read_tuple,
  read_record, read_case,
}
use wrpc.Values.Wave.Trailing.{decode_value-encode_value}
use wrpc.Frame.Header.{CoreName}
use wrpc.Values.Wave.Reading.{
  or_err_ok, get_case_first, get_case_later, read_u32-lt, made, read_list-AllHaveType,
  read_optional-HasOptionalType, result_typed,
}
use wrpc.Values.Wave.Types.{WasmType}

module _ {leb : Leb128} (p : Prims leb) (valid : ReadsValid p) (leb_reader : ReadLeb128 leb)
    (reader : Reader) (types : WasmType)
    (makes : (t : Ty) (v w : Value) → types.make t v ≡ some w → w ≡ v) where
  mutual
    unfolding read_value

    typed :
        (t : Ty) (rx : Bytes) (v : Value) (rest : Bytes)
        → IsDistinct t
        → read_value p leb_reader reader types t rx ≡ ok (v, rest)
        → HasType p false v t
    typed (number k) rx v rest d e =
        let ((n, rx'), e1, k1) = bind_ok (p.read k rx) _ e in
        let same : num k n ≡ v = cc in
        subst (λ q. HasType p false q (number k)) same (refl, valid.read-fits k rx n rx' e1)
    typed text rx v rest d e =
        let ((s, rx'), e1, k1) = bind_ok (p.read_core_name rx) _ e in
        let same : str s ≡ v = cc in
        let (u, l) = valid.read_core_name-utf8 rx s rx' e1 in
        subst (λ q. HasType p false q text) same (refl, u, l)
    typed (list_of t) rx v rest d e =
        let ((n, rx'), e1, k1) = bind_ok (leb_reader.read_u32 rx) _ e in
        let ((vs, rx''), e2, k2) =
          bind_ok (read_list n (read_value p leb_reader reader types t) rx') _ k1 in
        let (l, h) =
          read_list-AllHaveType p leb_reader reader types makes n t
            (read_value p leb_reader reader types t) (λ r w z q. typed t r w z d q) rx' vs rx''
            e2 in
        made p leb_reader reader types makes (list_of t) (list vs) rx'' v rest k2
          (t, refl, subst (λ q. q < u32_mod) (sym l) (read_u32-lt leb_reader rx n rx' e1), h)
    typed (record_of ts) rx v rest d e =
        let ((fs, rx'), e1, k1) = bind_ok (read_record p leb_reader reader types ts rx) _ e in
        made p leb_reader reader types makes (record_of ts) (fields fs) rx' v rest k1
          (ts, refl, typed_fields ts rx fs rx' d e1)
    typed (tuple_of ts) rx v rest d e =
        let ((vs, rx'), e1, k1) = bind_ok (read_tuple p leb_reader reader types ts rx) _ e in
        made p leb_reader reader types makes (tuple_of ts) (tuple vs) rx' v rest k1
          (ts, refl, typed_parts ts rx vs rx' d e1)
    typed (variant_of cases) rx v rest d e =
        let ((n, rx'), e1, k1) = bind_ok (leb_reader.read_u32 rx) _ e in
        let (((name, m), rx''), e2, k2) =
          bind_ok (read_case p leb_reader reader types cases n rx') _ k1 in
        let (t, at, h) = typed_case cases n rx' name m rx'' d.2 e2 in
        made p leb_reader reader types makes (variant_of cases) (variant name m) rx'' v rest k2
          (cases, n, t, refl, variant_discriminant-get_case cases n name t d.0 d.1 at, h)
    typed (enum_of names) rx v rest d e =
        let ((n, rx'), e1, k1) = bind_ok (leb_reader.read_u32 rx) _ e in
        let (name, e2, k2) = bind_ok (or_err invalid_data (get_name names n)) _ k1 in
        made p leb_reader reader types makes (enum_of names) (enum name) rx' v rest k2 (
          names,
          n,
          refl,
          enum_discriminant-get_name names n name d.0 d.1
              (or_err_ok invalid_data (get_name names n) name e2),
        )
    typed (option_of t) rx v rest d e =
        let ((b, rx'), e1, k1) = bind_ok (p.read_option_status rx) _ e in
        let ((m, rx''), e2, k2) =
          bind_ok (read_optional b (read_value p leb_reader reader types t) rx') _ k1 in
        made p leb_reader reader types makes (option_of t) (option m) rx'' v rest k2 (
          t,
          refl,
          read_optional-HasOptionalType p leb_reader reader types makes b t
              (read_value p leb_reader reader types t) (λ r w z q. typed t r w z d q) rx' m rx'' e2,
        )
    typed (result_of o x) rx v rest d e =
        let ((b, rx'), e1, k1) = bind_ok (p.read_result_status rx) _ e in
        result_typed p leb_reader reader types makes o x b (λ r m z q. typed_payload o r m z d.0 q)
          (λ r m z q. typed_payload x r m z d.1 q) rx' v rest k1
    typed (flags_of names) rx v rest d e =
        let ((buf, rx'), e1, k1) =
          bind_ok (reader.read_exact (max ((length names + 7) / 8) 1) rx) _ e in
        made p leb_reader reader types makes (flags_of names)
          (flags (marked (λ i. has_bit_at i buf) 0 names)) rx' v rest k1
          (names, refl, kept-marked (λ i. has_bit_at i buf) 0 names d)
    typed (future_of m) rx v rest d e = cc
    typed (stream_of m) rx v rest d e = cc
    typed error_context rx v rest d e = cc
    typed map_of rx v rest d e = cc
    typed fixed_length_list rx v rest d e = cc

    typed_payload :
        (m : MaybeTy) (rx : Bytes) (v : MaybeValue) (rest : Bytes)
        → MaybeDistinct m
        → read_payload p leb_reader reader types m rx ≡ ok (v, rest)
        → HasMaybeType p false v m
    typed_payload no_ty rx no_value rest d e = refl
    typed_payload no_ty rx (some_value v) rest d e = cc
    typed_payload (some_ty t) rx v rest d e =
        let ((w, rx'), e1, k1) = bind_ok (read_value p leb_reader reader types t rx) _ e in
        let same : some_value w ≡ v = cc in
        subst (λ q. HasMaybeType p false q (some_ty t)) same (t, refl, typed t rx w rx' d e1)

    typed_parts :
        (ts : Tys) (rx : Bytes) (vs : Values) (rest : Bytes)
        → AllDistinct ts
        → read_tuple p leb_reader reader types ts rx ≡ ok (vs, rest)
        → HasTypes p false vs ts
    typed_parts no_tys rx no_values rest d e = refl
    typed_parts no_tys rx (value v vs) rest d e = cc
    typed_parts (ty t ts) rx vs rest d e =
        let ((v, rx'), e1, k1) = bind_ok (read_value p leb_reader reader types t rx) _ e in
        let ((ws, rx''), e2, k2) = bind_ok (read_tuple p leb_reader reader types ts rx') _ k1 in
        let same : value v ws ≡ vs = cc in
        subst (λ q. HasTypes p false q (ty t ts)) same
          (t, ts, refl, typed t rx v rx' d.0 e1, typed_parts ts rx' ws rx'' d.1 e2)

    typed_fields :
        (ts : FieldTys) (rx : Bytes) (fs : Fields) (rest : Bytes)
        → FieldsDistinct ts
        → read_record p leb_reader reader types ts rx ≡ ok (fs, rest)
        → HasFieldTypes p false fs ts
    typed_fields no_field_tys rx no_fields rest d e = refl
    typed_fields no_field_tys rx (entry n v fs) rest d e = cc
    typed_fields (field_ty n t ts) rx fs rest d e =
        let ((v, rx'), e1, k1) = bind_ok (read_value p leb_reader reader types t rx) _ e in
        let ((gs, rx''), e2, k2) = bind_ok (read_record p leb_reader reader types ts rx') _ k1 in
        let same : entry n v gs ≡ fs = cc in
        subst (λ q. HasFieldTypes p false q (field_ty n t ts)) same
          (t, ts, refl, typed t rx v rx' d.0 e1, typed_fields ts rx' gs rx'' d.1 e2)

    typed_case :
        (cases : CaseTys) (i : ℕ) (rx name : Bytes) (v : MaybeValue) (rest : Bytes)
        → CasesDistinct cases
        → read_case p leb_reader reader types cases i rx ≡ ok ((name, v), rest)
        → (m : MaybeTy) × (get_case cases i ≡ some (name, m)) × HasMaybeType p false v m
    typed_case no_case_tys i rx name v rest d e = cc
    typed_case (case_ty n m cases) zero rx name v rest d e =
        let ((w, rx'), e1, k1) = bind_ok (read_payload p leb_reader reader types m rx) _ e in
        let same : w ≡ v = cc in
        let named : n ≡ name = cc in
        (
          m,
          get_case_first n m cases name named,
          subst (λ q. HasMaybeType p false q m) same (typed_payload m rx w rx' d.0 e1),
        )
    typed_case (case_ty n m cases) (suc i) rx name v rest d e =
        let (k, at, h) = typed_case cases i rx name v rest d.1 e in
        (k, get_case_later n m cases i name k at, h)

  -- Whatever the bytes are: what the reader returns is a value of the type, if the cases and the
  -- flags of the type have different names, of which there are fewer than 2 ^ 32.
  pub read_value-HasType :
      (t : Ty) (rx : Bytes) (v : Value) (rest : Bytes)
      → IsDistinct t
      → read_value p leb_reader reader types t rx ≡ ok (v, rest)
      → HasType p false v t
  read_value-HasType t rx v rest d e = typed t rx v rest d e

  -- If the cases and the flags of the type have different names, of which there are fewer than
  -- 2 ^ 32: what was decoded from any bytes is encoded, and decoding those bytes gives it again.
  pub decode_value-again :
      (core_name : CoreName leb)
      → ((v : Value) (t : Ty) → HasType p false v t → types.make t v ≡ some v)
      → (t : Ty) (buf : Bytes) (v : Value) → IsDistinct t
      → decode_value p leb_reader reader types buf t ≡ ok v
      → (b : Bytes) × (encode_value p core_name types v t ≡ ok b)
        × (decode_value p leb_reader reader types b t ≡ ok v)
  unfolding decode_value
  decode_value-again core_name makes_typed t buf v d e =
      let ((w, rest), e1, k1) = bind_ok (read_value p leb_reader reader types t buf) _ e in
      let same : w ≡ v = whole w (length rest) k1 in
      let h = subst (λ q. HasType p false q t) same (typed t buf w rest d e1) in
      let (b, x, y, z) =
        decode_value-encode_value p core_name leb_reader reader types makes_typed v t h in
      (b, x, y)
    where
      whole :
          (w : Value) (n : ℕ) → (if n == 0 then Result.ok w else err invalid_data) ≡ ok v → w ≡ v
      whole w n k = ground arith
