-- ===== src/Values/Wave/Parts.antt =====
-- The parts of values: one after the other.
use wrpc.Prelude.{suc, refl, [], ◌++◌, append_assoc, Bytes}
use wrpc.Leb128.{Leb128, ReadLeb128}
use wrpc.Reader.{Reader}
use wrpc.Frame.Header.{CoreName}
use wrpc.Values.{
  Ty, Tys, FieldTys, Value, Values, Fields, size, no_ty, some_ty, no_tys, ty, no_field_tys,
  field_ty, no_value, some_value, no_values, value, no_fields, entry,
}
use wrpc.Values.Prims.{Prims}
use wrpc.Values.Reads.{Carried}
use wrpc.Values.Wave.{
  encode_value, encode_list, encode_tuple, encode_record, encode_payload, read_list, read_value,
  read_payload, read_tuple, read_record,
}
use wrpc.Values.Wave.Types.{WasmType}

module _ {leb : Leb128} (p : Prims leb) (core_name : CoreName leb) (leb_reader : ReadLeb128 leb)
    (reader : Reader) (types : WasmType) where
  pub reads_list-nil :
      (e : Ty)
      → Carried
          (encode_list p core_name types no_values e)
          (read_list 0 (read_value p leb_reader reader types e))
          no_values
  unfolding encode_value read_list
  reads_list-nil e = ([], refl, λ rest. refl)

  pub reads_tuple-nil :
      Carried
        (encode_tuple p core_name types no_values no_tys)
        (read_tuple p leb_reader reader types no_tys)
        no_values
  unfolding encode_value read_value
  reads_tuple-nil = ([], refl, λ rest. refl)

  pub reads_record-nil :
      Carried
        (encode_record p core_name types no_fields no_field_tys)
        (read_record p leb_reader reader types no_field_tys)
        no_fields
  unfolding encode_value read_value
  reads_record-nil = ([], refl, λ rest. refl)

  pub reads_list-cons :
      (v : Value) (vs : Values) (e : Ty)
      → Carried (encode_value p core_name types v e) (read_value p leb_reader reader types e) v
      → Carried
          (encode_list p core_name types vs e)
          (read_list (size vs) (read_value p leb_reader reader types e))
          vs
      → Carried
          (encode_list p core_name types (value v vs) e)
          (read_list (suc (size vs)) (read_value p leb_reader reader types e))
          (value v vs)
  unfolding encode_value read_list
  reads_list-cons v vs e (b, w, r) (c, w', r') =
      (b ++ c, rw (w, w') refl, λ rest. rw (append_assoc b c rest, r (c ++ rest), r' rest) refl)

  pub reads_tuple-cons :
      (v : Value) (vs : Values) (t : Ty) (ts : Tys)
      → Carried (encode_value p core_name types v t) (read_value p leb_reader reader types t) v
      → Carried (encode_tuple p core_name types vs ts) (read_tuple p leb_reader reader types ts) vs
      → Carried
          (encode_tuple p core_name types (value v vs) (ty t ts))
          (read_tuple p leb_reader reader types (ty t ts))
          (value v vs)
  unfolding encode_value read_value
  reads_tuple-cons v vs t ts (b, w, r) (c, w', r') =
      (b ++ c, rw (w, w') refl, λ rest. rw (append_assoc b c rest, r (c ++ rest), r' rest) refl)

  pub reads_record-cons :
      (n : Bytes) (v : Value) (fs : Fields) (t : Ty) (ts : FieldTys)
      → Carried (encode_value p core_name types v t) (read_value p leb_reader reader types t) v
      → Carried
          (encode_record p core_name types fs ts)
          (read_record p leb_reader reader types ts)
          fs
      → Carried
          (encode_record p core_name types (entry n v fs) (field_ty n t ts))
          (read_record p leb_reader reader types (field_ty n t ts))
          (entry n v fs)
  unfolding encode_value read_value
  reads_record-cons n v fs t ts (b, w, r) (c, w', r') =
      (b ++ c, rw (w, w') refl, λ rest. rw (append_assoc b c rest, r (c ++ rest), r' rest) refl)

  pub reads_payload :
      (v : Value) (t : Ty)
      → Carried (encode_value p core_name types v t) (read_value p leb_reader reader types t) v
      → Carried
          (encode_payload p core_name types (some_value v) (some_ty t))
          (read_payload p leb_reader reader types (some_ty t))
          (some_value v)
  unfolding encode_value read_value
  reads_payload v t (b, w, r) = (b, w, λ rest. rw (r rest) refl)

  pub reads_no_payload :
      Carried
        (encode_payload p core_name types no_value no_ty)
        (read_payload p leb_reader reader types no_ty)
        no_value
  unfolding encode_value read_value
  reads_no_payload = ([], refl, λ rest. refl)
