-- ===== src/Values/Runtime/Cases.antt =====
-- The values with parts: what is written is read back, where the parts are.
use wrpc.Prelude.{
  ℕ, zero, suc, ◌<◌, ◌≡◌, refl, true, List, [], ◌++◌, append_assoc, some, Bytes, Result, ok, ◌>>=◌,
  lt→ltb, length, u32_mod, arith,
}
use wrpc.Leb128.{Leb128, ReadLeb128}
use wrpc.Reader.{Reader}
use wrpc.Frame.Header.{CoreName}
use wrpc.Values.{
  NumTy, Ty, MaybeTy, Tys, FieldTys, CaseTys, MaybeValue, Values, Fields, size, num_tys, num_fields,
  num_field_tys, number, text, list_of, record_of, tuple_of, variant_of, enum_of, no_case_tys,
  case_ty, num, str, list, fields, tuple, variant, enum,
}
use wrpc.Values.Prims.{Prims}
use wrpc.Values.Discriminants.{
  get_case, enum_discriminant, variant_discriminant, get_name-enum_discriminant,
  get_case-variant_discriminant,
}
use wrpc.Values.Runtime.Handles.{Host}
use wrpc.Values.Runtime.Encoder.{encode_val, encode_val_list, encode_val_tuple, encode_val_record}
use wrpc.Values.Runtime.Decoder.{
  read_elements, read_val, read_val_payload, read_val_tuple, read_val_record, read_val_case,
}
use wrpc.Values.Runtime.Paths.{
  sources, sources_list, sources_record, located, located_list, located_record,
}
use wrpc.Values.Runtime.Sent.{Sent, SentVal, SentPayload, read, Reads-read_u32, same_num_lem}

module _ {leb : Leb128} (p : Prims leb) (core_name : CoreName leb) (leb_reader : ReadLeb128 leb)
    (reader : Reader) (host : Host) (index : List ℕ → Result (List ℕ)) where
  pub got_num :
      (k : NumTy) (n : ℕ)
      → p.fits k n ≡ true
      → SentVal p core_name leb_reader reader host index (num k n) (number k)
  unfolding encode_val read_val sources located
  got_num k n h =
      (p.put k n, rw (same_num_lem k) refl, λ path o rest. rw (p.read-put k n rest h) refl)

  pub got_str :
      (s : Bytes)
      → p.utf8 s ≡ true
      → length s < u32_mod
      → SentVal p core_name leb_reader reader host index (str s) text
  unfolding encode_val read_val sources located
  got_str s u l = (
    leb.encode (length s) ++ s,
    rw (core_name.encode_lem s [] l) refl,
    λ path o rest. rw (p.read_core_name_lem s rest u l) refl,
  )

  pub got_list :
      (vs : Values) (t : Ty)
      → size vs < u32_mod
      → Sent index
          (encode_val_list p core_name host 0 vs t)
          (λ path. sources_list path 0 vs)
          (read_elements 0 (size vs) (read p core_name leb_reader reader host index t))
          (λ path. located_list path 0 vs)
      → SentVal p core_name leb_reader reader host index (list vs) (list_of t)
  unfolding encode_val read_val sources located
  got_list vs t l (b, w, r) = (
    leb.encode (size vs) ++ b,
    rw (lt→ltb (size vs) u32_mod l, w) refl,
    λ path o rest.
        rw
          (
            append_assoc (leb.encode (size vs)) b rest,
            Reads-read_u32 p core_name leb_reader reader host index (size vs) l (b ++ rest),
            r path o rest,
          )
          refl,
  )

  pub got_record :
      (fs : Fields) (ts : FieldTys)
      → num_fields fs ≡ num_field_tys ts
      → Sent index
          (encode_val_record p core_name host 0 fs ts)
          (λ path. sources_record path 0 fs)
          (read_val_record p leb_reader reader host index 0 ts)
          (λ path. located_record path 0 fs)
      → SentVal p core_name leb_reader reader host index (fields fs) (record_of ts)
  unfolding encode_val read_val sources located
  got_record fs ts e (b, w, r) = (b, rw (w) (ground arith), λ path o rest. rw (r path o rest) refl)

  pub got_tuple :
      (vs : Values) (ts : Tys)
      → size vs ≡ num_tys ts
      → Sent index
          (encode_val_tuple p core_name host 0 vs ts)
          (λ path. sources_list path 0 vs)
          (read_val_tuple p leb_reader reader host index 0 ts)
          (λ path. located_list path 0 vs)
      → SentVal p core_name leb_reader reader host index (tuple vs) (tuple_of ts)
  unfolding encode_val read_val sources located
  got_tuple vs ts e (b, w, r) = (b, rw (w) (ground arith), λ path o rest. rw (r path o rest) refl)

  read_val_case-get_case :
      (cases : CaseTys) (d : ℕ) (name : Bytes) (m : MaybeTy) (path : List ℕ) (rx : Bytes)
      → get_case cases d ≡ some (name, m)
      → read_val_case p leb_reader reader host index cases d path rx ≡ (
          read_val_payload p leb_reader reader host index m path rx >>= λ got.
          ok ((name, got.0), got.1))
  unfolding read_val get_case
  read_val_case-get_case no_case_tys d name m path rx h = cc
  read_val_case-get_case (case_ty n k cases) zero name m path rx h =
      let e : n ≡ name = cc in let e' : k ≡ m = cc in rw (e, e') refl
  read_val_case-get_case (case_ty n k cases) (suc d) name m path rx h =
      read_val_case-get_case cases d name m path rx h

  pub got_variant :
      (name : Bytes) (v : MaybeValue) (cases : CaseTys) (d : ℕ) (m : MaybeTy)
      → variant_discriminant cases name ≡ ok (d, m)
      → SentPayload p core_name leb_reader reader host index v m
      → SentVal p core_name leb_reader reader host index (variant name v) (variant_of cases)
  unfolding encode_val read_val sources located
  got_variant name v cases d m found (b, w, r) =
      let (l, at) = get_case-variant_discriminant cases name d m found in
      (
        leb.encode d ++ b,
        rw (found, w) refl,
        λ path o rest.
            rw
              (
                append_assoc (leb.encode d) b rest,
                Reads-read_u32 p core_name leb_reader reader host index d l (b ++ rest),
                read_val_case-get_case cases d name m path (b ++ rest) at,
                r path o rest,
              )
              refl,
      )

  pub got_enum :
      (name : Bytes) (names : List Bytes) (d : ℕ)
      → enum_discriminant names name ≡ ok d
      → SentVal p core_name leb_reader reader host index (enum name) (enum_of names)
  unfolding encode_val read_val sources located
  got_enum name names d found =
      let (l, at) = get_name-enum_discriminant names name d found in
      (
        leb.encode d,
        rw (found) refl,
        λ path o rest.
            rw (Reads-read_u32 p core_name leb_reader reader host index d l rest, at) refl,
      )
