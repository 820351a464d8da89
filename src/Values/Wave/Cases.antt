-- ===== src/Values/Wave/Cases.antt =====
-- The values with parts: what is written is read back, where the parts are.
use wrpc.Prelude.{
  ℕ, zero, suc, ◌+◌, ◌/◌, ◌≡◌, ◌<◌, refl, ap, sym, ◌∙◌, max, arith, true, List, [], ◌∷◌, ◌++◌, some,
  Bytes, Result, ok, ◌>>=◌, length, u32_mod, lt→ltb,
}
use wrpc.Leb128.{Leb128, ReadLeb128}
use wrpc.Reader.{Reader}
use wrpc.Frame.Header.{CoreName}
use wrpc.Values.{
  Ty, MaybeTy, Tys, FieldTys, CaseTys, Value, MaybeValue, Values, Fields, size, number, text,
  list_of, record_of, tuple_of, variant_of, enum_of, option_of, result_of, flags_of, no_case_tys,
  case_ty, num, str, list, fields, tuple, variant, enum, option, result_ok, result_err, flags,
  no_value, some_value,
}
use wrpc.Values.Prims.{Prims}
use wrpc.Values.Reads.{Reads, Carried, Reads-then}
use wrpc.Values.Flags.{put_flags, flags_size, kept}
use wrpc.Values.Flags.RoundTrip.{marked-put_flags, length-put_flags}
use wrpc.Values.Discriminants.{
  get_case, enum_discriminant, variant_discriminant, get_name-enum_discriminant,
  get_case-variant_discriminant,
}
use wrpc.Values.Wave.{
  encode_value, encode_list, encode_tuple, encode_record, encode_payload, read_list, read_optional,
  make, read_value, read_payload, read_tuple, read_record, read_case,
}
use wrpc.Values.Wave.Types.{WasmType}

-- The number of bytes that is read for flags is the number that is written.
flags_size_lem : (n : ℕ) → flags_size n ≡ max ((n + 7) / 8) 1
unfolding flags_size
flags_size_lem n = ground arith

module _ {leb : Leb128} (p : Prims leb) (core_name : CoreName leb) (leb_reader : ReadLeb128 leb)
    (reader : Reader) (types : WasmType) where
  abbrev pub encode : Value → Ty → Result Bytes
  encode = encode_value p core_name types

  abbrev pub read : Ty → Bytes → Result (Value × Bytes)
  read = read_value p leb_reader reader types

  Reads-read_u32 : (n : ℕ) → n < u32_mod → Reads (leb.encode n) leb_reader.read_u32 n
  Reads-read_u32 n h rest =
      leb_reader.read_u32-got (leb.encode n ++ rest) n rest (leb.decode-encode n rest h)

  -- Making the value that was read.
  Reads-make :
      {A : Type 0} (b : Bytes) (parts : Bytes → Result (A × Bytes)) (t : Ty) (f : A → Value) (a : A)
      → Reads b parts a
      → types.make t (f a) ≡ some (f a)
      → Reads b
          (λ rx. parts rx >>= λ got. make p leb_reader reader types t (f (got.0)) (got.1))
          (f a)
  unfolding make
  Reads-make b parts t f a h m rest = rw (h rest, m) refl

  pub reads_num :
      (k : _) (n : ℕ)
      → p.fits k n ≡ true
      → Carried (encode (num k n) (number k)) (read (number k)) (num k n)
  unfolding encode_value read_value
  reads_num k n h = (p.put k n, refl, λ rest. rw (p.read-put k n rest h) refl)

  pub reads_str :
      (s : Bytes)
      → p.utf8 s ≡ true
      → length s < u32_mod
      → Carried (encode (str s) text) (read text) (str s)
  unfolding encode_value read_value
  reads_str s u l = (
    leb.encode (length s) ++ s,
    core_name.encode_lem s [] l,
    λ rest. rw (p.read_core_name_lem s rest u l) refl,
  )

  pub reads_list :
      (vs : Values) (e : Ty)
      → size vs < u32_mod
      → types.make (list_of e) (list vs) ≡ some (list vs)
      → Carried (encode_list p core_name types vs e) (read_list (size vs) (read e)) vs
      → Carried (encode (list vs) (list_of e)) (read (list_of e)) (list vs)
  unfolding encode_value read_value
  reads_list vs e l m (b, w, r) = (
    leb.encode (size vs) ++ b,
    rw (lt→ltb (size vs) u32_mod l, types.list_element_type-list_of e, w) refl,
    Reads-then (leb.encode (size vs)) b leb_reader.read_u32
        (λ n rx. read_list n (read e) rx >>= λ got.
          make p leb_reader reader types (list_of e) (list (got.0)) (got.1))
        (size vs) (list vs) (Reads-read_u32 (size vs) l)
        (Reads-make b (read_list (size vs) (read e)) (list_of e) list vs r m),
  )

  pub reads_fields :
      (fs : Fields) (ts : FieldTys)
      → types.make (record_of ts) (fields fs) ≡ some (fields fs)
      → Carried
          (encode_record p core_name types fs ts)
          (read_record p leb_reader reader types ts)
          fs
      → Carried (encode (fields fs) (record_of ts)) (read (record_of ts)) (fields fs)
  unfolding encode_value read_value
  reads_fields fs ts m (b, w, r) = (
    b,
    ap (encode_record p core_name types fs) (types.record_fields-record_of ts) ∙ w,
    Reads-make b (read_record p leb_reader reader types ts) (record_of ts) fields fs r m,
  )

  pub reads_tuple :
      (vs : Values) (ts : Tys)
      → types.make (tuple_of ts) (tuple vs) ≡ some (tuple vs)
      → Carried (encode_tuple p core_name types vs ts) (read_tuple p leb_reader reader types ts) vs
      → Carried (encode (tuple vs) (tuple_of ts)) (read (tuple_of ts)) (tuple vs)
  unfolding encode_value read_value
  reads_tuple vs ts m (b, w, r) = (
    b,
    ap (encode_tuple p core_name types vs) (types.tuple_element_types-tuple_of ts) ∙ w,
    Reads-make b (read_tuple p leb_reader reader types ts) (tuple_of ts) tuple vs r m,
  )

  read_case-get_case :
      (cases : CaseTys) (d : ℕ) (name : Bytes) (m : MaybeTy) (rx : Bytes)
      → get_case cases d ≡ some (name, m)
      → read_case p leb_reader reader types cases d rx
        ≡ (read_payload p leb_reader reader types m rx >>= λ got. ok ((name, got.0), got.1))
  unfolding read_value get_case
  read_case-get_case no_case_tys d name m rx h = cc
  read_case-get_case (case_ty n k cases) zero name m rx h =
      let e : n ≡ name = cc in let e' : k ≡ m = cc in rw (e, e') refl
  read_case-get_case (case_ty n k cases) (suc d) name m rx h =
      read_case-get_case cases d name m rx h

  pub reads_variant :
      (name : Bytes) (v : MaybeValue) (cases : CaseTys) (d : ℕ) (m : MaybeTy)
      → variant_discriminant cases name ≡ ok (d, m)
      → types.make (variant_of cases) (variant name v) ≡ some (variant name v)
      → Carried (encode_payload p core_name types v m) (read_payload p leb_reader reader types m) v
      → Carried
          (encode (variant name v) (variant_of cases))
          (read (variant_of cases))
          (variant name v)
  unfolding encode_value read_value
  reads_variant name v cases d m found made (b, w, r) =
      let (l, at) = get_case-variant_discriminant cases name d m found in
      let r' : Reads b (read_case p leb_reader reader types cases d) (name, v) =
        λ rest. read_case-get_case cases d name m (b ++ rest) at ∙ rw (r rest) refl in
      let make_case : (Bytes × MaybeValue) → Value = λ c. variant (c.0) (c.1) in
      (
        leb.encode d ++ b,
        rw (types.variant_cases-variant_of cases, found, w) refl,
        Reads-then (leb.encode d) b leb_reader.read_u32
            (λ n rx. read_case p leb_reader reader types cases n rx >>= λ got.
              make p leb_reader reader types (variant_of cases) (make_case (got.0)) (got.1))
            d (variant name v) (Reads-read_u32 d l)
            (Reads-make b (read_case p leb_reader reader types cases d) (variant_of cases) make_case
              (name, v) r' made),
      )

  pub reads_enum :
      (name : Bytes) (names : List Bytes) (d : ℕ)
      → enum_discriminant names name ≡ ok d
      → types.make (enum_of names) (enum name) ≡ some (enum name)
      → Carried (encode (enum name) (enum_of names)) (read (enum_of names)) (enum name)
  unfolding encode_value read_value make
  reads_enum name names d found made =
      let (l, at) = get_name-enum_discriminant names name d found in
      (
        leb.encode d,
        rw (types.enum_cases-enum_of names, found) refl,
        λ rest. rw (Reads-read_u32 d l rest, at, made) refl,
      )

  pub reads_none :
      (t : Ty)
      → types.make (option_of t) (option no_value) ≡ some (option no_value)
      → Carried (encode (option no_value) (option_of t)) (read (option_of t)) (option no_value)
  unfolding encode_value read_value make read_optional
  reads_none t made = (0 ∷ [], refl, λ rest. rw (p.read_option_status-none rest, made) refl)

  pub reads_some :
      (v : Value) (t : Ty)
      → types.make (option_of t) (option (some_value v)) ≡ some (option (some_value v))
      → Carried (encode v t) (read t) v
      → Carried
          (encode (option (some_value v)) (option_of t))
          (read (option_of t))
          (option (some_value v))
  unfolding encode_value read_value make read_optional
  reads_some v t made (b, w, r) = (
    1 ∷ b,
    rw (types.option_some_type-option_of t, w) refl,
    λ rest. rw (p.read_option_status-some (b ++ rest), r rest, made) refl,
  )

  pub reads_ok :
      (v : MaybeValue) (m o : MaybeTy)
      → types.make (result_of m o) (result_ok v) ≡ some (result_ok v)
      → Carried (encode_payload p core_name types v m) (read_payload p leb_reader reader types m) v
      → Carried (encode (result_ok v) (result_of m o)) (read (result_of m o)) (result_ok v)
  unfolding encode_value read_value make
  reads_ok v m o made (b, w, r) = (
    0 ∷ b,
    rw (types.result_types-result_of m o, w) refl,
    λ rest. rw (p.read_result_status-ok (b ++ rest), r rest, made) refl,
  )

  pub reads_err :
      (v : MaybeValue) (m o : MaybeTy)
      → types.make (result_of o m) (result_err v) ≡ some (result_err v)
      → Carried (encode_payload p core_name types v m) (read_payload p leb_reader reader types m) v
      → Carried (encode (result_err v) (result_of o m)) (read (result_of o m)) (result_err v)
  unfolding encode_value read_value make
  reads_err v m o made (b, w, r) = (
    1 ∷ b,
    rw (types.result_types-result_of o m, w) refl,
    λ rest. rw (p.read_result_status-err (b ++ rest), r rest, made) refl,
  )

  pub reads_flags :
      (fs names : List Bytes)
      → kept fs names ≡ fs
      → types.make (flags_of names) (flags fs) ≡ some (flags fs)
      → Carried (encode (flags fs) (flags_of names)) (read (flags_of names)) (flags fs)
  unfolding encode_value read_value make
  reads_flags fs names k made =
      let b = put_flags names fs in
      let n : max ((length names + 7) / 8) 1 ≡ length b =
        sym (length-put_flags names fs ∙ flags_size_lem (length names)) in
      (
        b,
        rw (types.flags_names-flags_of names) refl,
        λ rest. rw (n, reader.read_exact-append b rest, marked-put_flags names fs, k, made) refl,
      )
