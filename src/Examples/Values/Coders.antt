-- ===== src/Examples/Values/Coders.antt =====
-- Coders of primitive values, types and handles that meet the interfaces: small numbers are one
-- byte, and the others a variable-length number.
use wrpc.Prelude.{
  ℕ, ◌<◌, ◌≤◌, ◌≡◌, refl, ◌==◌, Bool, true, false, List, [], ◌∷◌, ◌++◌, append_assoc, Option, none,
  some, Bytes, Result, ok, err, ◌>>=◌, invalid_data, invalid_input, unexpected_eof, if◌then◌else◌,
  ltb, ltb→lt, lt→ltb, bind_ok, subst, sym, length, u32_mod, arith, Bool-cases, inl, inr,
}
use wrpc.Leb128.Varint.{varint, read_varint}
use wrpc.Reader.{slice_exact, slice_exact-append, slice_exact_takes}
use wrpc.Frame.Header.{CoreName}
use wrpc.Values.{
  NumTy, bool, s8, u8, Ty, MaybeTy, Tys, FieldTys, CaseTys, list_of, record_of, tuple_of,
  variant_of, enum_of, option_of, result_of, flags_of, no_ty, some_ty, no_tys, no_field_tys,
  no_case_tys,
}
use wrpc.Values.Prims.{Prims, ReadsValid}
use wrpc.Values.Wave.Reading.{read_u32-lt}
use wrpc.Values.Wave.Types.{WasmType}
use wrpc.Values.Runtime.Handles.{Host}

abbrev one_byte : NumTy → Bool
one_byte bool = true
one_byte s8 = true
one_byte u8 = true
one_byte k = false

abbrev fits_num : NumTy → ℕ → Bool
fits_num k n = if one_byte k then ltb n 256 else ltb n u32_mod

abbrev put_num : NumTy → ℕ → Bytes
put_num k n = if one_byte k then n ∷ [] else varint.encode n

abbrev read_byte : Bytes → Result (ℕ × Bytes)
read_byte [] = err unexpected_eof
read_byte (b ∷ rest) = if ltb b 256 then ok (b, rest) else err invalid_data

abbrev read_num : NumTy → Bytes → Result (ℕ × Bytes)
read_num k rx = if one_byte k then read_byte rx else read_varint.read_u32 rx

pub read_num-put_num :
    (k : NumTy) (n : ℕ) (rest : Bytes)
    → fits_num k n ≡ true
    → read_num k (put_num k n ++ rest) ≡ ok (n, rest)
read_num-put_num k n rest h = elim (Bool-cases (one_byte k)) [
  | inl e ↦ let small : ltb n 256 ≡ true = ground arith in rw (e, small) refl
  | inr e ↦
      let small : n < u32_mod = ltb→lt n u32_mod (ground arith) in
      rw (e) (
        read_varint.read_u32-got (varint.encode n ++ rest) n rest
          (varint.decode-encode n rest small))
]

abbrev read_text : Bytes → Result (Bytes × Bytes)
read_text rx = do (n, rx') ← read_varint.read_u32 rx; slice_exact n rx'

pub read_text_lem :
    (s rest : Bytes)
    → true ≡ true
    → length s < u32_mod
    → read_text ((varint.encode (length s) ++ s) ++ rest) ≡ ok (s, rest)
read_text_lem s rest u h =
    rw
      (
        append_assoc (varint.encode (length s)) s rest,
        read_varint.read_u32-got (varint.encode (length s) ++ (s ++ rest)) (length s) (s ++ rest)
            (varint.decode-encode (length s) (s ++ rest) h),
      )
      (slice_exact-append s rest)

-- A status byte is 0 or 1.
abbrev read_status : Bool → Bytes → Result (Bool × Bytes)
read_status zero_is [] = err unexpected_eof
read_status zero_is (b ∷ rest) =
    if b == 0
    then ok (zero_is, rest)
    else (if b == 1 then ok ((if zero_is then false else true), rest) else err invalid_data)

unfoldable pub prims : Prims varint
prims = record {
  fits = fits_num;
  put = put_num;
  read = read_num;
  read-put = read_num-put_num;
  utf8 = λ s. true;
  read_core_name = read_text;
  read_core_name_lem = read_text_lem;
  read_option_status = read_status false;
  read_option_status-none = λ rest. refl;
  read_option_status-some = λ rest. refl;
  read_result_status = read_status true;
  read_result_status-ok = λ rest. refl;
  read_result_status-err = λ rest. refl;
}

fits_read_num :
    (k : NumTy) (src : Bytes) (n : ℕ) (rest : Bytes)
    → read_num k src ≡ ok (n, rest)
    → fits_num k n ≡ true
fits_read_num k src n rest h = elim (Bool-cases (one_byte k)) [
  | inl e ↦ rw (e) (fits_byte src (rw (e) at h))
  | inr e ↦ rw (e) (lt→ltb n u32_mod (read_u32-lt read_varint src n rest (rw (e) at h)))
]
  where
    fits_byte : (rx : Bytes) → read_byte rx ≡ ok (n, rest) → ltb n 256 ≡ true
    fits_byte [] g = cc
    fits_byte (b ∷ bs) g = ground arith

read_text_short :
    (src s rest : Bytes) → read_text src ≡ ok (s, rest) → (true ≡ true) × (length s < u32_mod)
read_text_short src s rest h =
    let ((n, rx), e, k) = bind_ok (read_varint.read_u32 src) _ h in
    let (l, w) = slice_exact_takes n rx s rest k in
    (refl, subst (λ q. q < u32_mod) (sym l) (read_u32-lt read_varint src n rx e))

pub prims-ReadsValid : ReadsValid prims
unfolding prims
prims-ReadsValid = record { read-fits = fits_read_num; read_core_name-utf8 = read_text_short }

abbrev put_name : Bytes → Bytes → Result Bytes
put_name s dst =
    if ltb (length s) u32_mod then ok (dst ++ varint.encode (length s) ++ s) else err invalid_input

pub put_name_short :
    (s dst : Bytes)
    → length s < u32_mod
    → put_name s dst ≡ ok (dst ++ varint.encode (length s) ++ s)
put_name_short s dst h = ground arith

pub put_name_long : (s dst : Bytes) → u32_mod ≤ length s → put_name s dst ≡ err invalid_input
put_name_long s dst h = ground arith

abbrev pub core_names : CoreName varint
core_names = record { encode = put_name; encode_lem = put_name_short; encode_long = put_name_long }

abbrev element_type : Ty → MaybeTy
element_type (list_of t) = some_ty t
element_type t = no_ty

abbrev fields_of : Ty → FieldTys
fields_of (record_of ts) = ts
fields_of t = no_field_tys

abbrev elements_of : Ty → Tys
elements_of (tuple_of ts) = ts
elements_of t = no_tys

abbrev cases_of : Ty → CaseTys
cases_of (variant_of cases) = cases
cases_of t = no_case_tys

abbrev names_of : Ty → List Bytes
names_of (enum_of names) = names
names_of t = []

abbrev some_of : Ty → MaybeTy
some_of (option_of t) = some_ty t
some_of t = no_ty

abbrev results_of : Ty → Option (MaybeTy × MaybeTy)
results_of (result_of o e) = some (o, e)
results_of t = none

abbrev flag_names_of : Ty → List Bytes
flag_names_of (flags_of names) = names
flag_names_of t = []

abbrev pub wasm_type : WasmType
wasm_type = record {
  list_element_type = element_type;
  record_fields = fields_of;
  tuple_element_types = elements_of;
  variant_cases = cases_of;
  enum_cases = names_of;
  option_some_type = some_of;
  result_types = results_of;
  flags_names = flag_names_of;
  make = λ t v. some v;
  list_element_type-list_of = λ t. refl;
  record_fields-record_of = λ ts. refl;
  tuple_element_types-tuple_of = λ ts. refl;
  variant_cases-variant_of = λ cs. refl;
  enum_cases-enum_of = λ ns. refl;
  option_some_type-option_of = λ t. refl;
  result_types-result_of = λ o e. refl;
  flags_names-flags_of = λ ns. refl;
}

-- Every future and stream can be piped, and every reader made.
abbrev pub host : Host
host = record {
  pipe_future = λ m source. ok source;
  pipe_stream = λ t source. ok source;
  new_reader = λ source. ok source;
}
