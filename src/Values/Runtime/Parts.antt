-- ===== src/Values/Runtime/Parts.antt =====
-- The parts of values: one after the other, each at its position.
use wrpc.Prelude.{ℕ, suc, refl, List, [], ◌∷◌, ◌++◌, append_assoc, Bytes, Result}
use wrpc.Leb128.{Leb128, ReadLeb128}
use wrpc.Reader.{Reader}
use wrpc.Frame.Header.{CoreName}
use wrpc.Values.{
  Ty, Tys, FieldTys, Value, Values, Fields, size, no_ty, some_ty, no_tys, ty, no_field_tys,
  field_ty, no_value, some_value, no_values, value, no_fields, entry,
}
use wrpc.Values.Prims.{Prims}
use wrpc.Values.Runtime.{Writes}
use wrpc.Values.Runtime.Handles.{Host}
use wrpc.Values.Runtime.Encoder.{encode_val, encode_val_list, encode_val_tuple, encode_val_record}
use wrpc.Values.Runtime.Decoder.{read_elements, read_val, read_val_tuple, read_val_record}
use wrpc.Values.Runtime.Paths.{
  sources, sources_list, sources_record, located, located_list, located_record, sources-cons,
}
use wrpc.Values.Runtime.Sent.{Opened, Sent, SentVal, SentPayload, read}

pub Opened-append :
    (index : List ℕ → Result (List ℕ)) (a b : Writes)
    → Opened index (a ++ b)
    → Opened index a × Opened index b
Opened-append index [] b h = (tt, h)
Opened-append index (w ∷ a) b (h, k) = let (l, r) = Opened-append index a b k in ((h, l), r)

module _ {leb : Leb128} (p : Prims leb) (core_name : CoreName leb) (leb_reader : ReadLeb128 leb)
    (reader : Reader) (host : Host) (index : List ℕ → Result (List ℕ)) where
  abbrev pub SentList : ℕ → Values → Ty → Type 0
  SentList i vs t =
      Sent index (encode_val_list p core_name host i vs t) (λ path. sources_list path i vs)
        (read_elements i (size vs) (read p core_name leb_reader reader host index t))
        (λ path. located_list path i vs)

  abbrev pub SentTuple : ℕ → Values → Tys → Type 0
  SentTuple i vs ts =
      Sent index (encode_val_tuple p core_name host i vs ts) (λ path. sources_list path i vs)
        (read_val_tuple p leb_reader reader host index i ts) (λ path. located_list path i vs)

  abbrev pub SentRecord : ℕ → Fields → FieldTys → Type 0
  SentRecord i fs ts =
      Sent index (encode_val_record p core_name host i fs ts) (λ path. sources_record path i fs)
        (read_val_record p leb_reader reader host index i ts) (λ path. located_record path i fs)

  pub got_list-nil : (i : ℕ) (t : Ty) → SentList i no_values t
  unfolding encode_val read_elements sources located
  got_list-nil i t = ([], refl, λ path o rest. refl)

  pub got_tuple-nil : (i : ℕ) → SentTuple i no_values no_tys
  unfolding encode_val read_val sources located
  got_tuple-nil i = ([], refl, λ path o rest. refl)

  pub got_record-nil : (i : ℕ) → SentRecord i no_fields no_field_tys
  unfolding encode_val read_val sources located
  got_record-nil i = ([], refl, λ path o rest. refl)

  pub got_list-cons :
      (i : ℕ) (v : Value) (vs : Values) (t : Ty)
      → SentVal p core_name leb_reader reader host index v t
      → SentList (suc i) vs t
      → SentList i (value v vs) t
  unfolding encode_val read_elements sources located
  got_list-cons i v vs t (b, w, r) (c, w', r') = (
    b ++ c,
    rw (w, w', sources-cons i [] v) refl,
    λ path o rest.
        let (here, later) =
          Opened-append index (sources (path ++ i ∷ []) v) (sources_list path (suc i) vs) o in
        rw (append_assoc b c rest, r (path ++ i ∷ []) here (c ++ rest), r' path later rest) refl,
  )

  pub got_tuple-cons :
      (i : ℕ) (v : Value) (vs : Values) (t : Ty) (ts : Tys)
      → SentVal p core_name leb_reader reader host index v t
      → SentTuple (suc i) vs ts
      → SentTuple i (value v vs) (ty t ts)
  unfolding encode_val read_val sources located
  got_tuple-cons i v vs t ts (b, w, r) (c, w', r') = (
    b ++ c,
    rw (w, w', sources-cons i [] v) refl,
    λ path o rest.
        let (here, later) =
          Opened-append index (sources (path ++ i ∷ []) v) (sources_list path (suc i) vs) o in
        rw (append_assoc b c rest, r (path ++ i ∷ []) here (c ++ rest), r' path later rest) refl,
  )

  pub got_record-cons :
      (i : ℕ) (n : Bytes) (v : Value) (fs : Fields) (t : Ty) (ts : FieldTys)
      → SentVal p core_name leb_reader reader host index v t
      → SentRecord (suc i) fs ts
      → SentRecord i (entry n v fs) (field_ty n t ts)
  unfolding encode_val read_val sources located
  got_record-cons i n v fs t ts (b, w, r) (c, w', r') = (
    b ++ c,
    rw (w, w', sources-cons i [] v) refl,
    λ path o rest.
        let (here, later) =
          Opened-append index (sources (path ++ i ∷ []) v) (sources_record path (suc i) fs) o in
        rw (append_assoc b c rest, r (path ++ i ∷ []) here (c ++ rest), r' path later rest) refl,
  )

  pub got_payload :
      (v : Value) (t : Ty)
      → SentVal p core_name leb_reader reader host index v t
      → SentPayload p core_name leb_reader reader host index (some_value v) (some_ty t)
  unfolding encode_val read_val sources located
  got_payload v t (b, w, r) = (b, w, λ path o rest. rw (r path o rest) refl)

  pub got_no_payload : SentPayload p core_name leb_reader reader host index no_value no_ty
  unfolding encode_val read_val sources located
  got_no_payload = ([], refl, λ path o rest. refl)
