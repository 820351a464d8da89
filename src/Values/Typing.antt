-- ===== src/Values/Typing.antt =====
-- Which values have a type, of those that the coders can carry: the lengths fit 32 bits, the cases
-- are those of the type, and flags are in the order of the type. A flag says whether futures and
-- streams count, which only crates/wasmtime/src/codec.rs carries.
use wrpc.Prelude.{ℕ, ◌<◌, ◌≡◌, Bool, true, List, Bytes, ok, length, u32_mod}
use wrpc.Leb128.{Leb128}
use wrpc.Values.{
  Ty, MaybeTy, Tys, FieldTys, CaseTys, Value, MaybeValue, Values, Fields, size, payload_supported,
  number, text, list_of, record_of, tuple_of, variant_of, enum_of, option_of, result_of, flags_of,
  future_of, stream_of, no_ty, some_ty, no_tys, ty, no_field_tys, field_ty, num, str, list, fields,
  tuple, variant, enum, option, result_ok, result_err, flags, future, stream, no_value, some_value,
  no_values, value, no_fields, entry, local,
}
use wrpc.Values.Prims.{Prims}
use wrpc.Values.Flags.{kept}
use wrpc.Values.Discriminants.{enum_discriminant, variant_discriminant}

module _ {leb : Leb128} (p : Prims leb) (async : Bool) where
  abbrev mutual
    pub HasType : Value → Ty → Type 0
    HasType (num k n) t = (t ≡ number k) × (p.fits k n ≡ true)
    HasType (str s) t = (t ≡ text) × (p.utf8 s ≡ true) × (length s < u32_mod)
    HasType (list vs) t = (e : Ty) × (t ≡ list_of e) × (size vs < u32_mod) × AllHaveType vs e
    HasType (fields fs) t = (ts : FieldTys) × (t ≡ record_of ts) × HasFieldTypes fs ts
    HasType (tuple vs) t = (ts : Tys) × (t ≡ tuple_of ts) × HasTypes vs ts
    HasType (variant name v) t =
        (cases : CaseTys) × (d : ℕ) × (m : MaybeTy) × (t ≡ variant_of cases)
        × (variant_discriminant cases name ≡ ok (d, m))
        × HasMaybeType v m
    HasType (enum name) t =
        (names : List Bytes) × (d : ℕ) × (t ≡ enum_of names) × (enum_discriminant names name ≡ ok d)
    HasType (option v) t = (e : Ty) × (t ≡ option_of e) × HasOptionalType v e
    HasType (result_ok v) t =
        (m : MaybeTy) × (other : MaybeTy) × (t ≡ result_of m other) × HasMaybeType v m
    HasType (result_err v) t =
        (m : MaybeTy) × (other : MaybeTy) × (t ≡ result_of other m) × HasMaybeType v m
    HasType (flags fs) t = (names : List Bytes) × (t ≡ flags_of names) × (kept fs names ≡ fs)
    HasType (future source) t =
        (m : MaybeTy) × (t ≡ future_of m)
        × (async ≡ true)
        × (payload_supported m ≡ true)
        × ((i : ℕ) × (source ≡ local i))
    HasType (stream source) t =
        (e : Ty) × (t ≡ stream_of (some_ty e))
        × (async ≡ true)
        × (payload_supported (some_ty e) ≡ true)
        × ((i : ℕ) × (source ≡ local i))

    pub HasMaybeType : MaybeValue → MaybeTy → Type 0
    HasMaybeType no_value m = m ≡ no_ty
    HasMaybeType (some_value v) m = (t : Ty) × (m ≡ some_ty t) × HasType v t

    pub HasOptionalType : MaybeValue → Ty → Type 0
    HasOptionalType no_value t = Unit {0}
    HasOptionalType (some_value v) t = HasType v t

    pub AllHaveType : Values → Ty → Type 0
    AllHaveType no_values t = Unit {0}
    AllHaveType (value v vs) t = HasType v t × AllHaveType vs t

    pub HasTypes : Values → Tys → Type 0
    HasTypes no_values ts = ts ≡ no_tys
    HasTypes (value v vs) ts =
        (t : Ty) × (later : Tys) × (ts ≡ ty t later) × HasType v t × HasTypes vs later

    pub HasFieldTypes : Fields → FieldTys → Type 0
    HasFieldTypes no_fields ts = ts ≡ no_field_tys
    HasFieldTypes (entry n v fs) ts =
        (t : Ty) × (later : FieldTys) × (ts ≡ field_ty n t later)
        × HasType v t
        × HasFieldTypes fs later
