-- ===== src/Examples/Values/Typed.antt =====
-- Runs of the decoder of crates/wave on bytes that no encoder wrote.
use wrpc.Prelude.{◌≡◌, refl, false, [], ◌∷◌, ◌++◌, some, Bytes, ok, arith}
use wrpc.Leb128.Varint.{varint, read_varint}
use wrpc.Leb128.Varint as V
use wrpc.Reader.{slice, slice_u8, slice_exact}
use wrpc.BTree.{eq}
use wrpc.Values.{
  Ty, Value, u8, number, tuple_of, variant_of, flags_of, no_ty, some_ty, ty, no_tys, no_case_tys,
  case_ty, num, tuple, variant, flags, some_value, no_values, value,
}
use wrpc.Values.Flags.{contains, marked, has_bit, has_bit_at}
use wrpc.Values.Typing.{HasType}
use wrpc.Values.Distinct.{IsDistinct}
use wrpc.Values.Wave.{encode_value, decode_value, read_value, make}
use wrpc.Values.Wave.Sound.{read_value-HasType, decode_value-again}
use wrpc.Examples.Values.Coders.{prims, prims-ReadsValid, core_names, wasm_type}

-- A variant, and two flags.
abbrev shape : Ty
shape = tuple_of (
    ty (variant_of (case_ty (97 ∷ []) no_ty (case_ty (98 ∷ []) (some_ty (number u8)) no_case_tys)))
      (ty (flags_of ((97 ∷ []) ∷ (98 ∷ []) ∷ [])) no_tys))

shape-IsDistinct : IsDistinct shape
unfolding contains eq
shape-IsDistinct = (((refl, (refl, tt)), omega arith, (tt, (tt, tt))), ((refl, (refl, tt)), tt))

-- The bits that stand for no flag are set.
abbrev bytes : Bytes
bytes = 1 ∷ 7 ∷ 254 ∷ []

abbrev found : Value
found =
    tuple
      (value (variant (98 ∷ []) (some_value (num u8 7))) (value (flags ((98 ∷ []) ∷ [])) no_values))

reads : read_value prims read_varint slice wasm_type shape (bytes ++ 5 ∷ []) ≡ ok (found, 5 ∷ [])
unfolding read_value make prims read_varint varint slice slice_u8 slice_exact marked has_bit_at
    has_bit V.answer V.decode V.read
reads = refl

decodes : decode_value prims read_varint slice wasm_type bytes shape ≡ ok found
unfolding decode_value read_value make prims read_varint varint slice slice_u8 slice_exact marked
    has_bit_at has_bit V.answer V.decode V.read
decodes = refl

same_made : (t : Ty) (v w : Value) → wasm_type.make t v ≡ some w → w ≡ v
same_made t v w e = cc

read_value-HasType_example : HasType prims false found shape
read_value-HasType_example =
    read_value-HasType prims prims-ReadsValid read_varint slice wasm_type same_made shape
      (bytes ++ 5 ∷ []) found (5 ∷ []) shape-IsDistinct reads

decode_value-again_example :
    (b : Bytes) × (encode_value prims core_names wasm_type found shape ≡ ok b)
    × (decode_value prims read_varint slice wasm_type b shape ≡ ok found)
decode_value-again_example =
    decode_value-again prims prims-ReadsValid read_varint slice wasm_type same_made core_names
      (λ v t h. refl) shape bytes found shape-IsDistinct decodes
